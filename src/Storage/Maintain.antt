-- ===== src/Storage/Maintain.antt =====
-- storage.go, `CleanQueue` and `GetLength`, the operations behind the admin interface; and what
-- happens to a batch when the server refuses it.
use pepperbus.Base.{◌≡◌, ◌≢◌, refl, List, [], ◌∷◌, ◌||◌, none, if◌then◌else◌, length, ◌∙◌, ap}
use pepperbus.Base.Int.{pos}
use pepperbus.Base.Text.{Text, text_eq}
use pepperbus.Job.{Jobs, Codec}
use pepperbus.Redis
use pepperbus.Redis.Wire.{Server, Error, err}
use pepperbus.Redis.Healthy.{Healthy}
use pepperbus.Redis.Laws.{llen_answer, del_answer}
use pepperbus.Storage.{prepare, push_values, add_queue, clean_queue, get_length}
use pepperbus.Storage.Key.{
  QueueTyp, common_queue, retry_queue, timeout_queue, is_retry_queue, get_key,
}

module _ (server : Server) (h : Healthy server) where
  open server use {Store}

  -- `CleanQueue` returns the number of jobs that were in the list, leaves the list empty and every
  -- other list as it was.
  pub clean_queue_lem :
      (q t : Text) (typ : QueueTyp) (s : Store)
      → let key = get_key q t typ in
        let (n, e, s') = clean_queue server q t typ s in
        (n ≡ pos (length (h.items s key)))
        × (e ≡ none)
        × ((j : Text) → h.items s' j ≡ (if text_eq key j then [] else h.items s j))
  unfolding clean_queue
  clean_queue_lem q t typ s =
      let key = get_key q t typ in
      let (len, same) = llen_answer server h key s in
      let (gone, rest) = del_answer server h key (Redis.llen server key s).1 in
      (
        rw (len, clean_queue) refl,
        rw (len, clean_queue) (rw gone refl),
        λ j. rw (len, clean_queue) (rest j ∙ rw (same j) refl),
      )

  -- `GetLength` returns the lengths of the three lists of a topic.
  pub get_length_lem :
      (q t : Text) (s : Store)
      → (get_length server q t s).0 ≡ (
        pos (length (h.items s (get_key q t common_queue))),
        pos (length (h.items s (get_key q t retry_queue))),
        pos (length (h.items s (get_key q t timeout_queue))),
        none,
      )
  unfolding get_length
  get_length_lem q t s =
      let k = get_key q t common_queue in
      let s' = (Redis.llen server k s).1 in
      let s'' = (Redis.llen server (get_key q t retry_queue) s').1 in
      let (first, same) = llen_answer server h k s in
      let (second, same') = llen_answer server h (get_key q t retry_queue) s' in
      let (third, _) = llen_answer server h (get_key q t timeout_queue) s'' in
      rw (first, get_length) (rw (second, third) (simp (same', same)))

refused_push :
    (codec : Codec) (server : Server) (key : Text) (vs : List Text) (jobs : Jobs) (s : server.Store)
    (e : Error)
    → vs ≢ []
    → Redis.lpush server key vs s ≡ (err e, s)
    → ((push_values codec server key vs jobs s).0 ≡ none)
      × ((push_values codec server key vs jobs s).2 ≡ s)
unfolding push_values
refused_push codec server key [] jobs s e some_values refused = absurd (some_values refl)
refused_push codec server key (v ∷ vs) jobs s e some_values refused = (refl, ap (λ r. r.1) refused)

-- When the server refuses LPUSH and stores nothing, `AddQueue` reports no error all the same: the
-- jobs are in no list, and the caller takes them for accepted.
pub add_queue_drops_error :
    (codec : Codec) (server : Server) (jobs : Jobs) (typ : QueueTyp) (s : server.Store) (e : Error)
    → let vs = (prepare codec (is_retry_queue typ || jobs.retrying) jobs.slice).1 in
      vs ≢ []
      → Redis.lpush server (get_key jobs.queue_name jobs.topic_name typ) vs s ≡ (err e, s)
      → ((add_queue codec server jobs typ s).0 ≡ none) × ((add_queue codec server jobs typ s).2 ≡ s)
unfolding add_queue
add_queue_drops_error codec server jobs typ s e some_values refused =
    refused_push codec server _ _ _ s e some_values refused
