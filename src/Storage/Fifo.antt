-- ===== src/Storage/Fifo.antt =====
-- storage.go against a queue: the jobs of a list, oldest first. `AddQueue` appends and
-- `GetJobsFromQueue` takes the oldest, over a server that keeps the laws of `Healthy`.
use mathlib.Core.List.{map-append, reverse-cons}
use pepperbus.Base.{
  ◌≡◌, ◌≢◌, refl, ap, inl, inr, List, [], ◌∷◌, ◌++◌, map, reverse, reverse-append, reverse-reverse,
  Bool, ◌||◌, none, some, arith, if◌then◌else◌, All, last_cases,
}
use pepperbus.Base.Text.{Text, text_eq, text_eq_refl, text_eq_iff}
use pepperbus.Job.{Job, Jobs, Codec, RoundTrip}
use pepperbus.Redis
use pepperbus.Redis.Wire.{Server, ok}
use pepperbus.Redis.Healthy.{Healthy}
use pepperbus.Redis.Laws.{rpop_last, rpop_empty}
use pepperbus.Storage.{
  prepare, stamp, with_value, push_values, add_queue, get_jobs_from_queue, single,
}
use pepperbus.Storage.Key.{QueueTyp, is_retry_queue, get_key}

pub prepare-map :
    (codec : Codec) (retrying : Bool) (jobs : List Job)
    → (prepare codec retrying jobs).0 ≡ map (stamp retrying) jobs
unfolding prepare
prepare-map codec retrying [] = refl
prepare-map codec retrying (job ∷ jobs) =
    ap (◌∷◌ (stamp retrying job)) (prepare-map codec retrying jobs)

-- Every job of a batch that can be encoded is pushed, and decodes to itself.
module _ (codec : Codec) {IsClean : Job → Type 0} (trip : RoundTrip codec IsClean) where
  pub prepare-decode :
      (retrying : Bool) (jobs : List Job)
      → All (λ job. IsClean (stamp retrying job)) jobs
      → map codec.decode (prepare codec retrying jobs).1 ≡ map (stamp retrying) jobs
  unfolding prepare
  prepare-decode retrying [] clean = refl
  prepare-decode retrying (job ∷ jobs) (clean, rest) =
      let (v, e, d) = trip.decode-encode (stamp retrying job) clean in
      rw (e, with_value) (cc (d, prepare-decode retrying jobs rest))

map-reverse {ℓ κ} :
    {A : Type ℓ} {B : Type κ} (f : A → B) (xs : List A) → map f (reverse xs) ≡ reverse (map f xs)
map-reverse f [] = refl
map-reverse f (x ∷ xs) = simp (reverse-cons, map-append, map-reverse f xs)

module _ (codec : Codec) (server : Server) (healthy : Healthy server) where
  open server use {Store}

  -- The jobs in a topic's queue of one kind, oldest first.
  unfoldable pub contents : Text → Text → QueueTyp → Store → List Job
  contents q t typ s = map codec.decode (reverse (healthy.items s (get_key q t typ)))

  pub push_values-items :
      (key : Text) (vs : List Text) (jobs : Jobs) (s : Store) (j : Text)
      → healthy.items (push_values codec server key vs jobs s).2 j
        ≡ (if text_eq key j then reverse vs ++ healthy.items s key else healthy.items s j)
  unfolding push_values Redis.lpush
  push_values-items key [] jobs s j = ground (arith, text_eq_iff key j)
  push_values-items key (v ∷ vs) jobs s j = healthy.lpush_items key (v ∷ vs) s j

  pub push_values_answer :
      (key : Text) (vs : List Text) (jobs : Jobs) (s : Store)
      → vs ≢ []
      → ((push_values codec server key vs jobs s).0 ≡ none)
        × ((push_values codec server key vs jobs s).1 ≡ jobs)
  unfolding push_values
  push_values_answer key [] jobs s h = absurd (h refl)
  push_values_answer key (v ∷ vs) jobs s h = (refl, refl)

  module _ {IsClean : Job → Type 0} (trip : RoundTrip codec IsClean) where
    -- `AddQueue` of jobs that can be encoded appends them, stamped, to the queue they are for.
    pub contents-add_queue :
        (jobs : Jobs) (typ : QueueTyp) (s : Store)
        → let retrying = is_retry_queue typ || jobs.retrying in
          All (λ job. IsClean (stamp retrying job)) jobs.slice
          → contents jobs.queue_name jobs.topic_name typ (add_queue codec server jobs typ s).2
            ≡ contents jobs.queue_name jobs.topic_name typ s ++ map (stamp retrying) jobs.slice
    unfolding add_queue contents
    contents-add_queue jobs typ s clean =
        let retrying = is_retry_queue typ || jobs.retrying in
        simp (push_values-items, text_eq_refl, reverse-append, reverse-reverse, map-append)
          (ap (◌++◌ _) (prepare-decode codec trip retrying jobs.slice clean))

  contents_last :
      (q t : Text) (typ : QueueTyp) (s : Store) (xs : List Text) (v : Text)
      → healthy.items s (get_key q t typ) ≡ xs ++ v ∷ []
      → contents q t typ s ≡ codec.decode v ∷ map codec.decode (reverse xs)
  unfolding contents
  contents_last q t typ s xs v e = simp (e, reverse-append)

  contents-nil :
      (q t : Text) (typ : QueueTyp) (s : Store)
      → healthy.items s (get_key q t typ) ≡ []
      → contents q t typ s ≡ []
  unfolding contents
  contents-nil q t typ s e = rw e

  -- `GetJobsFromQueue` hands out the oldest job and removes it.
  pub get_jobs-oldest :
      (trace q t : Text) (typ : QueueTyp) (s : Store) (job : Job) (rest : List Job)
      → contents q t typ s ≡ job ∷ rest
      → let (answer, s') = get_jobs_from_queue codec server trace q t typ s in
        (answer ≡ ok (some (single trace q t job))) × (contents q t typ s' ≡ rest)
  unfolding get_jobs_from_queue
  get_jobs-oldest trace q t typ s job rest e =
      let key = get_key q t typ in
      elim (last_cases (healthy.items s key)) [
        | inl empty ↦ cc (e, contents-nil q t typ s empty)
        | inr (xs, v, split) ↦
            let (answer, left) = rpop_last server healthy key s xs v split in
            let whole = contents_last q t typ s xs v split in
            (rw answer (cc (whole, e)), unfold contents in rw left (cc (whole, e)))
      ]

  -- An empty queue hands out the nil batch, and stays empty.
  pub get_jobs-empty :
      (trace q t : Text) (typ : QueueTyp) (s : Store)
      → contents q t typ s ≡ []
      → let (answer, s') = get_jobs_from_queue codec server trace q t typ s in
        (answer ≡ ok none) × (contents q t typ s' ≡ [])
  unfolding get_jobs_from_queue
  get_jobs-empty trace q t typ s e =
      let key = get_key q t typ in
      elim (last_cases (healthy.items s key)) [
        | inl empty ↦
            let (answer, left) = rpop_empty server healthy key s empty in
            (rw answer refl, contents-nil q t typ _ left)
        | inr (xs, v, split) ↦ cc (e, contents_last q t typ s xs v split)
      ]
