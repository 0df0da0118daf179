-- ===== src/MuxServer/Dispatch/FanOut.antt =====
-- mux_server.go, `AddJobs`: every topic of the queue gets every job of the batch.
use pepperbus.Base.{
  ◌≡◌, ◌≢◌, refl, ap, subst, ◌∙◌, List, [], ◌∷◌, map, Bool, false, Option, none, some, arith,
  if◌then◌else◌, All, inl, inr, Bool-cases,
}
use pepperbus.Base.Text.{Text, text_eq, text_eq_iff, text_eq_refl}
use pepperbus.Base.Map.{Map, lookup, Distinct, is_some}
use pepperbus.Config.{TopicConfig, QueueConfig}
use pepperbus.Job.{Job, Jobs, Codec, RoundTrip}
use pepperbus.MuxServer.{MuxServer, Muxer, muxers, start_topics}
use pepperbus.MuxServer.Muxers.{Inv, Configured, started, started_sound}
use pepperbus.MuxServer.Dispatch.{fresh_retry, later_error, add_to, add_to_queue, add_jobs}
use pepperbus.Redis.Wire.{Server}
use pepperbus.Redis.Healthy.{Healthy}
use pepperbus.Storage.{StorageError, stamp, prepare, add_queue}
use pepperbus.Storage.Fifo.{prepare-map, prepare-decode, push_values-items, push_values_answer}
use pepperbus.Storage.Topic.{Queues, append, view, view-add_queue, contents_of_items, view_ext}
use pepperbus.Storage.Key.{QueueTyp, common_queue, get_key}
use pepperbus.Storage.KeyLaws.{get_key_other_topic}

-- The last topic's settings are the ones that count.
fresh_retry_twice :
    (c d : TopicConfig) (jobs : List Job)
    → map (fresh_retry c) (map (fresh_retry d) jobs) ≡ map (fresh_retry c) jobs
unfolding fresh_retry
fresh_retry_twice c d [] = refl
fresh_retry_twice c d (job ∷ jobs) = ground (arith, fresh_retry_twice c d jobs)

map-stamp : (jobs : List Job) → map (stamp false) jobs ≡ jobs
map-stamp [] = refl
map-stamp (job ∷ jobs) = ap (◌∷◌ job) (map-stamp jobs)

-- What a topic's queues become: the batch with the topic's retry settings goes to the common queue.
abbrev pub received_by : Option TopicConfig → List Job → Queues → Queues
received_by none jobs v = v
received_by (some c) jobs v = append common_queue (map (fresh_retry c) jobs) v

received_twice :
    (o : Option TopicConfig) (c : TopicConfig) (jobs : List Job) (v : Queues)
    → received_by o (map (fresh_retry c) jobs) v ≡ received_by o jobs v
received_twice none c jobs v = refl
received_twice (some d) c jobs v = rw (fresh_retry_twice d c jobs) refl

module _ (codec : Codec) (server : Server) (healthy : Healthy server) {IsClean : Job → Type 0}
    (trip : RoundTrip codec IsClean) where
  open server use {Store}

  -- `AddQueue` leaves the other topics of the queue alone.
  view-other :
      (jobs : Jobs) (typ : QueueTyp) (s : Store) (u : Text)
      → jobs.topic_name ≢ u
      → view codec server healthy jobs.queue_name u (add_queue codec server jobs typ s).2
        ≡ view codec server healthy jobs.queue_name u s
  view-other jobs typ s u apart =
      let s' = (add_queue codec server jobs typ s).2 in
      view_ext (view codec server healthy jobs.queue_name u s)
        (view codec server healthy jobs.queue_name u s')
        (λ k. contents_of_items codec server healthy jobs.queue_name u k s s' (
          unfold add_queue in
          rw
            (
              push_values-items codec server healthy _ _ _ s _,
              get_key_other_topic jobs.queue_name jobs.topic_name u typ k apart,
            )
            refl))

  map-ne-nil :
      (f : Text → Job) (g : Job → Job) (vs : List Text) (x : Job) (xs : List Job)
      → map f vs ≡ map g (x ∷ xs)
      → vs ≢ []
  map-ne-nil f g vs x xs e empty = cc (ap (map f) empty)

  -- A batch that is not retrying, and can be encoded, is accepted without an error and unchanged.
  add_common :
      (jobs : Jobs) (s : Store) (x : Job) (xs : List Job)
      → jobs.retrying ≡ false
      → jobs.slice ≡ x ∷ xs
      → All IsClean jobs.slice
      → ((add_queue codec server jobs common_queue s).0 ≡ none)
        × ((add_queue codec server jobs common_queue s).1 ≡ jobs)
  unfolding add_queue
  add_common jobs s x xs calm shape clean =
      let (slice', vs) = prepare codec jobs.retrying jobs.slice in
      let stays = prepare-map codec jobs.retrying jobs.slice ∙ rw calm (map-stamp jobs.slice) in
      let decoded =
        prepare-decode codec trip jobs.retrying jobs.slice (rw calm clean)
        ∙ ap (map (stamp jobs.retrying)) shape in
      let (no_error, same) =
        push_values_answer codec server healthy
          (get_key jobs.queue_name jobs.topic_name common_queue) vs (record jobs { slice = slice' })
          s (map-ne-nil codec.decode (stamp jobs.retrying) vs x xs decoded) in
      (no_error, same ∙ (λ i. record jobs { slice = stays i }))

  add_to_step :
      (q : QueueConfig) (t : Text) (mux : Muxer) (ms : Map Muxer) (e : Option StorageError)
      (jobs : Jobs) (s : Store) (c : TopicConfig)
      → lookup t q.topic ≡ some c
      → add_to codec server (some q) ((t, mux) ∷ ms) e jobs s ≡ (
          let batch : Jobs = record jobs {
            topic_name = t;
            slice = map (fresh_retry c) jobs.slice;
          } in
          let (f, jobs', s') = add_queue codec server batch common_queue s in
          add_to codec server (some q) ms (later_error f e) jobs' s')
  unfolding add_to
  add_to_step q t mux ms e jobs s c found = rw (found, add_to) refl

  abbrev Fanned : QueueConfig → Map Muxer → Option StorageError → Jobs → Store → Type 0
  Fanned q ms e jobs s =
      (jobs' : Jobs) × (s' : Store) × (add_to codec server (some q) ms e jobs s
        ≡ some (e, jobs', s'))
      × ((u : Text)
          → view codec server healthy jobs.queue_name u s' ≡ (
              if is_some (lookup u ms)
              then received_by (lookup u q.topic) jobs.slice
                  (view codec server healthy jobs.queue_name u s)
              else view codec server healthy jobs.queue_name u s))

  add_to-Fanned :
      (q : QueueConfig) (ms : Map Muxer) (e : Option StorageError) (jobs : Jobs) (s : Store)
      (x : Job) (xs : List Job)
      → All (Configured q.topic) ms
      → Distinct ms
      → jobs.retrying ≡ false
      → jobs.slice ≡ x ∷ xs
      → ((c : TopicConfig) → All IsClean (map (fresh_retry c) jobs.slice))
      → Fanned q ms e jobs s
  unfolding lookup
  add_to-Fanned q [] e jobs s x xs conf distinct calm shape clean =
      (jobs, s, unfold add_to in refl, λ u. refl)
  add_to-Fanned q ((t, mux) ∷ ms) e jobs s x xs ((c, found), conf) (fresh, distinct) calm shape
        clean =
      let batch : Jobs = record jobs { topic_name = t; slice = map (fresh_retry c) jobs.slice } in
      let s1 = (add_queue codec server batch common_queue s).2 in
      let shape1 = ap (map (fresh_retry c)) shape in
      let (no_error, same) =
        add_common batch s (fresh_retry c x) (map (fresh_retry c) xs) calm shape1 (clean c) in
      let (jobs', s', r, views) =
        add_to-Fanned q ms e batch s1 (fresh_retry c x) (map (fresh_retry c) xs) conf distinct calm
          shape1 (λ d. rw (fresh_retry_twice d c jobs.slice) (clean d)) in
      (
        jobs',
        s',
        add_to_step q t mux ms e jobs s c found ∙ rw (no_error, same) r,
        λ u. views u ∙ elim (Bool-cases (text_eq t u)) [
          | inl hit ↦
              let here : t ≡ u = (text_eq_iff t u).0 hit in
              subst
                (λ (u : Text).
                  (if is_some (lookup u ms)
                    then received_by (lookup u q.topic) batch.slice
                        (view codec server healthy jobs.queue_name u s1)
                    else view codec server healthy jobs.queue_name u s1)
                  ≡ (if is_some (if text_eq t u then some mux else lookup u ms)
                      then received_by (lookup u q.topic) jobs.slice
                          (view codec server healthy jobs.queue_name u s)
                      else view codec server healthy jobs.queue_name u s))
                here
                (rw (fresh, text_eq_refl t, found)
                  (view-add_queue codec server healthy trip batch common_queue s (rw calm (clean c))
                    ∙ rw (calm, map-stamp (map (fresh_retry c) jobs.slice)) refl))
          | inr miss ↦
              rw
                (
                  miss,
                  view-other batch common_queue s u
                      (λ same_topic. cc (miss, (text_eq_iff t u).1 same_topic)),
                )
                (rw received_twice refl)
        ],
      )

  add_to_queue-Fanned :
      (q : QueueConfig) (ms : Map Muxer) (jobs : Jobs) (s s' : Store) (jobs' : Jobs)
      → ms ≢ []
      → add_to codec server (some q) ms none jobs s ≡ some (none, jobs', s')
      → add_to_queue codec server (some q) (some ms) jobs s ≡ some (none, jobs', s')
  unfolding add_to_queue
  add_to_queue-Fanned q [] jobs s s' jobs' nonempty r = absurd (nonempty refl)
  add_to_queue-Fanned q (m ∷ ms) jobs s s' jobs' nonempty r = rw (r, add_to_queue) refl

  -- On a server in step with its configuration, `AddJobs` of a batch for a queue with at least one
  -- muxer reports no error, and every topic with a muxer gets all jobs of the batch at the end of
  -- its common queue, with the topic's own retry settings; the queue's other topics stay as they
  -- were.
  pub add_jobs-fan_out :
      (Read : (Text → Bool) → Type 0) (ms : MuxServer) (q : QueueConfig) (jobs : Jobs) (s : Store)
      (x : Job) (xs : List Job)
      → Inv Read ms
      → lookup jobs.queue_name ms.queue_config ≡ some q
      → muxers (lookup jobs.queue_name ms.mux) ≢ []
      → jobs.retrying ≡ false
      → jobs.slice ≡ x ∷ xs
      → ((c : TopicConfig) → All IsClean (map (fresh_retry c) jobs.slice))
      → (jobs' : Jobs) × (s' : Store) × (add_jobs codec server ms jobs s ≡ some (none, jobs', s'))
        × ((u : Text)
            → view codec server healthy jobs.queue_name u s' ≡ (
                if is_some (lookup u (muxers (lookup jobs.queue_name ms.mux)))
                then received_by
                    (lookup u q.topic)
                    jobs.slice
                    (view codec server healthy jobs.queue_name u s)
                else view codec server healthy jobs.queue_name u s))
  unfolding add_jobs
  add_jobs-fan_out Read ms q jobs s x xs inv configured nonempty calm shape clean =
      let (d, now, runs) = inv.running jobs.queue_name in
      let run = start_topics d q q.topic [] in
      let there = runs ∙ ap (started d) configured in
      let (conf, distinct) = started_sound d q in
      let (jobs', s', r, views) =
        add_to-Fanned q run none jobs s x xs conf distinct calm shape clean in
      (
        jobs',
        s',
        rw (configured, there) (add_to_queue-Fanned q run jobs s s' jobs' (rw there at nonempty) r),
        λ u. rw there (views u),
      )
