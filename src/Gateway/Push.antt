-- ===== src/Gateway/Push.antt =====
-- gateway.go, `lpush`: the replies and effects of a client's command.
use pepperbus.Base.{
  ℕ, suc, ◌≡◌, ◌≢◌, refl, ap, ◌∙◌, List, [], ◌∷◌, ◌++◌, map, Bool, true, false, none, some, All,
  if◌then◌else◌,
}
use pepperbus.Base.Text.{Text}
use pepperbus.Base.Map.{lookup, is_some}
use pepperbus.Config.{TopicConfig, QueueConfig}
use pepperbus.Gateway.{
  Login, no_auth, from_server, pushed, check_auth, Pushed, after_add, push_parsed, lpush,
}
use pepperbus.Job.{Job, Jobs, Codec, RoundTrip}
use pepperbus.Job.Parse.{slash, gen_trace_id, new_jobs, ids_of, parse_job}
use pepperbus.Base.Split.{Without, split_once-append}
use pepperbus.MuxServer.{MuxServer, muxers}
use pepperbus.MuxServer.Dispatch.{ServerError, add_jobs, fresh_retry}
use pepperbus.MuxServer.Dispatch.FanOut.{received_by, add_jobs-fan_out}
use pepperbus.MuxServer.Muxers.{Inv}
use pepperbus.Redis.Wire.{Server}
use pepperbus.Redis.Healthy.{Healthy}
use pepperbus.Storage.Topic.{view}

-- The batch of a command with a queue and a topic in its first argument.
abbrev pub command_batch : (ℕ → ℕ) → Text → Text → List Text → ℕ → Jobs
command_batch gen service q contents n = record {
  in_trace_id = gen_trace_id gen service n;
  out_trace_id = [];
  queue_name = q;
  topic_name = [];
  retrying = false;
  slice = new_jobs gen (gen_trace_id gen service n) contents (suc n);
}

parse_job_command :
    (gen : ℕ → ℕ) (service q t : Text) (contents : List Text) (n : ℕ)
    → Without slash q
    → (parse_job gen service (q ++ slash ∷ t) contents n).0
      ≡ (let jobs = command_batch gen service q contents n in some (jobs, ids_of gen jobs.slice))
unfolding parse_job
parse_job_command gen service q t contents n h = rw (parse_job, split_once-append slash q t h) refl

module _ (codec : Codec) (server : Server) where
  open server use {Store}

  -- A client that may not use the queue gets the authentication error as its only reply; nothing is
  -- stored, noted for debugging or counted.
  pub lpush-guarded :
      (gen : ℕ → ℕ) (service : Text) (ms : MuxServer) (who : Login) (q t : Text)
      (contents : List Text) (n : ℕ) (s : Store)
      → Without slash q
      → check_auth who q [] ≡ false
      → lpush codec server gen service ms who ((q ++ slash ∷ t) ∷ contents) n s
        ≡ some (record {
          replies = pushed [] (gen_trace_id gen service n) (some no_auth) ∷ [];
          debugged = [];
          counted = [];
          store = s;
        })
  unfolding lpush
  lpush-guarded gen service ms who q t contents n s h denied =
      rw (lpush, parse_job_command gen service q t contents n h) (rw (push_parsed, denied) refl)

  lpush_authorized :
      (gen : ℕ → ℕ) (service : Text) (ms : MuxServer) (who : Login) (q t : Text)
      (contents : List Text) (n : ℕ) (s : Store)
      → Without slash q
      → check_auth who q [] ≡ true
      → lpush codec server gen service ms who ((q ++ slash ∷ t) ∷ contents) n s ≡ (
          let jobs = command_batch gen service q contents n in
          after_add codec server
            (ids_of gen jobs.slice)
            jobs.in_trace_id
            (add_jobs codec server ms jobs s))
  unfolding lpush
  lpush_authorized gen service ms who q t contents n s h allowed =
      rw (lpush, parse_job_command gen service q t contents n h) (rw (push_parsed, allowed) refl)

  -- When `AddJobs` reports an error to a client that may use the queue, the error is written twice
  -- for one command, and the push is counted as failed.
  pub lpush_failed :
      (gen : ℕ → ℕ) (service : Text) (ms : MuxServer) (who : Login) (q t : Text)
      (contents : List Text) (n : ℕ) (s : Store) (e : ServerError) (jobs' : Jobs) (s' : Store)
      → Without slash q
      → check_auth who q [] ≡ true
      → add_jobs codec server ms (command_batch gen service q contents n) s
        ≡ some (some e, jobs', s')
      → (o : Pushed Store) × (lpush codec server gen service ms who
            ((q ++ slash ∷ t) ∷ contents)
            n
            s
          ≡ some o)
        × (o.replies ≡ (
            let reply = pushed [] (gen_trace_id gen service n) (some (from_server e)) in
            reply ∷ reply ∷ []))
        × (o.counted ≡ (jobs'.queue_name, false) ∷ [])
        × (o.store ≡ s')
  unfolding after_add
  lpush_failed gen service ms who q t contents n s e jobs' s' h allowed failed =
      let batch = command_batch gen service q contents n in
      let run = lpush_authorized gen service ms who q t contents n s h allowed in
      (
        _,
        run ∙ ap (after_add codec server (ids_of gen batch.slice) batch.in_trace_id) failed,
        refl,
        refl,
        refl,
      )

module _ (codec : Codec) (server : Server) (healthy : Healthy server) {IsClean : Job → Type 0}
    (trip : RoundTrip codec IsClean) where
  open server use {Store}

  -- A client that may use the queue pushes at least one job for a configured queue with a muxer, on
  -- a server in step with its configuration. The client gets one reply, with the ids of the jobs and
  -- no error, and every topic with a muxer has the jobs, in their order and with the topic's retry
  -- settings, at the end of its common queue; the queue's other topics stay as they were. (For a
  -- healthy Redis and jobs that can be encoded.)
  pub lpush-delivers :
      (gen : ℕ → ℕ) (service : Text) (Read : (Text → Bool) → Type 0) (ms : MuxServer)
      (conf : QueueConfig) (who : Login) (q t x : Text) (xs : List Text) (n : ℕ) (s : Store)
      → Without slash q
      → check_auth who q [] ≡ true
      → Inv Read ms
      → lookup q ms.queue_config ≡ some conf
      → muxers (lookup q ms.mux) ≢ []
      → (let jobs = command_batch gen service q (x ∷ xs) n in
          (c : TopicConfig) → All IsClean (map (fresh_retry c) jobs.slice))
      → (o : Pushed Store) × (lpush codec server gen service ms who ((q ++ slash ∷ t) ∷ x ∷ xs) n s
          ≡ some o)
        × (let jobs = command_batch gen service q (x ∷ xs) n in
            (o.replies ≡ pushed (ids_of gen jobs.slice) jobs.in_trace_id none ∷ [])
            × ((u : Text)
                → view codec server healthy q u o.store ≡ (
                    if is_some (lookup u (muxers (lookup q ms.mux)))
                    then received_by
                        (lookup u conf.topic)
                        jobs.slice
                        (view codec server healthy q u s)
                    else view codec server healthy q u s)))
  unfolding after_add new_jobs
  lpush-delivers gen service Read ms conf who q t x xs n s h allowed inv found some_muxer clean =
      let jobs = command_batch gen service q (x ∷ xs) n in
      let run = lpush_authorized codec server gen service ms who q t (x ∷ xs) n s h allowed in
      let (jobs', s', added, views) =
        add_jobs-fan_out codec server healthy trip Read ms conf jobs s _ _ inv found some_muxer refl
          refl clean in
      (
        _,
        run ∙ ap (after_add codec server (ids_of gen jobs.slice) jobs.in_trace_id) added,
        (refl, views),
      )
