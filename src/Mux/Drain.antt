-- ===== src/Mux/Drain.antt =====
-- mux.go, the worker loop: the rounds of a worker until it stops, panics or goes back to the pings,
-- and what they make of a topic's jobs.
use pepperbus.Base.{
  ◌≡◌, refl, ap, ◌∙◌, ℕ, zero, suc, List, [], ◌∷◌, append_assoc, append-nil, true, false, some,
  if◌then◌else◌, inl, inr, Bool-cases, length, Bool, sym,
}
use pepperbus.Base.Int.{ℤ}
use pepperbus.Base.Text.{Text, text_eq}
use pepperbus.Job.{Job, Jobs, Codec, RoundTrip}
use pepperbus.Redis.Wire.{Server}
use pepperbus.Redis.Healthy.{Healthy}
use pepperbus.Response.{WorkerResponse, Sent, response_success}
use pepperbus.Storage.{stamp, single}
use pepperbus.Storage.Topic.{Queues, replace, append, view, view-get_jobs, view-get_jobs_empty}
use pepperbus.Storage.Key.{common_queue, retry_queue}
use pepperbus.Mux.{consume, handle, settle, send_jobs, mark_attempt}
use pepperbus.Mux.Consume.{must_ping, consume-moves, consume-next}
use pepperbus.Mux.Types.{
  Next, stop, idle, again, ping_again, panicked, TopicRetry, Outcome, mux_loop_interval,
}

-- Whether the loop has another round (perhaps after a sleep).
abbrev goes_on : Next → Bool
goes_on stop = false
goes_on (idle n) = true
goes_on again = true
goes_on ping_again = false
goes_on panicked = false

module _ (codec : Codec) (server : Server) (q t : Text) (conf : TopicRetry) (trace : ℕ → Text)
    (now : ℕ → ℤ) (send : ℕ → Jobs → Sent) where
  open server use {Store}

  -- At most `n` rounds of the loop, the first of which is round i. The trace id, the time and the
  -- worker of a round depend on its number.
  unfoldable pub worker_loop : ℕ → ℕ → Store → Next × Store
  worker_loop zero i s = (again, s)
  worker_loop (suc n) i s =
      let o = consume codec server q t (some conf) false (trace i) (now i) (send i) s in
      let more = worker_loop n (suc i) o.store in if goes_on o.next then more else (o.next, o.store)

-- What becomes of jobs that are taken in rounds i, i + 1 and so on.
module _ (q t : Text) (conf : TopicRetry) (trace : ℕ → Text) (now : ℕ → ℤ)
    (send : ℕ → Jobs → Sent) where
  abbrev pub marked : ℕ → Job → Job
  marked i job = mark_attempt conf (now i) job

  abbrev pub answer_to : ℕ → Job → WorkerResponse
  answer_to i job = send_jobs (send i (single (trace i) q t (marked i job)))

  -- The jobs that the worker did not answer with 200, as they were added to the retry queue.
  unfoldable pub failures : ℕ → List Job → List Job
  failures i [] = []
  failures i (job ∷ jobs) =
      let rest = failures (suc i) jobs in
      if text_eq (answer_to i job).code response_success
      then rest
      else stamp true (marked i job) ∷ rest

  -- No answer sends the worker back to the pings, and every job can be printed.
  abbrev pub Served : (Job → Type 0) → ℕ → List Job → Type 0
  Served IsClean i [] = Unit
  Served IsClean i (job ∷ jobs) =
      IsClean (stamp true (marked i job))
      × (text_eq (answer_to i job).code response_success ≡ false
          → must_ping (answer_to i job) ≡ false)
      × Served IsClean (suc i) jobs

settle_success :
    (codec : Codec) (server : Server) (r : WorkerResponse) (jobs : Jobs) (s : server.Store)
    → text_eq r.code response_success ≡ true
    → (settle codec server r jobs s).next ≡ again
unfolding settle
settle_success codec server r jobs s h = rw h refl

-- What is appended to a retry queue one by one is appended as a whole.
append_first :
    (ok : Bool) (first : Job) (rest : List Job) (before : Queues)
    → append retry_queue rest (
        if ok
        then replace common_queue [] before
        else append retry_queue (first ∷ []) (replace common_queue [] before))
      ≡ append retry_queue (if ok then rest else first ∷ rest) (replace common_queue [] before)
append_first true first rest before = refl
append_first false first rest before =
    ap (λ xs. replace retry_queue xs (replace common_queue [] before))
      (append_assoc before.retry (first ∷ []) rest)

append_nothing :
    (before : Queues)
    → before.common ≡ []
    → before ≡ append retry_queue [] (replace common_queue [] before)
append_nothing before e =
    λ i. record { common = e i; retry = sym (append-nil before.retry) i; timeout = before.timeout }

-- The first of several jobs.
first_empty :
    (ok : Bool) (first : Job) (rest : List Job) (before : Queues)
    → replace common_queue [] (
        if ok
        then replace common_queue rest before
        else append retry_queue (first ∷ []) (replace common_queue rest before))
      ≡ (if ok
          then replace common_queue [] before
          else append retry_queue (first ∷ []) (replace common_queue [] before))
first_empty true first rest before = refl
first_empty false first rest before = refl

common_left :
    (ok : Bool) (first : Job) (rest : List Job) (before : Queues)
    → (if ok
        then replace common_queue rest before
        else append retry_queue (first ∷ []) (replace common_queue rest before)).common
      ≡ rest
common_left true first rest before = refl
common_left false first rest before = refl

module _ (codec : Codec) (server : Server) (healthy : Healthy server) {IsClean : Job → Type 0}
    (trip : RoundTrip codec IsClean) (q t : Text) (conf : TopicRetry) (trace : ℕ → Text)
    (now : ℕ → ℤ) (send : ℕ → Jobs → Sent) where
  open server use {Store}

  abbrev round : ℕ → Store → Outcome Store
  round i s = consume codec server q t (some conf) false (trace i) (now i) (send i) s

  abbrev queues : Store → Queues
  queues s = view codec server healthy q t s

  abbrev answer : ℕ → Job → WorkerResponse
  answer i job = answer_to q t conf trace now send i job

  -- A round that has a job goes on.
  round-again :
      (i : ℕ) (s : Store) (job : Job) (rest : List Job)
      → (queues s).common ≡ job ∷ rest
      → (text_eq (answer i job).code response_success ≡ false → must_ping (answer i job) ≡ false)
      → (round i s).next ≡ again
  unfolding consume
  round-again i s job rest oldest stays =
      let (taken, left) =
        view-get_jobs codec server healthy (trace i) q t common_queue s job rest oldest in
      elim (Bool-cases (text_eq (answer i job).code response_success)) [
        | inl success ↦ rw (taken, handle) (settle_success codec server (answer i job) _ _ success)
        | inr failure ↦
            consume-next codec server healthy trip q t (trace i) conf (now i) (send i) s job rest
              oldest failure
            ∙ rw (stays failure) refl
      ]

  -- An empty topic: the loop sleeps, and the queues stay.
  round-idle :
      (i : ℕ) (s : Store) → (queues s).common ≡ [] → (round i s).next ≡ idle mux_loop_interval
  unfolding consume
  round-idle i s empty =
      let (nothing, left) =
        view-get_jobs_empty codec server healthy (trace i) q t common_queue s empty in
      rw (nothing, handle) refl

  worker_loop-suc :
      (n i : ℕ) (s : Store)
      → (round i s).next ≡ again
      → worker_loop codec server q t conf trace now send (suc n) i s
        ≡ worker_loop codec server q t conf trace now send n (suc i) (round i s).store
  unfolding worker_loop
  worker_loop-suc n i s h = rw h refl

  -- With n jobs in the common queue the first n rounds of the worker's loop go through all of them
  -- (unless an answer sends it back to the pings): the common queue is empty, the jobs that were
  -- not answered with 200 are in the retry queue, in their order and behind those that were there,
  -- the timeout queue is as it was, and the worker waits in its next round.
  pub worker_loop-drains :
      (jobs : List Job) (i : ℕ) (s : Store)
      → (queues s).common ≡ jobs
      → Served q t conf trace now send IsClean i jobs
      → let (next, s') = worker_loop codec server q t conf trace now send (length jobs) i s in
        (next ≡ again)
        × (queues s'
            ≡ append retry_queue
                (failures q t conf trace now send i jobs)
                (replace common_queue [] (queues s)))
        × ((k : ℕ) → (round k s').next ≡ idle mux_loop_interval)
  unfolding failures worker_loop
  worker_loop-drains [] i s e h = (refl, append_nothing (queues s) e, λ k. round-idle k s e)
  worker_loop-drains (job ∷ jobs) i s e (clean, stays, h) =
      let s' = (round i s).store in
      let first = stamp true (marked q t conf trace now send i job) in
      let ok = text_eq (answer i job).code response_success in
      let moved : queues s' ≡ (
          if ok
          then replace common_queue jobs (queues s)
          else append retry_queue (first ∷ []) (replace common_queue jobs (queues s))) =
        consume-moves codec server healthy trip q t (trace i) conf (now i) (send i) s job jobs e
          clean in
      let (more, drained, waits) =
        worker_loop-drains jobs (suc i) s'
          (ap (λ v. v.common) moved ∙ common_left ok first jobs (queues s)) h in
      let step = worker_loop-suc (length jobs) i s (round-again i s job jobs e stays) in
      let remaining = failures q t conf trace now send (suc i) jobs in
      rw step (
        more,
        drained
            ∙ (ap (append retry_queue remaining)
                  (ap (replace common_queue []) moved ∙ first_empty ok first jobs (queues s))
                ∙ append_first ok first remaining (queues s)),
        waits,
      )
