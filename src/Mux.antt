-- ===== src/Mux.antt =====
-- mux.go: the rounds of the loops that `Serve` runs for one topic. Every round is a function of the
-- store; the time, the ids and the worker's answer are arguments.
pub mod Types
pub mod Consume
pub mod Retry
pub mod Schedule
pub mod Ping
pub mod Drain
use pepperbus.Base.{
  ℕ, zero, suc, ◌+◌, ◌*◌, List, [], ◌∷◌, ◌++◌, map, Bool, true, false, ◌&&◌, Option, none, some,
  if◌then◌else◌, leb,
}
use pepperbus.Base.Int.{ℤ, pos, ◌+ℤ◌, ◌-ℤ◌, ◌*ℤ◌, int64, ltb_ℤ, leb_ℤ}
use pepperbus.Base.Text.{Text, codes, text_eq, contains}
use pepperbus.Job.{Job, Jobs, Codec}
use pepperbus.Redis.Wire.{Server, Result, ok, err}
use pepperbus.Response.{
  WorkerResponse, Sent, answered, failed, response_success, response_not_found, bad_gateway,
}
use pepperbus.Storage.{StorageError, add_queue, get_jobs_from_queue}
use pepperbus.Storage.Key.{common_queue, retry_queue, timeout_queue}
use Types.{
  Next, stop, idle, again, ping_again, panicked, Outcome, TopicRetry, mux_loop_interval, retry_dur,
}

-- `Mux.SendJobs`: an error of the sender becomes a 502.
unfoldable pub send_jobs : Sent → WorkerResponse
send_jobs (answered r) = r
send_jobs (failed message) = record {
  code = bad_gateway;
  error_code = [];
  consume_topics = [];
  msg = message;
}

-- The loop over `jobs.Slice` before a batch is sent.
unfoldable pub mark_attempt : TopicRetry → ℤ → Job → Job
mark_attempt conf now job = record job {
  retry_time = now;
  retry_times = int64 (job.retry_times +ℤ pos 1);
  is_retry = conf.is_retry;
  retry_residue_time = if job.begin_retry then job.retry_residue_time else conf.retry_time;
}

abbrev conn_refused : WorkerResponse → Bool
conn_refused r = contains r.msg (codes "connection refused")

module _ (codec : Codec) (server : Server) where
  open server use {Store}

  -- The switch on `resp.Code`, with the error record behind it: a `goto` jumps over that.
  unfoldable pub settle : WorkerResponse → Jobs → Store → Outcome Store
  settle r jobs s =
      if text_eq r.code response_success
      then record { next = again; store = s; reported = false; sent = some true }
      else (let (e, jobs', s') = add_queue codec server jobs retry_queue s in
          if text_eq r.code response_not_found
          then record { next = ping_again; store = s'; reported = false; sent = some false }
          else if text_eq r.code bad_gateway && conn_refused r
          then record { next = ping_again; store = s'; reported = false; sent = some false }
          else record { next = again; store = s'; reported = true; sent = some false })

  -- A batch that was taken, under a configuration that may lack the topic.
  unfoldable pub attempt : Option TopicRetry → ℤ → (Jobs → Sent) → Jobs → Store → Outcome Store
  unfolding settle mark_attempt send_jobs
  attempt none now send jobs s = record {
    next = panicked;
    store = s;
    reported = false;
    sent = none;
  }
  attempt (some conf) now send jobs s =
      let jobs' = record jobs { slice = map (mark_attempt conf now) jobs.slice } in
      settle (send_jobs (send jobs')) jobs' s

  -- What a worker does with the answer of `GetJobsFromQueue`.
  unfoldable pub handle :
      Option TopicRetry → ℤ → (Jobs → Sent) → Result (Option Jobs) → Store → Outcome Store
  unfolding attempt
  handle conf now send (err e) s = record {
    next = idle (mux_loop_interval * 2);
    store = s;
    reported = false;
    sent = none;
  }
  handle conf now send (ok none) s = record {
    next = idle mux_loop_interval;
    store = s;
    reported = false;
    sent = none;
  }
  handle conf now send (ok (some jobs)) s = attempt conf now send jobs s

  -- One round of a worker's loop.
  unfoldable pub consume :
      Text → Text → Option TopicRetry → Bool → Text → ℤ → (Jobs → Sent) → Store → Outcome Store
  unfolding handle
  consume q t conf done trace now send s =
      let (batch, s') = get_jobs_from_queue codec server trace q t common_queue s in
      if done
      then record { next = stop; store = s; reported = false; sent = none }
      else handle conf now send batch s'

-- `job.BeginRetry = true`, and the retry time of the first job where it was not set.
abbrev pub begin : Job → Job
begin job = record job { begin_retry = true }

abbrev is_zero : ℤ → Bool
is_zero z = leb_ℤ z (pos 0) && leb_ℤ (pos 0) z

unfoldable pub with_time : ℤ → Job → Job
with_time now job = if is_zero job.retry_time then record job { retry_time = now } else job

-- `(used - 1) * define.RetryDur`, in int64.
unfoldable pub wait_of : Job → ℤ
wait_of job = int64 (int64 (job.retry_times -ℤ pos 1) *ℤ pos retry_dur)

unfoldable pub is_due : ℤ → Job → Bool
unfolding wait_of
is_due now job = leb_ℤ (int64 (job.retry_time +ℤ wait_of job)) now

unfoldable pub spend : ℤ → Job → Job
spend dur job = record job { retry_residue_time = int64 (job.retry_residue_time -ℤ dur) }

module _ (codec : Codec) (server : Server) where
  open server use {Store}

  -- The loop that puts a due batch back: the whole batch is added once for each of its jobs.
  -- (`AddQueue` on the common queue leaves a batch that is not retrying as it was.)
  pub put_back : Jobs → ℤ → List Job → List Job → Store → Store
  unfolding spend
  put_back jobs dur before [] s = s
  put_back jobs dur before (job ∷ rest) s =
      let before' = before ++ spend dur job ∷ [] in
      let batch = record jobs { slice = before' ++ rest } in
      put_back jobs dur before' rest (add_queue codec server batch common_queue s).2

  -- The decision on a batch of the retry queue, its first job apart from the others.
  unfoldable pub recheck : ℤ → Jobs → Job → List Job → Store → Next × Store
  unfolding put_back with_time is_due wait_of
  recheck now jobs first rest s =
      let tried = with_time now first in
      let batch = record jobs { slice = tried ∷ rest } in
      if first.is_retry && ltb_ℤ (pos 0) first.retry_residue_time
      then (if is_due now tried
          then (again, put_back batch (wait_of first) [] (tried ∷ rest) s)
          else (idle 10, (add_queue codec server batch retry_queue s).2))
      else (
        idle 10,
        (add_queue codec server (record jobs { slice = first ∷ rest }) timeout_queue s).2,
      )

  unfoldable pub recheck_slice : ℤ → Jobs → List Job → Store → Next × Store
  unfolding recheck
  recheck_slice now jobs [] s = (again, s)
  recheck_slice now jobs (first ∷ rest) s = recheck now jobs (begin first) (map begin rest) s

  unfoldable pub handle_retry : ℤ → Result (Option Jobs) → Store → Next × Store
  unfolding recheck_slice
  handle_retry now (err e) s = (idle (mux_loop_interval * 2), s)
  handle_retry now (ok none) s = (idle mux_loop_interval, s)
  handle_retry now (ok (some jobs)) s = recheck_slice now jobs jobs.slice s

  -- One round of the retry loop.
  unfoldable pub retry_round : Text → Text → Bool → Text → ℤ → Store → Next × Store
  unfolding handle_retry
  retry_round q t done trace now s =
      let (batch, s') = get_jobs_from_queue codec server trace q t retry_queue s in
      if done then (stop, s) else handle_retry now batch s'
