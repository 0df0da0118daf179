-- ===== src/Storage.antt =====
-- storage.go: the queues of a topic, three Redis lists (common, retry, timeout). A batch enters at
-- the left end and a worker takes from the right end.
pub mod Key
pub mod KeyLaws
pub mod Fifo
pub mod Recover
pub mod Apart
pub mod Maintain
pub mod Topic
use pepperbus.Base.{
  ℕ, zero, suc, ◌+◌, List, [], ◌∷◌, Bool, true, false, ◌&&◌, ◌||◌, Option, none, some,
  if◌then◌else◌,
}
use pepperbus.Base.Int.{ℤ, pos, negsuc, ◌+ℤ◌, int64, ltb_ℤ, leb_ℤ}
use pepperbus.Base.Text.{Text, codes}
use pepperbus.Job.{Job, Jobs, Codec}
use pepperbus.Redis
use pepperbus.Redis.Wire.{Server, Result, Error, key_not_exist, ok, err}
use Key.{QueueTyp, common_queue, retry_queue, timeout_queue, is_retry_queue, get_key}

-- The errors of storage.go: those of a call, and "empty jobs".
pub data StorageError : Type 0 where
  empty_jobs : StorageError
  redis : Error → StorageError

-- `job.Retry += 1` in a retrying batch.
abbrev pub stamp : Bool → Job → Job
stamp retrying job = if retrying then record job { retry = int64 (job.retry +ℤ pos 1) } else job

-- What cannot be encoded is left out of the values.
abbrev pub with_value : Option Text → List Text → List Text
with_value none vs = vs
with_value (some v) vs = v ∷ vs

-- The loop over `jobs.Slice`: the jobs as it leaves them, and the values to push.
unfoldable pub prepare : Codec → Bool → List Job → List Job × List Text
prepare codec retrying [] = ([], [])
prepare codec retrying (job ∷ rest) =
    let (jobs, vs) = prepare codec retrying rest in
    let job' = stamp retrying job in (job' ∷ jobs, with_value (codec.encode job') vs)

-- The two results of a call that returns a number and an error.
abbrev pub value_of : Result ℤ → ℤ
value_of (ok n) = n
value_of (err e) = negsuc 0

abbrev pub error_of : Result ℤ → Option Error
error_of (ok n) = none
error_of (err e) = some e

-- The batch that a worker receives.
abbrev pub single : Text → Text → Text → Job → Jobs
single trace q t job = record {
  in_trace_id = [];
  out_trace_id = trace;
  queue_name = q;
  topic_name = t;
  retrying = false;
  slice = job ∷ [];
}

-- What `GetJobsFromQueue` makes of the answer of RPOP: an empty list is the nil batch, `none`.
abbrev pub received : Codec → Text → Text → Text → Result Text → Result (Option Jobs)
received codec trace q t (ok content) = ok (some (single trace q t (codec.decode content)))
received codec trace q t (err Error.key_not_exist) = ok none
received codec trace q t (err Error.response_type) = err Error.response_type
received codec trace q t (err (Error.call_failed m)) = err (Error.call_failed m)

module _ (codec : Codec) (server : Server) where
  open server use {Store}

  pub push_values : Text → List Text → Jobs → Store → Option StorageError × Jobs × Store
  push_values key [] jobs s = (some empty_jobs, jobs, s)
  push_values key (v ∷ vs) jobs s =
      let (answer, s') = Redis.lpush server key (v ∷ vs) s in (none, jobs, s')

  -- The error of LPUSH is logged and dropped: only "empty jobs" comes back.
  unfoldable pub add_queue : Jobs → QueueTyp → Store → Option StorageError × Jobs × Store
  unfolding prepare push_values
  add_queue jobs typ s =
      let key = get_key jobs.queue_name jobs.topic_name typ in
      let retrying = is_retry_queue typ || jobs.retrying in
      let (slice, vs) = prepare codec retrying jobs.slice in
      push_values key vs (record jobs { retrying = retrying; slice = slice }) s

  unfoldable pub get_jobs_from_queue :
      Text → Text → Text → QueueTyp → Store → Result (Option Jobs) × Store
  get_jobs_from_queue trace q t typ s =
      let (content, s') = Redis.rpop server (get_key q t typ) s in
      (received codec trace q t content, s')

module _ (server : Server) where
  open server use {Store}

  -- The loop of `RetryQueue`, `n` the jobs moved so far; `none` means that the fuel ran out.
  unfoldable pub retry_loop : ℕ → Text → Text → ℤ → ℕ → Store → Option (ℕ × Option Error × Store)
  retry_loop zero src dest count n s = none
  retry_loop (suc fuel) src dest count n s =
      let (answer, s') = Redis.rpoplpush server src dest s in
      elim answer [
        | err Error.key_not_exist ↦ some (n, none, s')
        | err e ↦ some (n, some e, s')
        | ok v ↦
            let again = retry_loop fuel src dest count (n + 1) s' in
            if ltb_ℤ (pos 0) count && leb_ℤ count (pos (n + 1))
            then some (n + 1, none, s')
            else again
      ]

  unfoldable pub retry_queue_jobs : ℕ → Text → Text → ℤ → Store → Option (ℕ × Option Error × Store)
  unfolding retry_loop
  retry_queue_jobs fuel qn tn count s =
      retry_loop fuel (get_key qn tn retry_queue) (get_key qn tn common_queue) count 0 s

  -- The length comes with whatever error DEL had; a failed LLEN leaves the list alone.
  unfoldable pub clean_queue : Text → Text → QueueTyp → Store → ℤ × Option Error × Store
  clean_queue qn tn typ s =
      let (len, s') = Redis.llen server (get_key qn tn typ) s in
      elim len [
        | err e ↦ (negsuc 0, some e, s')
        | ok n ↦
            let (gone, s'') = Redis.del server (get_key qn tn typ) s' in (n, error_of gone, s'')
      ]

  -- The three lengths. An error of the common or the retry list is returned, one of the timeout
  -- list is dropped; a length that was not read is -1.
  unfoldable pub get_length : Text → Text → Store → (ℤ × ℤ × ℤ × Option Error) × Store
  get_length qn tn s =
      let (normal, s') = Redis.llen server (get_key qn tn common_queue) s in
      elim normal [
        | err e ↦ ((negsuc 0, pos 0, pos 0, some e), s')
        | ok n ↦
            let (retry, s'') = Redis.llen server (get_key qn tn retry_queue) s' in
            let (timeout, s''') = Redis.llen server (get_key qn tn timeout_queue) s'' in
            ((n, value_of retry, value_of timeout, error_of retry), s''')
      ]
