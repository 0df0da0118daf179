-- ===== src/MuxServer/Dispatch.antt =====
-- mux_server.go: `AddJobs` gives a batch to every topic of its queue; `GetJobs` and `GetMuxer` find
-- the muxer of a topic.
pub mod FanOut
use pepperbus.Base.{ℕ, List, [], ◌∷◌, map, Bool, true, false, Option, none, some, if◌then◌else◌}
use pepperbus.Base.Int.{ℤ, pos}
use pepperbus.Base.Text.{Text}
use pepperbus.Base.Map.{Map, lookup}
use pepperbus.Config.{TopicConfig, QueueConfig}
use pepperbus.Job.{Job, Jobs, Codec}
use pepperbus.MuxServer.{MuxServer, Muxer}
use pepperbus.Redis.Wire.{Server, Result, Error, ok, err}
use pepperbus.Storage.{StorageError, add_queue, get_jobs_from_queue}
use pepperbus.Storage.Key.{QueueTyp, common_queue}

-- "queue not exist", "topic not exist" and the errors of the storage.
pub data ServerError : Type 0 where
  no_queue : Text → ServerError
  no_topic : Text → ServerError
  storage : StorageError → ServerError
  redis : Error → ServerError

-- The retry fields of a new job, from the topic's configuration.
unfoldable pub fresh_retry : TopicConfig → Job → Job
fresh_retry conf job =
    if conf.is_retry
    then record job {
      retry_residue_time = conf.retry_time;
      retry_times = pos 0;
      is_retry = true;
      begin_retry = false;
    }
    else record job {
      retry_residue_time = pos 0;
      retry_times = pos 0;
      is_retry = false;
      begin_retry = false;
    }

-- The loop over `jobs.Slice`: a topic without a configuration is a nil pointer, which panics
-- (`none`) at the first job.
abbrev pub init_jobs : Option TopicConfig → List Job → Option (List Job)
init_jobs none [] = some []
init_jobs none (job ∷ jobs) = none
init_jobs (some conf) jobs = some (map (fresh_retry conf) jobs)

abbrev later_error : Option StorageError → Option StorageError → Option StorageError
later_error none e = e
later_error (some f) e = some f

abbrev topic_conf : Option QueueConfig → Text → Option TopicConfig
topic_conf none t = none
topic_conf (some q) t = lookup t q.topic

module _ (codec : Codec) (server : Server) where
  open server use {Store}

  -- The loop over the muxers of the queue: the last error, the batch and the store; `none` is a
  -- panic.
  unfoldable pub add_to :
      Option QueueConfig
      → Map Muxer
      → Option StorageError
      → Jobs
      → Store
      → Option (Option StorageError × Jobs × Store)
  add_to q [] e jobs s = some (e, jobs, s)
  add_to q ((t, mux) ∷ rest) e jobs s = elim (init_jobs (topic_conf q t) jobs.slice) [
    | none ↦ none
    | some slice ↦
        let (f, jobs', s') =
          add_queue codec server (record jobs { topic_name = t; slice = slice }) common_queue s in
        add_to q rest (later_error f e) jobs' s'
  ]

  abbrev checked : Option StorageError → Option ServerError
  checked none = none
  checked (some e) = some (storage e)

  unfoldable pub add_to_queue :
      Option QueueConfig
      → Option (Map Muxer)
      → Jobs
      → Store
      → Option (Option ServerError × Jobs × Store)
  unfolding add_to
  add_to_queue q none jobs s = some (some (no_queue jobs.queue_name), jobs, s)
  add_to_queue q (some []) jobs s = some (some (no_queue jobs.queue_name), jobs, s)
  add_to_queue q (some (m ∷ ms)) jobs s = elim (add_to q (m ∷ ms) none jobs s) [
    | none ↦ none
    | some (e, jobs', s') ↦ some (checked e, jobs', s')
  ]

  -- `AddJobs`.
  unfoldable pub add_jobs : MuxServer → Jobs → Store → Option (Option ServerError × Jobs × Store)
  unfolding add_to_queue
  add_jobs ms jobs s =
      add_to_queue (lookup jobs.queue_name ms.queue_config) (lookup jobs.queue_name ms.mux) jobs s

-- `GetMuxer`.
unfoldable pub find_muxer : Text → Text → Option (Map Muxer) → Option ServerError × Option Muxer
find_muxer q t none = (some (no_queue q), none)
find_muxer q t (some []) = (some (no_queue q), none)
find_muxer q t (some (m ∷ ms)) = elim (lookup t (m ∷ ms)) [
  | none ↦ (some (no_topic t), none)
  | some mux ↦ (none, some mux)
]

unfoldable pub get_muxer : MuxServer → Text → Text → Option ServerError × Option Muxer
unfolding find_muxer
get_muxer ms q t = find_muxer q t (lookup q ms.mux)

module _ (codec : Codec) (server : Server) where
  open server use {Store}

  abbrev from_storage : Result (Option Jobs) → Option ServerError × Option Jobs
  from_storage (ok jobs) = (none, jobs)
  from_storage (err e) = (some (redis e), none)

  abbrev from_muxer :
      Text
      → Text
      → QueueTyp
      → Text
      → Store
      → Option ServerError × Option Muxer
      → (Option ServerError × Option Jobs) × Store
  from_muxer q t typ trace s (some e, mux) = ((some e, none), s)
  from_muxer q t typ trace s (none, mux) =
      let (answer, s') = get_jobs_from_queue codec server trace q t typ s in
      (from_storage answer, s')

  -- `GetJobs`: the same search as `GetMuxer`, and the muxer's `GetJobsFromQueue`.
  unfoldable pub get_jobs :
      MuxServer → Text → Text → QueueTyp → Text → Store → (Option ServerError × Option Jobs) × Store
  unfolding get_muxer
  get_jobs ms q t typ trace s = from_muxer q t typ trace s (get_muxer ms q t)
