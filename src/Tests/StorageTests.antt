-- ===== src/Tests/StorageTests.antt =====
-- The theorems of the storage at concrete inputs.
use pepperbus.Base.{◌≡◌, refl, [], ◌∷◌, ◌++◌, map, true, none, some, arith, length, take, drop}
use pepperbus.Base.Int.{pos}
use pepperbus.Base.Text.{codes, text_eq}
use pepperbus.Job.{Jobs}
use pepperbus.Redis.Wire.{Server, ok, err, call_failed}
use pepperbus.Redis.Laws.{values}
use pepperbus.Redis.Memory.{Lists, put, memory, memory_healthy}
use pepperbus.Storage.{add_queue, get_jobs_from_queue, retry_queue_jobs, single, stamp}
use pepperbus.Storage.Fifo.{contents}
use pepperbus.Storage.Key.{common_queue, retry_queue, get_key}
use pepperbus.Storage.KeyLaws.{get_key-injective}
use pepperbus.Storage.Recover.{quota, retry_queue_jobs-moves}
use pepperbus.Storage.Topic.{append, replace, view, view-add_queue, view-get_jobs}
use pepperbus.Tests.Sample.{plain, plain_trip, write, job1, job2, queue, topic, nothing}

-- Job 1 waits, and job 2 behind it.
abbrev two_jobs : Lists
two_jobs = put (get_key queue topic common_queue) (write job2 ∷ write job1 ∷ []) nothing

abbrev two_retries : Lists
two_retries = put (get_key queue topic retry_queue) (write job2 ∷ write job1 ∷ []) nothing

abbrev batch : Jobs
batch = single (codes "x") queue topic job2

view-add_queue_example :
    view plain memory memory_healthy queue topic
      (add_queue plain memory batch retry_queue two_jobs).2
    ≡ append retry_queue
        (map (stamp true) (job2 ∷ []))
        (view plain memory memory_healthy queue topic two_jobs)
view-add_queue_example =
    view-add_queue plain memory memory_healthy plain_trip batch retry_queue two_jobs (tt, tt)

view-get_jobs_example :
    let (answer, s') =
      get_jobs_from_queue plain memory (codes "x") queue topic common_queue two_jobs in
    (answer ≡ ok (some (single (codes "x") queue topic job1)))
    × (view plain memory memory_healthy queue topic s'
        ≡ replace common_queue (job2 ∷ []) (view plain memory memory_healthy queue topic two_jobs))
unfolding view contents get_key text_eq
view-get_jobs_example =
    view-get_jobs plain memory memory_healthy (codes "x") queue topic common_queue two_jobs job1
      (job2 ∷ []) refl

retry_queue_jobs-moves_example :
    let retry = values memory memory_healthy (get_key queue topic retry_queue) two_retries in
    let common = values memory memory_healthy (get_key queue topic common_queue) two_retries in
    let m = quota (pos 1) (length retry) in
    (s' : Lists) × (retry_queue_jobs memory 3 queue topic (pos 1) two_retries ≡ some (m, none, s'))
    × (values memory memory_healthy (get_key queue topic retry_queue) s' ≡ drop m retry)
    × (values memory memory_healthy (get_key queue topic common_queue) s' ≡ common ++ take m retry)
unfolding values get_key text_eq
retry_queue_jobs-moves_example =
    retry_queue_jobs-moves memory memory_healthy 3 queue topic (pos 1) two_retries (omega arith)

-- A server that refuses everything.
abbrev refusing : Server
refusing = record { Store = Unit {0}; call_n = λ c s. (err (call_failed (codes "refused")), s) }

get_key-injective_example : (queue ≡ queue) × (topic ≡ topic) × (retry_queue ≡ retry_queue)
get_key-injective_example =
    get_key-injective queue queue topic topic retry_queue retry_queue (omega arith) (omega arith)
      refl
