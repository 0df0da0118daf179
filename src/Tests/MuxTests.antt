-- ===== src/Tests/MuxTests.antt =====
-- The theorems of the worker loops at concrete inputs.
use pepperbus.Base.{
  ℕ, zero, suc, ◌≡◌, refl, List, [], ◌∷◌, true, false, ◌&&◌, some, arith, if◌then◌else◌, ltb,
}
use pepperbus.Base.Int.{ℤ, pos, leb_ℤ, int64, ◌+ℤ◌, ◌-ℤ◌, ◌*ℤ◌}
use pepperbus.Base.Text.{Text, codes, text_eq}
use pepperbus.Job.{Jobs}
use pepperbus.Mux.{
  consume, mark_attempt, retry_round, begin, with_time, wait_of, is_due, spend, send_jobs,
}
use pepperbus.Mux.Consume.{consume-moves}
use pepperbus.Mux.Drain.{worker_loop, failures, worker_loop-drains}
use pepperbus.Mux.Retry.{retry_round-moves}
use pepperbus.Mux.Schedule.{returned, waiting, cycle, cycles, waited}
use pepperbus.Mux.Schedule.Rounds.{retry_round-budget}
use pepperbus.Mux.Types.{TopicRetry, again, idle, mux_loop_interval}
use pepperbus.Redis.Memory.{Lists, put, memory, memory_healthy}
use pepperbus.Response.{WorkerResponse, Sent, answered, response_success}
use pepperbus.Storage.{stamp, single}
use pepperbus.Storage.Fifo.{contents}
use pepperbus.Storage.Key.{common_queue, retry_queue, timeout_queue, get_key}
use pepperbus.Storage.Topic.{append, replace, view}
use pepperbus.Tests.Sample.{plain, plain_trip, write, job1, queue, topic, nothing}

abbrev conf : TopicRetry
conf = record { is_retry = true; retry_time = pos 100 }

abbrev one_job : Lists
one_job = put (get_key queue topic common_queue) (write job1 ∷ []) nothing

abbrev one_retry : Lists
one_retry = put (get_key queue topic retry_queue) (write job1 ∷ []) nothing

abbrev not_found : Jobs → Sent
not_found jobs = answered (record {
  code = codes "404";
  error_code = [];
  consume_topics = [];
  msg = codes "no such topic";
})

abbrev response : WorkerResponse
response = send_jobs (not_found (single (codes "x") queue topic (mark_attempt conf (pos 7) job1)))

consume-moves_example :
    view plain memory memory_healthy queue topic
      (consume plain memory queue topic
        (some conf)
        false
        (codes "x")
        (pos 7)
        not_found
        one_job).store
    ≡ (let before = view plain memory memory_healthy queue topic one_job in
        if text_eq response.code response_success
        then replace common_queue [] before
        else append retry_queue
            (stamp true (mark_attempt conf (pos 7) job1) ∷ [])
            (replace common_queue [] before))
unfolding view contents get_key text_eq
consume-moves_example =
    consume-moves plain memory memory_healthy plain_trip queue topic (codes "x") conf (pos 7)
      not_found one_job job1 [] refl tt

retry_round-moves_example :
    view plain memory memory_healthy queue topic
      (retry_round plain memory queue topic false (codes "x") (pos 7) one_retry).1
    ≡ (let taken =
          replace retry_queue [] (view plain memory memory_healthy queue topic one_retry) in
        let tried = with_time (pos 7) (begin job1) in
        if false
        then (if is_due (pos 7) tried
            then append common_queue (spend (wait_of (begin job1)) tried ∷ []) taken
            else append retry_queue (stamp true tried ∷ []) taken)
        else append timeout_queue (begin job1 ∷ []) taken)
unfolding view contents get_key text_eq
retry_round-moves_example =
    retry_round-moves plain memory memory_healthy plain_trip queue topic (codes "x") (pos 7)
      one_retry job1 [] refl tt tt tt

-- Two attempts failed and were put back, the second after a check that came too early.
abbrev past : List (ℤ × List ℤ × ℤ)
past = (pos 10, pos 20 ∷ [], pos 45) ∷ (pos 7, [], pos 8) ∷ []

abbrev third_failure : Lists
third_failure =
    put (get_key queue topic retry_queue)
      (write (returned conf (pos 90) [] (cycles conf past job1)) ∷ []) nothing

retry_round-budget_example :
    view plain memory memory_healthy queue topic
      (retry_round plain memory queue topic false (codes "x") (pos 100) third_failure).1
    ≡ (let taken =
          replace retry_queue [] (view plain memory memory_healthy queue topic third_failure) in
        if true && ltb (waited 2) 100
        then (if leb_ℤ (pos 150) (pos 100)
            then append common_queue (cycles conf ((pos 90, [], pos 100) ∷ past) job1 ∷ []) taken
            else append retry_queue
                (returned conf (pos 90) (pos 100 ∷ []) (cycles conf past job1) ∷ [])
                taken)
        else append timeout_queue (waiting conf (pos 90) [] (cycles conf past job1) ∷ []) taken)
unfolding view contents get_key text_eq returned mark_attempt cycles cycle spend with_time wait_of
    int64 ◌+ℤ◌ ◌-ℤ◌ ◌*ℤ◌
retry_round-budget_example =
    retry_round-budget plain memory memory_healthy plain_trip conf 100 queue topic (codes "x") past
      90 [] (pos 100) third_failure job1 [] refl (omega arith) (omega arith) refl refl (omega arith)
      (omega arith) refl tt tt tt

-- Two jobs; the worker of round 0 fails, that of later rounds succeeds.
abbrev two_jobs : Lists
two_jobs = put (get_key queue topic common_queue) (write job1 ∷ write job1 ∷ []) nothing

abbrev answer_code : ℕ → Text
answer_code zero = codes "500"
answer_code (suc i) = codes "200"

abbrev fails_first : ℕ → Jobs → Sent
fails_first i jobs =
    answered (record { code = answer_code i; error_code = []; consume_topics = []; msg = [] })

abbrev last_state : Lists
last_state =
    (worker_loop plain memory queue topic conf (λ i. codes "x") pos fails_first 2 0 two_jobs).1

worker_loop-drains_example :
    ((worker_loop plain memory queue topic conf (λ i. codes "x") pos fails_first 2 0 two_jobs).0
      ≡ again)
    × (view plain memory memory_healthy queue topic last_state
        ≡ append retry_queue
            (failures queue topic conf (λ i. codes "x") pos fails_first 0 (job1 ∷ job1 ∷ []))
            (replace common_queue [] (view plain memory memory_healthy queue topic two_jobs)))
    × ((k : ℕ)
        → (consume plain memory queue topic
            (some conf)
            false
            (codes "x")
            (pos k)
            (fails_first k)
            last_state).next
          ≡ idle mux_loop_interval)
unfolding view contents get_key text_eq send_jobs
worker_loop-drains_example =
    worker_loop-drains plain memory memory_healthy plain_trip queue topic conf (λ i. codes "x") pos
      fails_first (job1 ∷ job1 ∷ []) 0 two_jobs refl (tt, (λ e. refl), (tt, (λ e. refl), tt))
