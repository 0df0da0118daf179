-- ===== src/Mux/Schedule/Rounds.antt =====
-- mux.go: what the retry loop does with a job that keeps failing.
use pepperbus.Base.{
  ℕ, ◌+◌, ◌*◌, ◌^◌, ◌≤◌, ◌<◌, ◌≡◌, sym, false, ◌&&◌, ltb, List, [], ◌∷◌, length, if◌then◌else◌,
}
use pepperbus.Base.Int.{ℤ, pos, leb_ℤ}
use pepperbus.Base.Text.{Text}
use pepperbus.Job.{Job, Codec, RoundTrip}
use pepperbus.Mux.{retry_round}
use pepperbus.Mux.Retry.{retry_round-moves}
use pepperbus.Mux.Schedule.{returned, waiting, waited, cycle, cycles, cycles-granted, cycles-is_due}
use pepperbus.Mux.Types.{TopicRetry}
use pepperbus.Redis.Wire.{Server}
use pepperbus.Redis.Healthy.{Healthy}
use pepperbus.Storage.Key.{common_queue, retry_queue, timeout_queue}
use pepperbus.Storage.Topic.{append, replace, view}

module _ (codec : Codec) (server : Server) (healthy : Healthy server) {IsClean : Job → Type 0}
    (trip : RoundTrip codec IsClean) where
  open server use {Store}

  -- A fresh job has failed k + 1 times, the last time at n seconds, and k times it was put back, at
  -- any times and after any number of checks that came too early; now it is the oldest job of the
  -- retry queue. If the topic retries and the k waits
  -- before, 30 · (0 + 1 + … + (k - 1)) seconds together, are less than the topic's retry time, the
  -- retry loop puts the job back to the common queue, as a job with one cycle more, once 30 · k
  -- seconds are over since n, and to the end of the retry queue before that. Otherwise the job goes
  -- to the timeout queue. (For k up to a million, times after 0 and below 2 ^ 40, a retry time below
  -- 2 ^ 62, a healthy Redis and jobs that can be encoded.)
  pub retry_round-budget :
      (conf : TopicRetry) (budget : ℕ) (q t trace : Text) (ts : List (ℤ × List ℤ × ℤ)) (n : ℕ)
      (early : List ℤ) (later : ℤ) (s : Store) (job : Job) (rest : List Job)
      → conf.retry_time ≡ pos budget
      → budget < 2 ^ 62
      → length ts ≤ 2 ^ 20
      → job.retry_times ≡ pos 0
      → job.begin_retry ≡ false
      → 0 < n
      → n < 2 ^ 40
      → (view codec server healthy q t s).retry
        ≡ returned conf (pos n) early (cycles conf ts job) ∷ rest
      → IsClean (cycles conf ((pos n, early, later) ∷ ts) job)
      → IsClean (returned conf (pos n) (later ∷ early) (cycles conf ts job))
      → IsClean (waiting conf (pos n) early (cycles conf ts job))
      → view codec server healthy q t (retry_round codec server q t false trace later s).1 ≡ (
          let k = length ts in
          let failed = cycles conf ts job in
          let taken = replace retry_queue rest (view codec server healthy q t s) in
          if conf.is_retry && ltb (waited k) budget
          then (if leb_ℤ (pos (n + 30 * k)) later
              then append common_queue (cycles conf ((pos n, early, later) ∷ ts) job ∷ []) taken
              else append retry_queue (returned conf (pos n) (later ∷ early) failed ∷ []) taken)
          else append timeout_queue (waiting conf (pos n) early failed ∷ []) taken)
  unfolding cycles cycle returned
  retry_round-budget conf budget q t trace ts n early later s job rest configured small few fresh
        not_begun known soon oldest next_clean later_clean over_clean =
      rw
        (
          sym (
              cycles-granted conf budget configured small ts (pos n) early job few fresh not_begun),
          sym (
              cycles-is_due conf budget configured small ts n early later job few fresh not_begun
                known soon),
        )
        (retry_round-moves codec server healthy trip q t trace later s
          (returned conf (pos n) early (cycles conf ts job)) rest oldest next_clean later_clean
          over_clean)
