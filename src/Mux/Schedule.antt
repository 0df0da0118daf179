-- ===== src/Mux/Schedule.antt =====
-- mux.go: how often a job that keeps failing is tried, and how its retry time runs out.
pub mod Rounds
use pepperbus.Base.{
  ℕ, zero, suc, ◌+◌, ◌*◌, ◌^◌, ◌≤◌, ◌<◌, ◌≡◌, refl, ap, ◌∙◌, Bool, true, false, ◌&&◌, arith, ltb,
  List, [], ◌∷◌, length,
}
use pepperbus.Base.Int.{ℤ, pos, sub_ℕ, int64, ◌+ℤ◌, ◌-ℤ◌, ◌*ℤ◌, ltb_ℤ, leb_ℤ}
use pepperbus.Job.{Job}
use pepperbus.Storage.{stamp}
use pepperbus.Mux.{mark_attempt, begin, with_time, wait_of, spend, is_due}
use pepperbus.Mux.Types.{TopicRetry}

-- A job in the retry queue after an attempt that failed, and after checks that came too early, with
-- the times of the checks, the latest first.
unfoldable pub returned : TopicRetry → ℤ → List ℤ → Job → Job
returned conf now [] job = stamp true (mark_attempt conf now job)
returned conf now (e ∷ early) job = stamp true (with_time e (begin (returned conf now early job)))

-- The job at its next check.
abbrev pub waiting : TopicRetry → ℤ → List ℤ → Job → Job
waiting conf now early job = begin (returned conf now early job)

-- From one attempt that fails to the next: the job is marked, put into the retry queue, and put
-- back once it is due.
unfoldable pub cycle : TopicRetry → ℤ → List ℤ → ℤ → Job → Job
cycle conf now early later job =
    let first = waiting conf now early job in spend (wait_of first) (with_time later first)

with_time_same :
    (now : ℤ) (job : Job)
    → ((with_time now job).retry_times ≡ job.retry_times)
      × ((with_time now job).is_retry ≡ job.is_retry)
      × ((with_time now job).begin_retry ≡ job.begin_retry)
      × ((with_time now job).retry_residue_time ≡ job.retry_residue_time)
unfolding with_time
with_time_same now job = ground arith

-- The checks that come too early change nothing that counts.
returned_same :
    (conf : TopicRetry) (now : ℤ) (early : List ℤ) (job : Job)
    → let first = mark_attempt conf now job in
      let left = returned conf now early job in
      (left.retry_times ≡ first.retry_times)
      × (left.is_retry ≡ first.is_retry)
      × (left.retry_residue_time ≡ first.retry_residue_time)
unfolding returned
returned_same conf now [] job = (refl, refl, refl)
returned_same conf now (e ∷ early) job =
    let (times, may, begun, residue) = with_time_same e (begin (returned conf now early job)) in
    let (times', may', residue') = returned_same conf now early job in
    (times ∙ times', may ∙ may', residue ∙ residue')

-- The waits before attempt k + 1 together: 0 + 30 + 60 + …
pub waited : ℕ → ℕ
waited zero = 0
waited (suc k) = waited k + 30 * k

waited_closed : (k : ℕ) → waited (suc k) ≡ 15 * (k * (k + 1))
unfolding waited
waited_closed zero = refl
waited_closed (suc k) = grind (arith, waited_closed k)

-- The wait after attempt k + 1, while the counter is far from the end of int64.
wait_of_attempt :
    (k : ℕ) (job : Job) → job.retry_times ≡ pos (suc k) → k < 2 ^ 48 → wait_of job ≡ pos (30 * k)
unfolding wait_of int64 ◌-ℤ◌ ◌*ℤ◌
wait_of_attempt k job e h = rw e (ground arith)

with_time_set :
    (n : ℕ) (later : ℤ) (job : Job) → job.retry_time ≡ pos n → 0 < n → with_time later job ≡ job
unfolding with_time
with_time_set n later job e known = rw e (ground arith)

add_small : (a b : ℕ) → a + b < 2 ^ 62 → int64 (pos a +ℤ pos b) ≡ pos (a + b)
unfolding int64 ◌+ℤ◌
add_small a b h = ground arith

returned_time :
    (conf : TopicRetry) (n : ℕ) (early : List ℤ) (job : Job)
    → 0 < n
    → (returned conf (pos n) early job).retry_time ≡ pos n
unfolding returned mark_attempt
returned_time conf n [] job known = refl
returned_time conf n (e ∷ early) job known =
    let before = returned_time conf n early job known in
    ap Job.retry_time (with_time_set n e (begin (returned conf (pos n) early job)) before known)
    ∙ before

count_up : (z : ℤ) (n : ℕ) → z ≡ pos n → n < 2 ^ 60 → int64 (z +ℤ pos 1) ≡ pos (suc n)
unfolding int64 ◌+ℤ◌
count_up z n e h = rw e (ground arith)

take_off :
    (z : ℤ) (budget spent d : ℕ)
    → z ≡ sub_ℕ budget spent
    → budget < 2 ^ 62
    → spent + d < 2 ^ 62
    → int64 (z -ℤ pos d) ≡ sub_ℕ budget (spent + d)
unfolding int64 ◌-ℤ◌
take_off z budget spent d e h k = rw e (ground arith)

sub_nothing : (n : ℕ) → pos n ≡ sub_ℕ n 0
sub_nothing n = ground arith

cycle_first :
    (conf : TopicRetry) (now later : ℤ) (early : List ℤ) (budget : ℕ) (job : Job)
    → conf.retry_time ≡ pos budget
    → budget < 2 ^ 62
    → job.retry_times ≡ pos 0
    → job.begin_retry ≡ false
    → let next = cycle conf now early later job in
      (next.retry_times ≡ pos 1)
      × (next.begin_retry ≡ true)
      × (next.retry_residue_time ≡ sub_ℕ budget (waited 1))
unfolding cycle mark_attempt spend waited
cycle_first conf now later early budget job b small fresh not_begun =
    let first = waiting conf now early job in
    let (times, may, residue) = returned_same conf now early job in
    let (same_times, same_may, same_begun, same_residue) = with_time_same later first in
    let up = times ∙ count_up job.retry_times 0 fresh (omega arith) in
    let wait = wait_of_attempt 0 first up (omega arith) in
    let unspent : first.retry_residue_time ≡ sub_ℕ budget 0 =
      residue ∙ rw not_begun (b ∙ sub_nothing budget) in
    (
      same_times ∙ up,
      same_begun,
      ap (λ w. int64 ((with_time later first).retry_residue_time -ℤ w)) wait
          ∙ take_off _ budget 0 0 (same_residue ∙ unspent) small (omega arith),
    )

cycle_next :
    (conf : TopicRetry) (now later : ℤ) (early : List ℤ) (budget spent k : ℕ) (job : Job)
    → budget < 2 ^ 62
    → spent < 2 ^ 60
    → k < 2 ^ 40
    → job.retry_times ≡ pos (suc k)
    → job.begin_retry ≡ true
    → job.retry_residue_time ≡ sub_ℕ budget spent
    → let next = cycle conf now early later job in
      (next.retry_times ≡ pos (suc (suc k)))
      × (next.begin_retry ≡ true)
      × (next.retry_residue_time ≡ sub_ℕ budget (spent + 30 * suc k))
unfolding cycle mark_attempt spend
cycle_next conf now later early budget spent k job small few short tried begun left =
    let first = waiting conf now early job in
    let (times, may, residue) = returned_same conf now early job in
    let up = times ∙ count_up job.retry_times (suc k) tried (omega arith) in
    let (same_times, same_may, same_begun, same_residue) = with_time_same later first in
    let wait = wait_of_attempt (suc k) first up (omega arith) in
    let unspent : first.retry_residue_time ≡ sub_ℕ budget spent = residue ∙ rw begun left in
    (
      same_times ∙ up,
      same_begun,
      ap (λ w. int64 ((with_time later first).retry_residue_time -ℤ w)) wait
          ∙ take_off _ budget spent (30 * suc k) (same_residue ∙ unspent) small (omega arith),
    )

waited-le : (k : ℕ) → k ≤ 2 ^ 20 → waited k ≤ 31457280 * k
unfolding waited
waited-le zero h = omega arith
waited-le (suc k) h = omega (arith, waited-le k (omega arith))

-- The attempts that failed and the checks that a job has behind it, with the times of each, the
-- latest first.
unfoldable pub cycles : TopicRetry → List (ℤ × List ℤ × ℤ) → Job → Job
cycles conf [] job = job
cycles conf ((now, early, later) ∷ ts) job = cycle conf now early later (cycles conf ts job)

abbrev Spent : ℕ → ℕ → Job → Type 0
Spent budget zero job = (job.retry_times ≡ pos 0) × (job.begin_retry ≡ false)
Spent budget (suc k) job =
    (job.retry_times ≡ pos (suc k))
    × (job.begin_retry ≡ true)
    × (job.retry_residue_time ≡ sub_ℕ budget (waited (suc k)))

-- Whether the retry loop may put a job back.
abbrev pub granted : Job → Bool
granted job = job.is_retry && ltb_ℤ (pos 0) job.retry_residue_time

module _ (conf : TopicRetry) (budget : ℕ) (configured : conf.retry_time ≡ pos budget)
    (small : budget < 2 ^ 62) where
  cycle-Spent :
      (k : ℕ) (now later : ℤ) (early : List ℤ) (job : Job)
      → k < 2 ^ 20
      → Spent budget k job
      → Spent budget (suc k) (cycle conf now early later job)
  unfolding waited
  cycle-Spent zero now later early job h (fresh, not_begun) =
      cycle_first conf now later early budget job configured small fresh not_begun
  cycle-Spent (suc k) now later early job h (tried, begun, left) =
      cycle_next conf now later early budget (waited (suc k)) k job small
        (omega (arith, waited-le (suc k))) (omega arith) tried begun left

  cycles-Spent :
      (ts : List (ℤ × List ℤ × ℤ)) (job : Job)
      → length ts ≤ 2 ^ 20
      → Spent budget 0 job
      → Spent budget (length ts) (cycles conf ts job)
  unfolding cycles
  cycles-Spent [] job h fresh = fresh
  cycles-Spent ((now, early, later) ∷ ts) job h fresh =
      cycle-Spent (length ts) now later early _ (omega arith)
        (cycles-Spent ts job (omega arith) fresh)

  granted_after :
      (k : ℕ) (now : ℤ) (early : List ℤ) (job : Job)
      → Spent budget k job
      → granted (waiting conf now early job) ≡ (conf.is_retry && ltb (waited k) budget)
  unfolding mark_attempt waited
  granted_after zero now early job (fresh, not_begun) =
      ground (arith, returned_same conf now early job)
  granted_after (suc k) now early job (tried, begun, left) =
      ground (arith, returned_same conf now early job)

  -- Whether the retry time of a job that failed once more is used up.
  pub cycles-granted :
      (ts : List (ℤ × List ℤ × ℤ)) (now : ℤ) (early : List ℤ) (job : Job)
      → length ts ≤ 2 ^ 20
      → job.retry_times ≡ pos 0
      → job.begin_retry ≡ false
      → granted (waiting conf now early (cycles conf ts job))
        ≡ (conf.is_retry && ltb (waited (length ts)) budget)
  cycles-granted ts now early job few fresh not_begun =
      granted_after (length ts) now early _ (cycles-Spent ts job few (fresh, not_begun))

  waiting-wait_of :
      (k : ℕ) (now : ℤ) (early : List ℤ) (job : Job)
      → k ≤ 2 ^ 20
      → Spent budget k job
      → wait_of (waiting conf now early job) ≡ pos (30 * k)
  unfolding mark_attempt
  waiting-wait_of zero now early job h (fresh, not_begun) =
      let (times, may, residue) = returned_same conf now early job in
      wait_of_attempt zero (waiting conf now early job)
        (times ∙ count_up job.retry_times zero fresh (omega arith)) (omega arith)
  waiting-wait_of (suc k) now early job h (tried, begun, left) =
      let (times, may, residue) = returned_same conf now early job in
      wait_of_attempt (suc k) (waiting conf now early job)
        (times ∙ count_up job.retry_times (suc k) tried (omega arith)) (omega arith)

  -- A job that failed once more at a time is due the wait of its attempt later.
  pub cycles-is_due :
      (ts : List (ℤ × List ℤ × ℤ)) (n : ℕ) (early : List ℤ) (later : ℤ) (job : Job)
      → length ts ≤ 2 ^ 20
      → job.retry_times ≡ pos 0
      → job.begin_retry ≡ false
      → 0 < n
      → n < 2 ^ 40
      → is_due later (with_time later (waiting conf (pos n) early (cycles conf ts job)))
        ≡ leb_ℤ (pos (n + 30 * length ts)) later
  unfolding is_due with_time mark_attempt
  cycles-is_due ts n early later job few fresh not_begun known soon =
      let first = waiting conf (pos n) early (cycles conf ts job) in
      let at = returned_time conf n early (cycles conf ts job) known in
      let wait =
        waiting-wait_of (length ts) (pos n) early (cycles conf ts job) few
          (cycles-Spent ts job few (fresh, not_begun)) in
      let set = with_time_set n later first at known in
      rw (set, wait, at) (ap (λ z. leb_ℤ z later) (add_small n (30 * length ts) (omega arith)))
