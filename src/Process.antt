-- ===== src/Process.antt =====
-- proc.go, `StopProcess`: the signals for a process that has to stop. The i-th answer of the kernel
-- is an argument.
pub mod Stop
pub mod Worker
use pepperbus.Base.{
  ℕ, zero, suc, Bool, true, false, List, [], ◌∷◌, Option, none, some, if◌then◌else◌,
}
use pepperbus.Base.Int.{ℤ, pos, ltb_ℤ}

-- `ESRCH`, that there is no such process, or another error number.
pub data Errno : Type 0 where
  no_process : Errno
  other : ℕ → Errno

-- SIGINT, the signal 0, which only asks for the process, and SIGKILL.
pub data Signal : Type 0 where
  interrupt probe force : Signal

abbrev pub is_gone : Option Errno → Bool
is_gone none = false
is_gone (some no_process) = true
is_gone (some (other n)) = false

-- The error that is returned, and the signals that were sent.
pub record Stopped : Type 0 where
  pub error : Option Errno
  pub sent : List Signal

abbrev after : Signal → Stopped → Stopped
after signal r = record { error = r.error; sent = signal ∷ r.sent }

-- The answer to a signal is not looked at but for ESRCH.
abbrev unless_gone : Signal → Option Errno → Stopped → Stopped
unless_gone signal answer next =
    if is_gone answer then record { error = none; sent = signal ∷ [] } else after signal next

module _ (kill : ℕ → Option Errno) where
  -- The last question: its answer is the result.
  abbrev ask_again : ℕ → Stopped
  ask_again i = unless_gone probe (kill i) (record { error = kill i; sent = [] })

  abbrev force_stop : ℕ → Stopped
  force_stop i = unless_gone force (kill i) (ask_again (suc i))

  -- The seconds of the loop that are left, a probe at the end of each.
  unfoldable pub wait_for : ℕ → ℕ → Stopped
  wait_for zero i = force_stop i
  wait_for (suc left) i = unless_gone probe (kill i) (wait_for left (suc i))

  -- `StopProcess`.
  unfoldable pub stop_process : ℤ → Stopped
  unfolding wait_for
  stop_process pid =
      if ltb_ℤ pid (pos 0)
      then record { error = none; sent = [] }
      else unless_gone interrupt (kill 0) (wait_for 10 1)
