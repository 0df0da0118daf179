-- ===== src/Mux/Types.antt =====
-- mux.go, define/define.go: what a round of a loop ends with, and the retry settings of a topic.
use pepperbus.Base.{ℕ, Bool, Option}
use pepperbus.Base.Int.{ℤ}

-- `MuxLoopInterval`, in milliseconds.
abbrev pub mux_loop_interval : ℕ
mux_loop_interval = 1000

-- `define.RetryDur`, in seconds.
abbrev pub retry_dur : ℕ
retry_dur = 30

-- The fields of `TopicConfig` that the loops read.
pub record TopicRetry : Type 0 where
  pub is_retry : Bool
  pub retry_time : ℤ

-- How a round ends: the loop returns, sleeps and goes on, goes on, goes back to the pings, or the
-- goroutine panics.
pub data Next : Type 0 where
  stop : Next
  idle : ℕ → Next
  again : Next
  ping_again : Next
  panicked : Next

-- The outcome of a round: `reported` tells whether the error was recorded, `sent` the success that
-- was counted, if a batch was sent.
pub record Outcome (Store : Type 0) : Type 0 where
  pub next : Next
  pub store : Store
  pub reported : Bool
  pub sent : Option Bool
