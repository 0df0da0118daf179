-- ===== src/Process/Worker.antt =====
-- shell_worker.go and proc.go: the loop that starts a worker's process again and again, and the
-- monitor of a process.
use pepperbus.Base.{List, [], ◌∷◌, ◌++◌, Bool, true, false, Option}
use pepperbus.Base.Int.{ℤ}
use pepperbus.Base.Signed.{format_int}
use pepperbus.Base.Text.{Text, codes}
use pepperbus.Setting.{ServerConfig}

-- The fields of `WorkerConfig` and `TopicConfig` that go to the process.
pub record WorkerConfig : Type 0 where
  pub script : Text
  pub entry : Text
  pub max_children : ℤ
  pub max_task : ℤ

-- `Serve`: the arguments of the process.
unfoldable pub worker_args : WorkerConfig → Text → Text → Text → ServerConfig → List Text
worker_args conf queue name password server =
    conf.script
    ∷ codes "-q"
    ∷ (queue ++ (codes "/" ++ name))
    ∷ codes "-h"
    ∷ server.gateway_ip
    ∷ codes "-p"
    ∷ server.gateway_port
    ∷ codes "-a"
    ∷ password
    ∷ codes "-t"
    ∷ format_int conf.max_task
    ∷ codes "-H"
    ∷ conf.entry
    ∷ []

-- How a try to run the process ends.
pub data Ran : Type 0 where
  not_started : Ran
  ended : Option Text → Ran

-- What the loop does: it starts a process, and waits for two seconds after one that did not start.
pub data Act : Type 0 where
  start pause : Act

abbrev acts_of : Ran → List Act
acts_of not_started = start ∷ pause ∷ []
acts_of (ended e) = start ∷ []

-- The loop of one child: whether the worker was closed at each round, and how its process ends.
-- (`true` beside the acts: the loop returned.)
unfoldable pub child_loop : List (Bool × Ran) → List Act × Bool
child_loop [] = ([], false)
child_loop ((true, ran) ∷ rest) = ([], true)
child_loop ((false, ran) ∷ rest) =
    let (acts, returned) = child_loop rest in (acts_of ran ++ acts, returned)

-- How the monitor ends: it stops the process, or it saw it exit.
pub data Watched : Type 0 where
  stops exited watching : Watched

-- `monitor`, over whether the worker was closed and whether the process has exited, every second.
unfoldable pub monitor : List (Bool × Bool) → Watched
monitor [] = watching
monitor ((true, gone) ∷ rest) = stops
monitor ((false, true) ∷ rest) = exited
monitor ((false, false) ∷ rest) = monitor rest
