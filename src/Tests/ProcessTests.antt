-- ===== src/Tests/ProcessTests.antt =====
-- The theorem of the process control at a concrete input: the process ends after three seconds.
use pepperbus.Base.{ℕ, ◌<◌, ◌≡◌, refl, Option, none, some, true, false, ltb, if◌then◌else◌}
use pepperbus.Base.Int.{pos}
use pepperbus.Process.{Errno, no_process, is_gone, stop_process}
use pepperbus.Process.Stop.{plan, up_to_gone, last_answer, forced, stop_process_lem}

abbrev ends : ℕ → Option Errno
ends i = if ltb i 3 then none else some no_process

stop_process_lem_example :
    let r = stop_process ends (pos 4711) in
    (r.sent ≡ up_to_gone ends 0 plan)
    × (r.error ≡ last_answer ends 0 none plan)
    × (forced r.sent ≡ true → (k : ℕ) → k < 11 → is_gone (ends k) ≡ false)
stop_process_lem_example = stop_process_lem ends (pos 4711) refl
