-- ===== src/Tests/RecordsTests.antt =====
-- The theorems of the records at concrete inputs.
use pepperbus.Base.{◌<◌, ◌≡◌, true, some, length, map, take, arith, if◌then◌else◌}
use pepperbus.Base.Int.{pos}
use pepperbus.Base.Text.{Text, codes, text_eq}
use pepperbus.Records.{task_key, task_info, add_task, get_task, read_tasks, last_index}
use pepperbus.Records.ReadBack.{older, in_front, get_task-add_task}
use pepperbus.Records.Trim.{kept, add_task_lem}
use pepperbus.Redis.Memory.{memory, memory_healthy}
use pepperbus.Tests.Sample.{queue, nothing}

add_task_lem_example :
    let key = task_key queue in
    let s' = add_task memory true queue (codes "1700000000") (codes "x") nothing in
    ((j : Text)
      → s' j ≡ (
          if text_eq key j
          then kept (task_info (codes "1700000000") (codes "x")) (nothing key)
          else nothing j))
    × (length (nothing key) < 100 → length (s' key) < 100)
add_task_lem_example =
    add_task_lem memory memory_healthy queue (codes "1700000000") (codes "x") nothing

abbrev now : Text
now = codes "17"

get_task-add_task_example :
    get_task memory true queue (pos 5) (add_task memory true queue now (codes "x,y") nothing)
    ≡ some (
        in_front now
          (codes "x,y")
          (read_tasks (map some (take (last_index (pos 5)) (older (nothing (task_key queue)))))))
get_task-add_task_example =
    get_task-add_task memory memory_healthy queue now (codes "x,y") (pos 5) nothing
      ((λ e. omega (arith, e)), ((λ e. omega (arith, e)), tt))
