-- ===== src/Tests/AdminTests.antt =====
-- The theorems of the admin interface at concrete inputs.
use pepperbus.Base.{◌≡◌, refl, [], ◌∷◌, ◌+◌, ◌-◌, none, some, true, arith}
use pepperbus.Base.Int.{pos}
use pepperbus.Base.Map.{lookup, insert}
use pepperbus.Base.Text.{text_eq}
use pepperbus.Admin.{Req, decoded, shown, number, lengths, recover_action, get_queue_length_action}
use pepperbus.Admin.Counts.{size, recover_action-lengths}
use pepperbus.MuxServer.{Muxer, serve, start_topic, new_mux_server, cgi}
use pepperbus.MuxServer.Dispatch.{get_muxer}
use pepperbus.Redis.Memory.{Lists, put, memory, memory_healthy}
use pepperbus.Storage.Key.{common_queue, retry_queue, timeout_queue, get_key}
use pepperbus.Storage.Recover.{quota}
use pepperbus.Tests.MuxServerTests.{running, topic_conf}
use pepperbus.Tests.Sample.{write, job1, queue, topic, nothing}

abbrev two_retries : Lists
two_retries = put (get_key queue topic retry_queue) (write job1 ∷ write job1 ∷ []) nothing

abbrev asked : Req
asked = record { queue = queue; topic = topic }

abbrev worker : Muxer
worker = record { kind = cgi; queue = queue; topic = topic; conf = topic_conf; serving = true }

worker_found : get_muxer running queue topic ≡ (none, some worker)
unfolding get_muxer lookup insert serve new_mux_server text_eq start_topic
worker_found = refl

recover_action-lengths_example :
    let m = quota (pos 1) (size memory memory_healthy asked retry_queue two_retries) in
    (s' : Lists) × (recover_action memory 3 running
        (decoded (record { req = asked; count = pos 1 }))
        two_retries
      ≡ some (shown (number (pos m)), s'))
    × ((get_queue_length_action memory running (decoded asked) s').0
        ≡ shown (
            lengths
              (pos (size memory memory_healthy asked common_queue two_retries + m))
              (pos (size memory memory_healthy asked retry_queue two_retries - m))
              (pos (size memory memory_healthy asked timeout_queue two_retries))))
unfolding get_key text_eq
recover_action-lengths_example =
    recover_action-lengths memory memory_healthy running asked worker worker_found 3 (pos 1)
      two_retries (omega arith)
