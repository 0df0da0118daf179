-- ===== src/Mux/Ping.antt =====
-- mux.go, `loopPingCGI` and `SendPing`: a worker pings until it is told that its topic is registered.
use pepperbus.Base.{
  ℕ, ◌+◌, List, [], ◌∷◌, ◌++◌, Bool, true, false, not, Option, none, some, if◌then◌else◌, leb,
}
use pepperbus.Base.Text.{Text, codes, text_eq, split}
use pepperbus.Response.{Sent, answered, failed, is_success, to_string}

-- utility/utility.go, `InArray`.
unfoldable pub in_array : Text → List Text → Bool
in_array v [] = false
in_array v (i ∷ s) = let rest = in_array v s in if text_eq v i then true else rest

-- `queue/topic`.
abbrev pub queue_topic : Text → Text → Text
queue_topic q t = q ++ (codes "/" ++ t)

-- `SendPing` of the CGI worker: `none` is no error. Both the header and the body are looked at.
unfoldable pub send_ping : Text → Text → Sent → Option Text
unfolding in_array
send_ping q t (failed message) = some message
send_ping q t (answered r) =
    if not (is_success r)
    then some (to_string r)
    else if in_array (queue_topic q t) (split b',' r.consume_topics ++ split b',' r.msg)
    then none
    else some (codes "topic no register: " ++ queue_topic q t)

-- The next pause in seconds: doubled, at most `PingSleepDurationMax`.
unfoldable pub next_pause : ℕ → ℕ
next_pause pause = if leb 60 (pause + pause) then 60 else pause + pause

-- The loop over the results of the pings that will be made (`true` for the pings that find the topic)
-- with the mux's `Done` beside each: the pauses made, and whether the worker goes on to work.
unfoldable pub ping_loop : ℕ → List (Bool × Bool) → List ℕ × Bool
unfolding next_pause
ping_loop pause [] = ([], false)
ping_loop pause ((true, found) ∷ rest) = ([], false)
ping_loop pause ((false, true) ∷ rest) = ([], true)
ping_loop pause ((false, false) ∷ rest) =
    let (pauses, goes_on) = ping_loop (next_pause pause) rest in (pause ∷ pauses, goes_on)
