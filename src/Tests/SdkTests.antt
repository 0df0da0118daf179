-- ===== src/Tests/SdkTests.antt =====
-- The theorems of the client's and the consumer's library at concrete inputs.
use pepperbus.Base.{
  ℕ, zero, suc, ◌≡◌, ◌↔◌, refl, List, [], ◌∷◌, true, false, Option, none, some, arith,
  if◌then◌else◌,
}
use pepperbus.Base.Int.{ℤ, pos}
use pepperbus.Base.Text.{Text, codes, text_eq}
use pepperbus.Base.Map.{Map, lookup, insert, is_some}
use pepperbus.Base.Split.{Without}
use pepperbus.Gateway.{unset, GatewayError, accepts, colon}
use pepperbus.Gateway.Push.{command_batch}
use pepperbus.Gateway.Session.{Printers, Session, connected}
use pepperbus.HttpWorker.{send_ping_http, consume_http}
use pepperbus.HttpWorker.Post.{Post, ping_post, jobs_post}
use pepperbus.Job.{Job}
use pepperbus.Job.Parse.{slash, new_jobs}
use pepperbus.Mux.{mark_attempt}
use pepperbus.Mux.Ping.{queue_topic}
use pepperbus.Mux.Types.{TopicRetry, ping_again}
use pepperbus.MuxServer.{queue_add, new_mux_server, serve, start_topic, muxers}
use pepperbus.MuxServer.Dispatch.FanOut.{received_by}
use pepperbus.MuxServer.Muxers.{ReadIn, serve-Inv}
use pepperbus.Redis.Commands.{Conn, response_type}
use pepperbus.Redis.Memory.{Lists, put, memory, memory_healthy}
use pepperbus.Sdk.Client.{
  Content, string, other, Marshalled, json, not_json, not_added, add_jobs, collect,
}
use pepperbus.Sdk.Client.Delivers.{add_jobs-delivers}
use pepperbus.Sdk.Worker.{Resp, text, handled, success}
use pepperbus.Sdk.Worker.Rounds.{sent_to, ping-registered, consume_http-answers}
use pepperbus.Storage.{stamp, single}
use pepperbus.Storage.Fifo.{contents}
use pepperbus.Storage.Key.{get_key, common_queue, retry_queue}
use pepperbus.Storage.Topic.{view, replace, append}
use pepperbus.Tests.MuxServerTests.{confs, enabled, queue_conf, running}
use pepperbus.Tests.Sample.{plain, plain_trip, write, job1, queue, topic, nothing}

abbrev gen : ℕ → ℕ
gen n = n

abbrev service : Text
service = codes "-1-12018"

abbrev json_of : List Text → Text → Option GatewayError → Text
json_of ids trace e = codes "{}"

abbrev message_of : GatewayError → Text
message_of e = codes "ERR"

abbrev printers : Printers
printers = record {
  json = json_of;
  jobs = λ jobs. jobs.in_trace_id;
  message = message_of;
  info = codes "redeo";
  unknown = λ name. codes "ERR unknown command";
}

abbrev gateway : Conn
gateway = connected printers plain memory gen service confs running

abbrev fresh : Session Lists
fresh = record { login = unset; unread = []; made = 7; store = nothing }

-- Numbers are printed, but zero.
abbrev marshal : ℕ → Marshalled
marshal zero = not_json (codes "zero")
marshal (suc n) = json (codes "1")

abbrev pushes : List (Content ℕ)
pushes = string (codes "a") ∷ other 5 ∷ []

no_slash : Without slash queue
no_slash = (λ e. omega (arith, e), tt)

no_colon : Without colon queue
no_colon = (λ e. omega (arith, e), tt)

abbrev secret : Text
secret = codes "secret"

secret_plain : Without colon secret
secret_plain = (cc, (cc, (cc, (cc, (cc, (cc, tt))))))

add_jobs-delivers_example :
    (s' : Session Lists) × (add_jobs gateway marshal queue secret pushes fresh
      ≡ (not_added response_type, s'))
    × (s'.unread ≡ [])
    × ((u : Text)
        → view plain memory memory_healthy queue u s'.store ≡ (
            let jobs = command_batch gen service queue (codes "a" ∷ codes "1" ∷ []) 7 in
            if is_some (lookup u (muxers (lookup queue running.mux)))
            then received_by
                (lookup u queue_conf.topic)
                jobs.slice
                (view plain memory memory_healthy queue u nothing)
            else view plain memory memory_healthy queue u nothing))
unfolding lookup insert serve new_mux_server text_eq start_topic new_jobs accepts collect
add_jobs-delivers_example =
    add_jobs-delivers printers plain memory gen service confs running memory_healthy plain_trip
      marshal (ReadIn enabled) queue_conf queue secret (codes "a") (codes "1" ∷ []) pushes fresh
      refl no_slash no_colon secret_plain refl refl (serve-Inv enabled (queue_add queue_conf ∷ []))
      refl (cc) (λ c. (tt, (tt, tt)))

-- A consumer of the topic, whose handler is its code.
abbrev run : ℤ → Post → Resp ℕ
run code post = record { error_code = pos 0; code = code; content = text [] }

abbrev print_resp : Resp ℕ → Option Text
print_resp r = some (codes "{}")

abbrev registered : Map ℤ
registered = (codes "other/t", pos 500) ∷ (queue_topic queue topic, pos 200) ∷ []

abbrev show : List Text → Text
show topics = codes "[]"

ping-registered_example :
    (send_ping_http show queue topic (sent_to run print_resp registered ping_post) ≡ none)
    ↔ (is_some (lookup (queue_topic queue topic) registered) ≡ true)
ping-registered_example =
    ping-registered run print_resp show registered queue topic
      ((cc, (cc, (cc, (cc, (cc, (cc, (cc, tt))))))), ((cc, (cc, (cc, tt))), tt))

abbrev conf : TopicRetry
conf = record { is_retry = true; retry_time = pos 60 }

abbrev one_job : Lists
one_job = put (get_key queue topic common_queue) (write job1 ∷ []) nothing

abbrev print_jobs : List Job → Text
print_jobs jobs = codes "[]"

consume_http-answers_example :
    let job = mark_attempt conf (pos 9) job1 in
    let post = jobs_post print_jobs (single (codes "x") queue topic job) in
    let handler = lookup (queue_topic queue topic) registered in
    let before = view plain memory memory_healthy queue topic one_job in
    let outcome =
      consume_http plain memory queue topic
        (some conf)
        false
        (codes "x")
        (pos 9)
        (λ jobs. sent_to run print_resp registered (jobs_post print_jobs jobs))
        one_job in
    ((handled run print_resp handler post).code ≡ success
      → view plain memory memory_healthy queue topic outcome.store ≡ replace common_queue [] before)
    × (handler ≡ none
        → (view plain memory memory_healthy queue topic outcome.store
            ≡ append retry_queue (stamp true job ∷ []) (replace common_queue [] before))
          × (outcome.next ≡ ping_again))
unfolding view contents get_key text_eq
consume_http-answers_example =
    consume_http-answers run print_resp plain memory memory_healthy plain_trip print_jobs registered
      queue topic (codes "x") conf (pos 9) one_job job1 [] (codes "{}") refl tt refl
