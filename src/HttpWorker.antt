-- ===== src/HttpWorker.antt =====
-- http_worker.go: the worker of a topic whose consumer is an HTTP server. Its rounds are those of
-- `Mux.Serve`, over the same store; the ping looks at the body of the answer only.
pub mod Ping
pub mod Post
use pepperbus.Base.{List, [], ◌∷◌, ◌++◌, Bool, not, Option, none, some, if◌then◌else◌}
use pepperbus.Base.Int.{ℤ}
use pepperbus.Base.Text.{Text, codes, split}
use pepperbus.Job.{Jobs, Codec}
use pepperbus.Mux.{consume, retry_round}
use pepperbus.Mux.Ping.{in_array, queue_topic}
use pepperbus.Mux.Types.{Next, Outcome, TopicRetry}
use pepperbus.Redis.Wire.{Server}
use pepperbus.Response.{WorkerResponse, Sent, answered, failed, is_success, to_string, inner_error}

-- `SendPing` of the HTTP worker: `none` is no error; `show` prints the topics of the answer.
unfoldable pub send_ping_http : (List Text → Text) → Text → Text → Sent → Option Text
unfolding in_array
send_ping_http show q t (failed message) = some message
send_ping_http show q t (answered r) =
    let topics = split b',' r.msg in
    if not (is_success r)
    then some (to_string r)
    else if in_array (queue_topic q t) topics
    then none
    else some
        (codes "topic no register: " ++ (queue_topic q t ++ (codes " response is " ++ show topics)))

-- `request` has no code in the answer's header: an inner error.
abbrev pub code_of : Text → Text
code_of [] = inner_error
code_of (c ∷ s) = c ∷ s

-- What `request` makes of an answer, from its headers and its body, or the error of reading that.
unfoldable pub read_response :
    Text → Text → Text → Option Text → Text → WorkerResponse × Option Text
read_response code error_code topics read_error body = (
  record {
    code = code_of code;
    error_code = error_code;
    consume_topics = topics;
    msg = elim read_error [ none ↦ body | some message ↦ message ];
  },
  read_error,
)

module _ (codec : Codec) (server : Server) where
  open server use {Store}

  -- One round of a worker's loop: step by step that of `Mux.Serve`.
  unfoldable pub consume_http :
      Text → Text → Option TopicRetry → Bool → Text → ℤ → (Jobs → Sent) → Store → Outcome Store
  unfolding consume
  consume_http q t conf done trace now send s = consume codec server q t conf done trace now send s

  -- One round of the retry loop, likewise.
  unfoldable pub retry_http : Text → Text → Bool → Text → ℤ → Store → Next × Store
  unfolding retry_round
  retry_http q t done trace now s = retry_round codec server q t done trace now s
