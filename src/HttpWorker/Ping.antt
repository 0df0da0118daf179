-- ===== src/HttpWorker/Ping.antt =====
-- http_worker.go and mux.go: what the two pings accept.
use pepperbus.Base.{◌≡◌, ◌↔◌, ◌⊎◌, refl, List, [], ◌∷◌, ◌++◌, true, none, arith, ◌||◌}
use pepperbus.Base.Text.{Text, split}
use pepperbus.HttpWorker.{send_ping_http}
use pepperbus.Mux.Ping.{in_array, queue_topic, send_ping}
use pepperbus.Response.{WorkerResponse, answered, is_success}

in_array-append :
    (v : Text) (xs ys : List Text) → in_array v (xs ++ ys) ≡ (in_array v xs || in_array v ys)
unfolding in_array
in_array-append v [] ys = refl
in_array-append v (x ∷ xs) ys = ground (arith, in_array-append v xs ys)

-- The HTTP worker's ping accepts an answer exactly if it is a success and the body names the topic;
-- the CGI worker's ping accepts it also if the header names it.
pub pings_lem :
    (show : List Text → Text) (q t : Text) (r : WorkerResponse)
    → ((send_ping_http show q t (answered r) ≡ none)
        ↔ ((is_success r ≡ true) × (in_array (queue_topic q t) (split b',' r.msg) ≡ true)))
      × ((send_ping q t (answered r) ≡ none) ↔ (
          (is_success r ≡ true)
          × ((in_array (queue_topic q t) (split b',' r.consume_topics) ≡ true)
              ⊎ (in_array (queue_topic q t) (split b',' r.msg) ≡ true))))
unfolding send_ping_http send_ping
pings_lem show q t r = (
  ground arith,
  rw (in_array-append (queue_topic q t) (split b',' r.consume_topics) (split b',' r.msg))
      (ground arith),
)
