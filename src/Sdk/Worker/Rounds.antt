-- ===== src/Sdk/Worker/Rounds.antt =====
-- server.go against http_worker.go: the pings and the jobs of the bus at a consumer.
use pepperbus.Base.{
  ◌≡◌, ◌≢◌, ◌↔◌, refl, ap, sym, ◌∙◌, List, [], ◌∷◌, ◌++◌, true, false, Option, none, some, All,
  arith,
}
use pepperbus.Base.Decimal.{format_uint, digits}
use pepperbus.Base.Int.{ℤ}
use pepperbus.Base.Signed.{format_int}
use pepperbus.Base.Split.{Without, split-append}
use pepperbus.Base.Text.{Text, split, text_eq, text_eq_iff}
use pepperbus.Base.Map.{Map, lookup, is_some}
use pepperbus.HttpWorker.{send_ping_http, code_of, read_response, consume_http}
use pepperbus.HttpWorker.Ping.{pings_lem}
use pepperbus.HttpWorker.Post.{Post, ping_post, jobs_post}
use pepperbus.Job.{Job, Jobs, Codec, RoundTrip}
use pepperbus.Mux.Consume.{consume-moves, consume-next}
use pepperbus.Mux.Ping.{in_array, queue_topic}
use pepperbus.Mux.Types.{TopicRetry, ping_again}
use pepperbus.Mux.{mark_attempt, send_jobs}
use pepperbus.Redis.Healthy.{Healthy}
use pepperbus.Redis.Wire.{Server}
use pepperbus.Response.{Sent, answered, is_success, WorkerResponse, response_not_found}
use pepperbus.Sdk.Worker.{Resp, Answer, listed, serve_post, handled, success}
use pepperbus.Storage.{stamp, single}
use pepperbus.Storage.Key.{common_queue, retry_queue}
use pepperbus.Storage.Topic.{view, replace, append}

abbrev pub names {ℓ} : {H : Type ℓ} → Map H → List Text
names [] = []
names ((k, h) ∷ m) = k ∷ names m

-- A registered name has no comma.
abbrev pub NoComma {ℓ} : {H : Type ℓ} → Map H → Type 0
NoComma m = All (Without b',') (names m)

split-listed {ℓ} :
    {H : Type ℓ} (m : Map H) → NoComma m → split b',' (listed m) ≡ names m ++ ([] ∷ [])
unfolding listed
split-listed [] h = unfold split in refl
split-listed ((k, x) ∷ m) (plain, h) =
    split-append b',' k (listed m) plain ∙ ap (λ ns. k ∷ ns) (split-listed m h)

in_array-names {ℓ} :
    {H : Type ℓ} (v : Text) (m : Map H)
    → v ≢ []
    → in_array v (names m ++ ([] ∷ [])) ≡ is_some (lookup v m)
unfolding in_array lookup
in_array-names v [] h = ground (arith, text_eq_iff v [])
in_array-names v ((k, x) ∷ m) h =
    ground (arith, in_array-names v m h, text_eq_iff v k, text_eq_iff k v)

named_topic : (q t : Text) → queue_topic q t ≢ []
named_topic [] t e = cc
named_topic (c ∷ q) t e = cc

-- What the bus's HTTP client makes of an answer.
abbrev pub received : Answer → WorkerResponse
received a = (read_response a.code a.error_code a.consume_topics none a.body).0

module _ {H D : Type 0} (run : H → Post → Resp D) (marshal : Resp D → Option Text) where
  -- The transport to a consumer.
  abbrev pub sent_to : Map H → Post → Sent
  sent_to registered post = answered (received (serve_post run marshal registered post))

  pinged-success :
      (registered : Map H)
      → is_success (received (serve_post run marshal registered ping_post)) ≡ true
  unfolding serve_post read_response is_success text_eq format_int format_uint digits lookup
  pinged-success registered = refl

  pinged-names :
      (registered : Map H)
      → (received (serve_post run marshal registered ping_post)).msg ≡ listed registered
  unfolding serve_post read_response text_eq lookup
  pinged-names registered = refl

  -- The HTTP worker's ping of a consumer succeeds exactly if a handler is registered under the name
  -- of the worker's topic. (For registered names without a comma.)
  pub ping-registered :
      (show : List Text → Text) (registered : Map H) (q t : Text)
      → NoComma registered
      → (send_ping_http show q t (sent_to registered ping_post) ≡ none)
        ↔ (is_some (lookup (queue_topic q t) registered) ≡ true)
  ping-registered show registered q t plain =
      let r = received (serve_post run marshal registered ping_post) in
      let accepted = (pings_lem show q t r).0 in
      let told : in_array (queue_topic q t) (split b',' r.msg)
          ≡ is_some (lookup (queue_topic q t) registered) =
        rw (pinged-names registered, split-listed registered plain)
          (in_array-names (queue_topic q t) registered (named_topic q t)) in
      (λ e. sym told ∙ (accepted.0 e).1, λ e. accepted.1 (pinged-success registered, told ∙ e))

  -- The answer to a batch, when the response is printed.
  posted-code :
      (print : List Job → Text) (registered : Map H) (jobs : Jobs) (body : Text)
      → marshal (
          handled run marshal
            (lookup (queue_topic jobs.queue_name jobs.topic_name) registered)
            (jobs_post print jobs))
        ≡ some body
      → (send_jobs (sent_to registered (jobs_post print jobs))).code
        ≡ code_of (
            format_int
              (handled run marshal
                (lookup (queue_topic jobs.queue_name jobs.topic_name) registered)
                (jobs_post print jobs)).code)
  unfolding serve_post read_response text_eq lookup send_jobs jobs_post
  posted-code print registered jobs body h = rw h refl

  module _ (codec : Codec) (server : Server) (healthy : Healthy server) {IsClean : Job → Type 0}
      (trip : RoundTrip codec IsClean) where
    open server use {Store}

    -- A round of the HTTP worker that takes the oldest job of the common queue, sends it to a
    -- consumer and gets a response that can be printed. If the handler of the topic responds with
    -- the code 200 the job is gone; if no handler is registered under the topic's name, the job is
    -- the newest of the retry queue, and the worker goes back to its pings. Nothing else in the
    -- three queues changes. (For a healthy Redis and a job that can be encoded.)
    pub consume_http-answers :
        (print : List Job → Text) (registered : Map H) (q t trace : Text) (conf : TopicRetry)
        (now : ℤ) (s : Store) (job : Job) (rest : List Job) (body : Text)
        → (view codec server healthy q t s).common ≡ job ∷ rest
        → IsClean (stamp true (mark_attempt conf now job))
        → let post = jobs_post print (single trace q t (mark_attempt conf now job)) in
          let handler = lookup (queue_topic q t) registered in
          marshal (handled run marshal handler post) ≡ some body
          → let before = view codec server healthy q t s in
            let outcome =
              consume_http codec server q t
                (some conf)
                false
                trace
                now
                (λ jobs. sent_to registered (jobs_post print jobs))
                s in
            ((handled run marshal handler post).code ≡ success
              → view codec server healthy q t outcome.store ≡ replace common_queue rest before)
            × (handler ≡ none
                → (view codec server healthy q t outcome.store
                    ≡ append retry_queue
                        (stamp true (mark_attempt conf now job) ∷ [])
                        (replace common_queue rest before))
                  × (outcome.next ≡ ping_again))
    unfolding consume_http
    consume_http-answers print registered q t trace conf now s job rest body oldest clean printed =
        let jobs = single trace q t (mark_attempt conf now job) in
        let send : Jobs → Sent = λ jobs. sent_to registered (jobs_post print jobs) in
        let code = posted-code print registered jobs body printed in
        let moves =
          consume-moves codec server healthy trip q t trace conf now send s job rest oldest clean in
        (
          λ okay. moves ∙ (rw (code, okay) (unfold text_eq format_int format_uint digits in refl)),
          λ missing.
              let found : (send_jobs (send jobs)).code ≡ response_not_found =
                code ∙ (rw missing (unfold format_int format_uint digits in refl)) in
              (
                moves ∙ (rw found (unfold text_eq in refl)),
                consume-next codec server healthy trip q t trace conf now send s job rest oldest
                      (rw found (unfold text_eq in refl))
                    ∙ (rw found (unfold text_eq in refl)),
              ),
        )
