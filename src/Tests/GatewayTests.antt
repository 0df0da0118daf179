-- ===== src/Tests/GatewayTests.antt =====
-- The theorems of the gateway and of `ParseJob` at concrete inputs.
use pepperbus.Base.{
  ℕ, ◌+◌, ◌≡◌, ◌↔◌, refl, [], ◌∷◌, List, map, true, false, none, some, All, arith, if◌then◌else◌,
  Bool, ap, ◌∙◌,
}
use pepperbus.Base.Text.{Text, codes, split, text_eq}
use pepperbus.Base.Map.{lookup, insert, is_some}
use pepperbus.Gateway.{
  Login, unset, named, pong, accepts, login_names, from_server, pushed, Pushed, full_name,
  check_auth, auth, colon, lpush,
}
use pepperbus.Gateway.Auth.{Password, accepts_lem, auth_lem}
use pepperbus.Gateway.Push.{command_batch, lpush-delivers}
use pepperbus.Gateway.Session.{Printers, Session, outcome_of, serve_command}
use pepperbus.Gateway.Session.Refused.{Outside, NoPassword, served, served-store}
use pepperbus.Gateway.Session.Behind.{pings, times, lpush-behind}
use pepperbus.Redis.Resp.{Arg, arg_text, arg_bytes}
use pepperbus.Job.{Job, Jobs}
use pepperbus.Job.Parse.{slash, gen_trace_id, new_jobs, ids_of, parse_job}
use pepperbus.Base.Split.{Without}
use pepperbus.Job.Parse.Batch.{NoRepeat, parse_job_lem}
use pepperbus.MuxServer.{queue_add, new_mux_server, serve, start_topic, muxers}
use pepperbus.MuxServer.Dispatch.{no_queue}
use pepperbus.MuxServer.Dispatch.FanOut.{received_by}
use pepperbus.MuxServer.Muxers.{ReadIn, serve-Inv}
use pepperbus.Redis.Memory.{Lists, memory, memory_healthy}
use pepperbus.Storage.Topic.{view}
use pepperbus.Tests.MuxServerTests.{confs, enabled, queue_conf, running}
use pepperbus.Tests.Sample.{plain, plain_trip, queue, topic, nothing}

-- A generator that counts from 1000.
abbrev gen : ℕ → ℕ
gen n = 1000 + n

abbrev service : Text
service = codes "-1-12018"

queue_plain : Without slash queue
queue_plain = (λ e. omega (arith, e), tt)

topic_plain : Without slash topic
topic_plain = (λ e. omega (arith, e), tt)

parse_job_lem_example :
    ((jobs : Jobs) × (parse_job gen service (codes "q/t") (codes "a" ∷ codes "b" ∷ []) 7
        ≡ (some (jobs, ids_of gen jobs.slice), 10))
      × (jobs.queue_name ≡ queue)
      × (jobs.topic_name ≡ [])
      × (map Job.content jobs.slice ≡ codes "a" ∷ codes "b" ∷ [])
      × All (λ job. job.in_trace_id ≡ jobs.in_trace_id) jobs.slice
      × NoRepeat (ids_of gen jobs.slice))
    × (parse_job gen service queue (codes "a" ∷ codes "b" ∷ []) 7 ≡ (none, 7))
parse_job_lem_example =
    parse_job_lem gen 100 (λ m n hm hn e. omega (arith, e)) (λ n h. omega (arith, h)) service queue
      topic (codes "a" ∷ codes "b" ∷ []) 7 queue_plain (omega arith)

auth_lem_example : (check_auth (auth confs (codes "q/t:pw" ∷ []) unset).1 queue topic ≡ true) ↔ (
    (password : Text) × (more : List Text) × (split colon (codes "q/t:pw")
      ≡ full_name queue topic ∷ password ∷ more)
    × Password confs queue topic password)
auth_lem_example = auth_lem confs (codes "q/t:pw") [] unset queue topic queue_plain topic_plain (cc)

-- The same login is accepted by the code.
auth_runs : check_auth (auth confs (codes "q/t:pw" ∷ []) unset).1 queue topic ≡ true
unfolding auth check_auth split accepts lookup text_eq
auth_runs = refl

-- What the gateway and its libraries print.
abbrev printers : Printers
printers = record {
  json = λ ids trace e. trace;
  jobs = λ jobs. jobs.queue_name;
  message = λ e. codes "error";
  info = codes "info";
  unknown = λ name. name;
}

abbrev session : Login → Session Lists
session who = record { login = who; unread = []; made = 7; store = nothing }

-- A login with a wrong password, and a push.
abbrev intrusion : List (Text × List Arg)
intrusion =
    (codes "AUTH", arg_text (codes "q/t:guess") ∷ [])
    ∷ (codes "LPUSH", arg_text (codes "q/t") ∷ arg_text (codes "a") ∷ [])
    ∷ []

-- Whether the fields are those of an accepted login.
abbrev judged : List Text → Bool
judged [] = false
judged (name ∷ []) = false
judged (name ∷ password ∷ more) =
    let (q, t) = login_names (split slash name) in accepts confs q t password

abbrev first_of : List Text → Text
first_of [] = []
first_of (arg ∷ rest) = arg

intrusion-NoPassword : All (NoPassword printers plain memory gen service confs running) intrusion
unfolding split lookup text_eq accepts arg_bytes
intrusion-NoPassword = (
  λ is_auth arg name password rest more whole fields has.
      let is_true : false ≡ true =
        ap (λ args. judged (split colon (first_of args))) whole
        ∙ (ap judged fields
            ∙ (accepts_lem confs (login_names (split slash name)).0
                  (login_names (split slash name)).1 password).1
                has) in
      cc is_true,
  (λ is_auth arg name password rest more whole fields has. cc is_auth, tt),
)

served-store_example :
    ((served printers plain memory gen service confs running intrusion (session unset)).store
      ≡ nothing)
    × Outside
        (served printers plain memory gen service confs running intrusion (session unset)).login
served-store_example =
    served-store printers plain memory gen service confs running intrusion (session unset) tt
      intrusion-NoPassword

lpush-behind_example :
    let args = arg_text (codes "q/t") ∷ arg_text (codes "a") ∷ [] in
    let trace = gen_trace_id gen service 7 in
    let error = outcome_of printers (pushed [] trace (some (from_server (no_queue queue)))) in
    let (first, s1) =
      serve_command printers plain memory gen service confs new_mux_server
        (codes "LPUSH")
        args
        (session (named queue)) in
    let (replies, s2) = pings printers plain memory gen service confs new_mux_server 3 s1 in
    (first ≡ error)
    × (replies ≡ error ∷ times 2 (outcome_of printers pong) [])
    × (s2.unread ≡ outcome_of printers pong ∷ [])
    × (s2.store ≡ nothing)
lpush-behind_example =
    lpush-behind printers plain memory gen service confs new_mux_server queue queue topic
      (codes "a" ∷ []) (arg_text (codes "q/t") ∷ arg_text (codes "a") ∷ []) 2
      (session (named queue)) queue_plain (unfold arg_bytes in refl) refl
      (unfold check_auth text_eq in refl) refl (unfold new_mux_server lookup in refl)

lpush-delivers_example :
    (o : Pushed Lists) × (lpush plain memory gen service running
        (named queue)
        (codes "q/t" ∷ codes "a" ∷ [])
        7
        nothing
      ≡ some o)
    × (let jobs = command_batch gen service queue (codes "a" ∷ []) 7 in
        (o.replies ≡ pushed (ids_of gen jobs.slice) jobs.in_trace_id none ∷ [])
        × ((u : Text)
            → view plain memory memory_healthy queue u o.store ≡ (
                if is_some (lookup u (muxers (lookup queue running.mux)))
                then received_by
                    (lookup u queue_conf.topic)
                    jobs.slice
                    (view plain memory memory_healthy queue u nothing)
                else view plain memory memory_healthy queue u nothing)))
unfolding lookup insert serve new_mux_server text_eq start_topic check_auth new_jobs
lpush-delivers_example =
    lpush-delivers plain memory memory_healthy plain_trip gen service (ReadIn enabled) running
      queue_conf (named queue) queue topic (codes "a") [] 7 nothing queue_plain refl
      (serve-Inv enabled (queue_add queue_conf ∷ [])) refl (cc) (λ c. (tt, tt))
