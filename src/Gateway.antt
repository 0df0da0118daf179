-- ===== src/Gateway.antt =====
-- gateway.go: the commands of a client (`auth`, `ping`, `lpush`, `rpop`) over the mux server. The
-- connection (redeo) is the login that it keeps and the replies that are written to it.
pub mod Auth
pub mod Push
pub mod Session
use pepperbus.Base.{
  ℕ, ◌+◌, List, [], ◌∷◌, ◌++◌, Bool, true, false, ◌&&◌, ◌||◌, not, Option, none, some,
  if◌then◌else◌, is_nil,
}
use pepperbus.Base.Text.{Text, text_eq, split, split_once}
use pepperbus.Base.Map.{Map, lookup}
use pepperbus.Config.{TopicConfig, QueueConfig}
use pepperbus.Job.{Job, Jobs, Codec}
use pepperbus.Job.Parse.{slash, parse_job}
use pepperbus.MuxServer.{MuxServer}
use pepperbus.MuxServer.Dispatch.{ServerError, add_jobs, get_jobs}
use pepperbus.Redis.Wire.{Server}
use pepperbus.Storage.Key.{common_queue}

-- The value under "auth" in the client's context.
pub data Login : Type 0 where
  unset refused : Login
  named : Text → Login

pub data GatewayError : Type 0 where
  wrong_args invalid_password no_auth invalid_args : GatewayError
  invalid_meta : Text → GatewayError
  from_server : ServerError → GatewayError

-- What is written to the client.
pub data Reply : Type 0 where
  okay pong nil : Reply
  failure : GatewayError → Reply
  -- The answer of `lpush`: the ids, the trace id and the error.
  pushed : List Text → Text → Option GatewayError → Reply
  batch : Jobs → Reply

-- The name that a login must have: "queue/topic", or the queue without a topic.
unfoldable pub full_name : Text → Text → Text
full_name q [] = q
full_name q (c ∷ t) = q ++ slash ∷ (c ∷ t)

-- `checkAuth`: true where it returns no error.
unfoldable pub check_auth : Login → Text → Text → Bool
unfolding full_name
check_auth unset q t = false
check_auth refused q t = false
check_auth (named v) q t = text_eq (full_name q t) v || is_nil q && not (is_nil v)

abbrev pub has_password : Option TopicConfig → Text → Bool
has_password none password = false
has_password (some topic) password = text_eq topic.password password

abbrev pub queue_accepts : Option QueueConfig → Text → Text → Bool
queue_accepts none t password = false
queue_accepts (some queue) [] password = text_eq queue.password password
queue_accepts (some queue) (c ∷ t) password = has_password (lookup (c ∷ t) queue.topic) password

-- Whether the password is that of the topic, or that of the queue without a topic.
unfoldable pub accepts : Map QueueConfig → Text → Text → Text → Bool
accepts confs q t password = queue_accepts (lookup q confs) t password

-- The queue and the topic of a login's name, which is split at '/'.
abbrev pub login_names : List Text → Text × Text
login_names [] = ([], [])
login_names (q ∷ t ∷ []) = (q, t)
login_names (q ∷ _) = (q, [])

abbrev pub colon : ℕ
colon = 58

-- `auth` on the first argument, split at ':'.
unfoldable pub login : Map QueueConfig → List Text → Reply × Login
unfolding accepts
login confs [] = (failure invalid_password, refused)
login confs (name ∷ []) = (failure invalid_password, refused)
login confs (name ∷ password ∷ more) =
    let (q, t) = login_names (split slash name) in
    if accepts confs q t password then (okay, named name) else (failure invalid_password, refused)

-- `auth`.
unfoldable pub auth : Map QueueConfig → List Text → Login → Reply × Login
unfolding login
auth confs [] before = (failure wrong_args, before)
auth confs (arg ∷ args) before = login confs (split colon arg)

-- `ping`.
unfoldable pub ping : Login → Reply
unfolding check_auth
ping who = if check_auth who [] [] then pong else failure no_auth

-- What `lpush` leaves behind: its replies, the calls of `CGITaskDebug.AddTask` and of
-- `GatewayStat.Add`, and the store.
pub record Pushed (Store : Type 0) : Type 0 where
  pub replies : List Reply
  pub debugged : List (Text × Text)
  pub counted : List (Text × Bool)
  pub store : Store

-- `WriteTaskDebug`.
unfoldable pub write_task_debug : Text → List Job → List (Text × Text)
write_task_debug q [] = []
write_task_debug q (job ∷ jobs) = (q, job.content) ∷ write_task_debug q jobs

module _ (codec : Codec) (server : Server) where
  open server use {Store}

  abbrev only_reply : Reply → Store → Option (Pushed Store)
  only_reply r s = some (record { replies = r ∷ []; debugged = []; counted = []; store = s })

  -- After `AddJobs`: its error is written, and then the last reply is written in any case.
  unfoldable pub after_add :
      List Text → Text → Option (Option ServerError × Jobs × Store) → Option (Pushed Store)
  unfolding write_task_debug
  after_add ids trace none = none
  after_add ids trace (some (none, jobs, s)) = some (record {
    replies = pushed ids trace none ∷ [];
    debugged = write_task_debug jobs.queue_name jobs.slice;
    counted = (jobs.queue_name, true) ∷ [];
    store = s;
  })
  after_add ids trace (some (some e, jobs, s)) = some (record {
    replies = pushed [] trace (some (from_server e)) ∷ pushed [] trace (some (from_server e)) ∷ [];
    debugged = write_task_debug jobs.queue_name jobs.slice;
    counted = (jobs.queue_name, false) ∷ [];
    store = s;
  })

  -- `lpush` on a batch that was parsed, or not.
  unfoldable pub push_parsed :
      MuxServer → Login → Text → Option (Jobs × List Text) → Store → Option (Pushed Store)
  unfolding check_auth after_add
  push_parsed ms who meta none s = only_reply (pushed [] [] (some (invalid_meta meta))) s
  push_parsed ms who meta (some (jobs, ids)) s =
      let added = add_jobs codec server ms jobs s in
      if check_auth who jobs.queue_name jobs.topic_name
      then after_add ids jobs.in_trace_id added
      else only_reply (pushed [] jobs.in_trace_id (some no_auth)) s

  -- `lpush`, with the number of calls of the id generator so far; `none` is a panic.
  unfoldable pub lpush :
      (ℕ → ℕ) → Text → MuxServer → Login → List Text → ℕ → Store → Option (Pushed Store)
  unfolding push_parsed
  lpush gen service ms who [] n s = only_reply (pushed [] [] (some invalid_args)) s
  lpush gen service ms who (meta ∷ contents) n s =
      push_parsed ms who meta (parse_job gen service meta contents n).0 s

  abbrev popped : (Option ServerError × Option Jobs) × Store → Reply × Store
  popped ((some e, jobs), s) = (failure (from_server e), s)
  popped ((none, none), s) = (nil, s)
  popped ((none, some jobs), s) = (batch jobs, s)

  unfoldable pub pop_named :
      MuxServer → Login → Text → Option (Text × Text) → Text → Store → Reply × Store
  unfolding check_auth
  pop_named ms who meta none trace s = (failure (invalid_meta meta), s)
  pop_named ms who meta (some (q, t)) trace s =
      let answer = get_jobs codec server ms q t common_queue trace s in
      if check_auth who q t then popped answer else (failure no_auth, s)

  -- `rpop`.
  unfoldable pub rpop : MuxServer → Login → List Text → Text → Store → Reply × Store
  unfolding pop_named
  rpop ms who [] trace s = (failure invalid_args, s)
  rpop ms who (meta ∷ args) trace s = pop_named ms who meta (split_once slash meta) trace s
