-- ===== src/Gateway/Session.antt =====
-- gateway.go: a connection of a client to the gateway, as the client's library sees it: commands go
-- to the handlers that `NewGateway` registers, and their replies are read one by one.
pub mod Refused
pub mod Behind
use pepperbus.Base.{
  Bool, true, false, ℕ, suc, List, [], ◌∷◌, ◌++◌, map, Option, none, some, if◌then◌else◌,
}
use pepperbus.Base.Text.{Text, codes, text_eq}
use pepperbus.Base.Map.{Map}
use pepperbus.Config.{QueueConfig}
use pepperbus.Gateway.{
  Login, GatewayError, wrong_args, invalid_password, no_auth, invalid_args, invalid_meta,
  from_server, Reply, okay, pong, nil, failure, pushed, batch, auth, ping, Pushed, lpush, rpop,
}
use pepperbus.Job.{Jobs, Codec}
use pepperbus.Job.Parse.{gen_trace_id, parse_job}
use pepperbus.MuxServer.{MuxServer}
use pepperbus.MuxServer.Dispatch.{ServerError, no_queue, no_topic, storage, redis}
use pepperbus.Redis.Call.{Outcome, answer, error}
use pepperbus.Redis.Commands.{Conn}
use pepperbus.Redis.Commands.Lists.{lower}
use pepperbus.Redis.Resp.{Arg, arg_bytes, v_bytes, v_nil}
use pepperbus.Redis.Wire.{Server}

-- What the libraries print: a reply of `lpush` as JSON, a batch, an error, the line of `info`, and
-- the error of redeo for a command without a handler.
pub record Printers : Type 0 where
  pub json : List Text → Text → Option GatewayError → Text
  pub jobs : Jobs → Text
  pub message : GatewayError → Text
  pub info : Text
  pub unknown : Text → Text

-- The login of the connection, the replies that its client has not read, the calls of the id
-- generator so far, and the Redis server behind the gateway.
pub record Session (Store : Type 0) : Type 0 where
  pub login : Login
  pub unread : List Outcome
  pub made : ℕ
  pub store : Store

abbrev pub texts_of : List Arg → List Text
texts_of [] = []
texts_of (a ∷ args) = arg_bytes a ∷ texts_of args

module _ (print : Printers) where
  -- `AppendError`, or a text that is appended (by `rpop`).
  abbrev pub refusal : GatewayError → Outcome
  refusal wrong_args = error (print.message wrong_args)
  refusal invalid_password = error (print.message invalid_password)
  refusal no_auth = error (print.message no_auth)
  refusal invalid_args = answer (v_bytes (print.message invalid_args))
  refusal (invalid_meta m) = answer (v_bytes (print.message (invalid_meta m)))
  refusal (from_server e) = answer (v_bytes (print.message (from_server e)))

  abbrev pub outcome_of : Reply → Outcome
  outcome_of okay = answer (v_bytes (codes "OK"))
  outcome_of pong = answer (v_bytes (codes "PONG"))
  outcome_of nil = answer v_nil
  outcome_of (failure e) = refusal e
  outcome_of (pushed ids trace e) = answer (v_bytes (print.json ids trace e))
  outcome_of (batch jobs) = answer (v_bytes (print.jobs jobs))

  -- The client reads one reply.
  abbrev pub next_reply {ℓ} : {A : Type ℓ} → List Outcome → (List Outcome → A) → Outcome × A
  next_reply [] rest = (error (codes "EOF"), rest [])
  next_reply (r ∷ rs) rest = (r, rest rs)

  module _ (codec : Codec) (server : Server) (gen : ℕ → ℕ) (service : Text)
      (confs : Map QueueConfig) (ms : MuxServer) where
    open server use {Store}

    abbrev authenticated : Reply × Login → Session Store → Outcome × Session Store
    authenticated (r, login) s =
        next_reply (s.unread ++ (outcome_of r ∷ []))
          (λ left. record s { login = login; unread = left })

    abbrev pub after_push : ℕ → Option (Pushed Store) → Session Store → Outcome × Session Store
    after_push made none s = next_reply s.unread (λ left. record s { unread = left; made = made })
    after_push made (some o) s =
        next_reply (s.unread ++ map outcome_of o.replies)
          (λ left. record s { unread = left; made = made; store = o.store })

    -- Whether the storage was asked for a batch, which takes an id.
    abbrev reached : ServerError → Bool
    reached (no_queue q) = false
    reached (no_topic t) = false
    reached (storage e) = true
    reached (redis e) = true

    abbrev asked : Reply → Bool
    asked okay = false
    asked pong = false
    asked nil = true
    asked (failure wrong_args) = false
    asked (failure invalid_password) = false
    asked (failure no_auth) = false
    asked (failure invalid_args) = false
    asked (failure (invalid_meta m)) = false
    asked (failure (from_server e)) = reached e
    asked (pushed ids trace e) = false
    asked (batch jobs) = true

    abbrev after_pop : Reply × Store → Session Store → Outcome × Session Store
    after_pop (r, store) s = next_reply (s.unread ++ (outcome_of r ∷ [])) (λ left. record s {
      unread = left;
      made = if asked r then suc s.made else s.made;
      store = store;
    })

    abbrev after_line : Outcome → Session Store → Outcome × Session Store
    after_line r s = next_reply (s.unread ++ (r ∷ [])) (λ left. record s { unread = left })

    abbrev made_by_push : List Text → ℕ → ℕ
    made_by_push [] n = n
    made_by_push (meta ∷ contents) n = (parse_job gen service meta contents n).1

    -- redeo finds the handlers by names in lower case.
    abbrev handle : Text → List Text → Session Store → Outcome × Session Store
    handle name args s =
        if text_eq name (codes "auth")
        then authenticated (auth confs args s.login) s
        else if text_eq name (codes "ping")
        then after_line (outcome_of (ping s.login)) s
        else if text_eq name (codes "lpush")
        then after_push (made_by_push args s.made)
            (lpush codec server gen service ms s.login args s.made s.store) s
        else if text_eq name (codes "rpop")
        then after_pop (rpop codec server ms s.login args (gen_trace_id gen service s.made) s.store)
            s
        else if text_eq name (codes "info")
        then after_line (answer (v_bytes print.info)) s
        else after_line (error (print.unknown name)) s

    -- A command of the client: it is handled, and a reply is read.
    unfoldable pub serve_command : Text → List Arg → Session Store → Outcome × Session Store
    unfolding auth ping lpush rpop parse_job gen_trace_id
    serve_command name args s = handle (map lower name) (texts_of args) s

    -- The connection that the client's commands use.
    abbrev pub connected : Conn
    connected = record { Store = Session Store; call = serve_command; call_n = serve_command }
