-- ===== src/Sdk/Client/Delivers.antt =====
-- client.go against gateway.go: what becomes of the jobs that a client pushes.
use pepperbus.Base.{
  ℕ, ◌≡◌, ◌≢◌, refl, ap, List, [], ◌∷◌, ◌++◌, map, Bool, true, false, none, some, All,
  if◌then◌else◌,
}
use pepperbus.Base.Text.{Text, codes, text_eq, text_eq_refl}
use pepperbus.Base.Map.{Map, lookup, is_some}
use pepperbus.Base.Split.{Without, split-append, split_single}
use pepperbus.Config.{QueueConfig, TopicConfig}
use pepperbus.Gateway.{
  Login, named, refused, okay, failure, invalid_password, accepts, auth, login, check_auth, colon,
  Pushed, lpush, full_name, pushed,
}
use pepperbus.Gateway.Push.{command_batch, lpush-delivers}
use pepperbus.Gateway.Session.{Printers, Session, texts_of, serve_command, connected}
use pepperbus.Job.{Job, Codec, RoundTrip}
use pepperbus.Job.Parse.{slash, parse_job}
use pepperbus.MuxServer.{MuxServer, muxers}
use pepperbus.MuxServer.Dispatch.{fresh_retry}
use pepperbus.MuxServer.Dispatch.FanOut.{received_by}
use pepperbus.MuxServer.Muxers.{Inv}
use pepperbus.Redis.Wire.{Server}
use pepperbus.Redis.Healthy.{Healthy}
use pepperbus.Redis.Resp.{arg_bytes}
use pepperbus.Redis.Commands.{Conn, out, call_failed, response_type, minus_one, texts}
use pepperbus.Redis.Commands.Keys
use pepperbus.Redis.Commands.Lists
use pepperbus.Sdk.Client.{
  Content, Marshalled, collected, not_added, collect, authenticate, add_jobs,
}
use pepperbus.Storage.Topic.{view}

texts_of-texts : (xs : List Text) → texts_of (texts xs) ≡ xs
unfolding arg_bytes
texts_of-texts [] = refl
texts_of-texts (x ∷ xs) = ap (λ ys. x ∷ ys) (texts_of-texts xs)

-- The argument of `Auth` is read back as the queue and its password.
auth-named :
    (confs : Map QueueConfig) (q password : Text) (before : Login)
    → Without slash q
    → Without colon q
    → Without colon password
    → auth confs ((q ++ colon ∷ password) ∷ []) before ≡ (
        if accepts confs q [] password
        then (okay, named q)
        else (failure invalid_password, refused))
unfolding auth login
auth-named confs q password before no_slash no_colon plain =
    rw (split-append colon q password no_colon, split_single colon password plain, login)
      (rw (split_single slash q no_slash) refl)

may_push : (q : Text) → check_auth (named q) q [] ≡ true
unfolding check_auth full_name
may_push q = rw (text_eq_refl q) refl

module _ (print : Printers) (codec : Codec) (server : Server) (gen : ℕ → ℕ) (service : Text)
    (confs : Map QueueConfig) (ms : MuxServer) where
  open server use {Store}

  -- The connection to the gateway.
  abbrev conn : Conn
  conn = connected print codec server gen service confs ms

  authenticate-answered :
      (q password : Text) (s : Session Store)
      → Without slash q
      → Without colon q
      → Without colon password
      → s.unread ≡ []
      → accepts confs q [] password ≡ true
      → authenticate conn q password s ≡ (out true none, record s { login = named q; unread = [] })
  unfolding authenticate Keys.auth serve_command arg_bytes text_eq
  authenticate-answered q password s no_slash no_colon plain read ok =
      rw (auth-named confs q password s.login no_slash no_colon plain, ok, read) refl

  authenticate-refused :
      (q password : Text) (s : Session Store)
      → Without slash q
      → Without colon q
      → Without colon password
      → s.unread ≡ []
      → accepts confs q [] password ≡ false
      → authenticate conn q password s ≡ (
        out false (some (call_failed (print.message invalid_password))),
        record s { login = refused; unread = [] },
      )
  unfolding authenticate Keys.auth serve_command arg_bytes text_eq
  authenticate-refused q password s no_slash no_colon plain read wrong =
      rw (auth-named confs q password s.login no_slash no_colon plain, wrong, read) refl

  -- A push with one reply: the reply is a text, not the number that LPUSH waits for.
  lpush-answered :
      (key trace : Text) (xs ids : List Text) (s : Session Store) (o : Pushed Store)
      → s.unread ≡ []
      → lpush codec server gen service ms s.login (key ∷ xs) s.made s.store ≡ some o
      → o.replies ≡ pushed ids trace none ∷ []
      → Lists.lpush conn key xs s ≡ (
        out minus_one (some response_type),
        record s { made = (parse_job gen service key xs s.made).1; unread = []; store = o.store },
      )
  unfolding Lists.lpush serve_command arg_bytes text_eq
  lpush-answered key trace xs ids s o read run replies =
      rw (texts_of-texts xs, run, read, replies) refl

  -- A client without the queue's password gets the gateway's error, and pushes nothing. (For names
  -- and passwords without ':', and names without '/'.)
  pub add_jobs-refused :
      {V : Type 0} (marshal : V → Marshalled) (q password : Text) (contents : List (Content V))
      (xs : List Text) (s : Session Store)
      → collect marshal contents ≡ collected xs
      → Without slash q
      → Without colon q
      → Without colon password
      → s.unread ≡ []
      → accepts confs q [] password ≡ false
      → add_jobs conn marshal q password contents s ≡ (
        not_added (call_failed (print.message invalid_password)),
        record s { login = refused; unread = [] },
      )
  unfolding add_jobs
  add_jobs-refused marshal q password contents xs s texts no_slash no_colon plain read wrong =
      rw (texts, authenticate-refused q password s no_slash no_colon plain read wrong) refl

  module _ (healthy : Healthy server) {IsClean : Job → Type 0}
      (trip : RoundTrip codec IsClean) where
    -- A client with the queue's password pushes contents, at least one, that can be printed, on a
    -- connection with no unread reply, to a configured queue with a muxer, on a server in step with
    -- its configuration. Then every topic with a muxer has the jobs, in their order and with the
    -- topic's retry settings, at the end of its common queue, and the queue's other topics stay as
    -- they were; no reply is left unread. But AddJobs returns a type error all the same: the
    -- gateway answers a push with a text, and the client waits for a number. (For names and
    -- passwords without ':', names without '/', a healthy Redis and jobs that can be encoded.)
    pub add_jobs-delivers :
        {V : Type 0} (marshal : V → Marshalled) (Read : (Text → Bool) → Type 0) (conf : QueueConfig)
        (q password x : Text) (xs : List Text) (contents : List (Content V)) (s : Session Store)
        → collect marshal contents ≡ collected (x ∷ xs)
        → Without slash q
        → Without colon q
        → Without colon password
        → s.unread ≡ []
        → accepts confs q [] password ≡ true
        → Inv Read ms
        → lookup q ms.queue_config ≡ some conf
        → muxers (lookup q ms.mux) ≢ []
        → (let jobs = command_batch gen service q (x ∷ xs) s.made in
            (c : TopicConfig) → All IsClean (map (fresh_retry c) jobs.slice))
        → (s' : Session Store) × (add_jobs conn marshal q password contents s
            ≡ (not_added response_type, s'))
          × (s'.unread ≡ [])
          × ((u : Text)
              → view codec server healthy q u s'.store ≡ (
                  let jobs = command_batch gen service q (x ∷ xs) s.made in
                  if is_some (lookup u (muxers (lookup q ms.mux)))
                  then received_by
                      (lookup u conf.topic)
                      jobs.slice
                      (view codec server healthy q u s.store)
                  else view codec server healthy q u s.store))
    unfolding add_jobs
    add_jobs-delivers marshal Read conf q password x xs contents s texts no_slash no_colon plain
          read ok inv found some_muxer clean =
        let s1 : Session Store = record s { login = named q; unread = [] } in
        let (o, run, (replies, views)) =
          lpush-delivers codec server healthy trip gen service Read ms conf (named q) q
            (codes "default") x xs s.made s.store no_slash (may_push q) inv found some_muxer
            clean in
        (
          record s1 {
            made = (parse_job gen service (q ++ codes "/default") (x ∷ xs) s.made).1;
            store = o.store;
          },
          rw
              (
                texts,
                authenticate-answered q password s no_slash no_colon plain read ok,
                lpush-answered (q ++ codes "/default") _ (x ∷ xs) _ s1 o refl run replies,
              )
              refl,
          refl,
          views,
        )
