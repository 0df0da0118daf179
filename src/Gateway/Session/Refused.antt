-- ===== src/Gateway/Session/Refused.antt =====
-- gateway.go: what a client can do that does not know a password.
use pepperbus.Base.{
  ℕ, ◌≡◌, refl, ◌∙◌, List, [], ◌∷◌, ◌++◌, map, false, Option, none, some, All, inl, inr, Bool-cases,
}
use pepperbus.Base.Text.{Text, codes, split, split_once, text_eq, text_eq_iff}
use pepperbus.Base.Map.{Map}
use pepperbus.Config.{QueueConfig}
use pepperbus.Gateway.{
  Login, unset, refused, named, colon, login_names, accepts, auth, login, check_auth, Pushed,
  push_parsed, lpush, pop_named, rpop,
}
use pepperbus.Gateway.Auth.{Password, accepts_lem}
use pepperbus.Gateway.Session.{
  Printers, Session, texts_of, outcome_of, next_reply, after_push, serve_command,
}
use pepperbus.Job.{Jobs, Codec}
use pepperbus.Job.Parse.{slash, parse_job}
use pepperbus.MuxServer.{MuxServer}
use pepperbus.Redis.Call.{Outcome}
use pepperbus.Redis.Commands.Lists.{lower}
use pepperbus.Redis.Resp.{Arg}
use pepperbus.Redis.Wire.{Server}

-- The login of a client that has not logged in.
abbrev pub Outside : Login → Type 0
Outside unset = Unit
Outside refused = Unit
Outside (named v) = ⊥

Outside-check_auth : (who : Login) (q t : Text) → Outside who → check_auth who q t ≡ false
unfolding check_auth
Outside-check_auth unset q t out = refl
Outside-check_auth refused q t out = refl
Outside-check_auth (named v) q t out = absurd out

-- The argument of `auth` names no queue and no topic with its password.
abbrev pub Wrong : Map QueueConfig → List Text → Type 0
Wrong confs args =
    (arg name password : Text) (rest more : List Text)
    → args ≡ arg ∷ rest
    → split colon arg ≡ name ∷ password ∷ more
    → ¬ Password confs (login_names (split slash name)).0 (login_names (split slash name)).1
        password

module _ (confs : Map QueueConfig) where
  login-Outside :
      (fields : List Text)
      → ((name password : Text) (more : List Text)
          → fields ≡ name ∷ password ∷ more
          → ¬ Password confs
              (login_names (split slash name)).0
              (login_names (split slash name)).1
              password)
      → Outside (login confs fields).1
  unfolding login
  login-Outside [] wrong = tt
  login-Outside (name ∷ []) wrong = tt
  login-Outside (name ∷ password ∷ more) wrong =
      let (q, t) = login_names (split slash name) in
      elim (Bool-cases (accepts confs q t password)) [
        | inl hit ↦ absurd (wrong name password more refl ((accepts_lem confs q t password).0 hit))
        | inr miss ↦ rw miss tt
      ]

  auth-Outside :
      (args : List Text) (before : Login)
      → Outside before
      → Wrong confs args
      → Outside (auth confs args before).1
  unfolding auth
  auth-Outside [] before out wrong = out
  auth-Outside (arg ∷ rest) before out wrong =
      login-Outside (split colon arg)
        (λ name password more e. wrong arg name password rest more refl e)

module _ (codec : Codec) (server : Server) where
  open server use {Store}

  -- The store behind a push; a panic leaves it.
  abbrev store_of : Option (Pushed Store) → Store → Store
  store_of none s = s
  store_of (some o) s = o.store

  push_parsed-store :
      (ms : MuxServer) (who : Login) (meta : Text) (batch : Option (Jobs × List Text)) (s : Store)
      → Outside who
      → store_of (push_parsed codec server ms who meta batch s) s ≡ s
  unfolding push_parsed
  push_parsed-store ms who meta none s out = refl
  push_parsed-store ms who meta (some (jobs, ids)) s out =
      rw (Outside-check_auth who jobs.queue_name jobs.topic_name out) refl

  lpush-store :
      (gen : ℕ → ℕ) (service : Text) (ms : MuxServer) (who : Login) (args : List Text) (n : ℕ)
      (s : Store)
      → Outside who
      → store_of (lpush codec server gen service ms who args n s) s ≡ s
  unfolding lpush
  lpush-store gen service ms who [] n s out = refl
  lpush-store gen service ms who (meta ∷ contents) n s out =
      push_parsed-store ms who meta (parse_job gen service meta contents n).0 s out

  pop_named-store :
      (ms : MuxServer) (who : Login) (meta : Text) (names : Option (Text × Text)) (trace : Text)
      (s : Store)
      → Outside who
      → (pop_named codec server ms who meta names trace s).1 ≡ s
  unfolding pop_named
  pop_named-store ms who meta none trace s out = refl
  pop_named-store ms who meta (some (q, t)) trace s out = rw (Outside-check_auth who q t out) refl

  rpop-store :
      (ms : MuxServer) (who : Login) (args : List Text) (trace : Text) (s : Store)
      → Outside who
      → (rpop codec server ms who args trace s).1 ≡ s
  unfolding rpop
  rpop-store ms who [] trace s out = refl
  rpop-store ms who (meta ∷ args) trace s out =
      pop_named-store ms who meta (split_once slash meta) trace s out

-- What holds of every way to go on holds after the next reply.
after_reply :
    {A : Type 0} (print : Printers) (P : A → Type 0) (rs : List Outcome) (rest : List Outcome → A)
    → ((left : List Outcome) → P (rest left))
    → P (next_reply print rs rest).1
after_reply print P [] rest every = every []
after_reply print P (r ∷ rs) rest every = every rs

module _ (print : Printers) (codec : Codec) (server : Server) (gen : ℕ → ℕ) (service : Text)
    (confs : Map QueueConfig) (ms : MuxServer) where
  open server use {Store}

  -- The client is outside, and the store is as it was.
  abbrev Shut : Store → Session Store → Type 0
  Shut store s = Outside s.login × (s.store ≡ store)

  -- No `auth` among the commands has the password of what it names.
  abbrev pub NoPassword : Text × List Arg → Type 0
  NoPassword (name, args) = map lower name ≡ codes "auth" → Wrong confs (texts_of args)

  push-Shut :
      (o : Option (Pushed Store)) (made : ℕ) (s : Session Store)
      → Outside s.login
      → store_of codec server o s.store ≡ s.store
      → Shut s.store (after_push print codec server gen service confs ms made o s).1
  push-Shut none made s out same = after_reply print (Shut s.store) s.unread _ (λ left. (out, refl))
  push-Shut (some o) made s out same =
      after_reply print (Shut s.store) (s.unread ++ map (outcome_of print) o.replies) _
        (λ left. (out, same))

  serve_command-Shut :
      (name : Text) (args : List Arg) (s : Session Store)
      → Outside s.login
      → NoPassword (name, args)
      → Shut s.store (serve_command print codec server gen service confs ms name args s).1
  unfolding serve_command
  serve_command-Shut name args s out no_password =
      elim (Bool-cases (text_eq (map lower name) (codes "auth"))) [
        | inl is_auth ↦ rw is_auth (
            after_reply print (Shut s.store) _ _ (λ left. (
              auth-Outside confs (texts_of args) s.login out
                  (no_password ((text_eq_iff (map lower name) (codes "auth")).0 is_auth)),
              refl,
            )))
        | inr not_auth ↦ elim (Bool-cases (text_eq (map lower name) (codes "ping"))) [
          | inl is_ping ↦
              rw (not_auth, is_ping) (after_reply print (Shut s.store) _ _ (λ left. (out, refl)))
          | inr not_ping ↦ elim (Bool-cases (text_eq (map lower name) (codes "lpush"))) [
            | inl is_push ↦
                rw (not_auth, not_ping, is_push)
                  (push-Shut _ _ s out (
                    lpush-store codec server gen service ms s.login (texts_of args) s.made s.store
                      out))
            | inr not_push ↦ elim (Bool-cases (text_eq (map lower name) (codes "rpop"))) [
              | inl is_pop ↦
                  rw (not_auth, not_ping, not_push, is_pop)
                    (after_reply print (Shut s.store) _ _ (λ left.
                      (out, rpop-store codec server ms s.login (texts_of args) _ s.store out)))
              | inr not_pop ↦ elim (Bool-cases (text_eq (map lower name) (codes "info"))) [
                | inl is_info ↦
                    rw (not_auth, not_ping, not_push, not_pop, is_info)
                      (after_reply print (Shut s.store) _ _ (λ left. (out, refl)))
                | inr not_info ↦
                    rw (not_auth, not_ping, not_push, not_pop, not_info)
                      (after_reply print (Shut s.store) _ _ (λ left. (out, refl)))
              ]
            ]
          ]
        ]
      ]

  -- The session after commands of the client.
  unfoldable pub served : List (Text × List Arg) → Session Store → Session Store
  served [] s = s
  served ((name, args) ∷ cs) s =
      served cs (serve_command print codec server gen service confs ms name args s).1

  -- A client that is not logged in sends any commands, none of which is an `auth` with the password
  -- of the queue or the topic that it names. Then the store stays as it was: nothing is pushed and
  -- nothing is taken; and the client is still not logged in.
  pub served-store :
      (cs : List (Text × List Arg)) (s : Session Store)
      → Outside s.login
      → All NoPassword cs
      → ((served cs s).store ≡ s.store) × Outside (served cs s).login
  unfolding served
  served-store [] s out wrong = (refl, out)
  served-store ((name, args) ∷ cs) s out (no_password, wrong) =
      let s' = (serve_command print codec server gen service confs ms name args s).1 in
      let (out', same) = serve_command-Shut name args s out no_password in
      let (kept, still) = served-store cs s' out' wrong in (kept ∙ same, still)
