-- ===== src/Gateway/Session/Behind.antt =====
-- gateway.go, `lpush` and redeo: a client that reads one reply for each of its commands.
use pepperbus.Base.{ℕ, zero, suc, ◌≡◌, refl, ap, ◌∙◌, List, [], ◌∷◌, ◌++◌, true, none, some}
use pepperbus.Base.Text.{Text, codes, text_eq}
use pepperbus.Base.Map.{Map, lookup}
use pepperbus.Base.Split.{Without}
use pepperbus.Config.{QueueConfig}
use pepperbus.Gateway.{named, pong, ping, pushed, from_server, check_auth}
use pepperbus.Gateway.Push.{command_batch, lpush_failed}
use pepperbus.Gateway.Session.{Printers, Session, texts_of, outcome_of, serve_command}
use pepperbus.Job.{Codec}
use pepperbus.Job.Parse.{slash, gen_trace_id, parse_job}
use pepperbus.MuxServer.{MuxServer}
use pepperbus.MuxServer.Dispatch.{no_queue, add_jobs}
use pepperbus.Redis.Call.{Outcome}
use pepperbus.Redis.Resp.{Arg}
use pepperbus.Redis.Wire.{Server}

may_ping : (v : Text) → ping (named v) ≡ pong
unfolding ping check_auth text_eq
may_ping [] = refl
may_ping (c ∷ v) = refl

abbrev pub times : ℕ → Outcome → List Outcome → List Outcome
times zero r rest = rest
times (suc n) r rest = r ∷ times n r rest

module _ (print : Printers) (codec : Codec) (server : Server) (gen : ℕ → ℕ) (service : Text)
    (confs : Map QueueConfig) (ms : MuxServer) where
  open server use {Store}

  abbrev issue : Text → List Arg → Session Store → Outcome × Session Store
  issue = serve_command print codec server gen service confs ms

  -- The replies that the client reads to a number of PINGs, and the session behind them.
  unfoldable pub pings : ℕ → Session Store → List Outcome × Session Store
  pings zero s = ([], s)
  pings (suc n) s =
      let (r, s1) = issue (codes "PING") [] s in let (rs, s2) = pings n s1 in (r ∷ rs, s2)

  -- A client that is one reply behind stays one reply behind.
  ping-behind :
      (v : Text) (r : Outcome) (s : Session Store)
      → s.login ≡ named v
      → s.unread ≡ r ∷ []
      → issue (codes "PING") [] s ≡ (r, record s { unread = outcome_of print pong ∷ [] })
  unfolding serve_command text_eq
  ping-behind v r s who behind = rw (behind, who, may_ping v) refl

  pings-behind :
      (n : ℕ) (v : Text) (s : Session Store)
      → s.login ≡ named v
      → s.unread ≡ outcome_of print pong ∷ []
      → ((pings n s).0 ≡ times n (outcome_of print pong) [])
        × ((pings n s).1.unread ≡ outcome_of print pong ∷ [])
        × ((pings n s).1.store ≡ s.store)
  unfolding pings
  pings-behind zero v s who behind = (refl, behind, refl)
  pings-behind (suc n) v s who behind =
      let s1 : Session Store = record s { unread = outcome_of print pong ∷ [] } in
      let (replies, left, kept) = pings-behind n v s1 who refl in
      rw (ping-behind v (outcome_of print pong) s who behind)
        (ap (λ rs. outcome_of print pong ∷ rs) replies, left, kept)

  no_muxer :
      (q : Text) (contents : List Text) (n : ℕ) (s : Store)
      → lookup q ms.mux ≡ none
      → add_jobs codec server ms (command_batch gen service q contents n) s
        ≡ some (some (no_queue q), command_batch gen service q contents n, s)
  unfolding add_jobs
  no_muxer q contents n s absent = rw absent refl

  -- The error of a push is read, and its copy is left.
  push-behind :
      (v q t : Text) (contents : List Text) (args : List Arg) (s : Session Store)
      → Without slash q
      → texts_of args ≡ (q ++ slash ∷ t) ∷ contents
      → s.login ≡ named v
      → check_auth (named v) q [] ≡ true
      → s.unread ≡ []
      → lookup q ms.mux ≡ none
      → (let trace = gen_trace_id gen service s.made in
          let error = outcome_of print (pushed [] trace (some (from_server (no_queue q)))) in
          (s1 : Session Store) × (issue (codes "LPUSH") args s ≡ (error, s1))
          × (s1.login ≡ named v)
          × (s1.unread ≡ error ∷ [])
          × (s1.store ≡ s.store))
  unfolding serve_command text_eq
  push-behind v q t contents args s no_slash command who allowed read absent =
      let (o, run, replies, counted, kept) =
        lpush_failed codec server gen service ms (named v) q t contents s.made s.store (no_queue q)
          _ _ no_slash allowed (no_muxer q contents s.made s.store absent) in
      let trace = gen_trace_id gen service s.made in
      (
        record s {
          unread = outcome_of print (pushed [] trace (some (from_server (no_queue q)))) ∷ [];
          made = (parse_job gen service (q ++ slash ∷ t) contents s.made).1;
          store = o.store;
        },
        rw (command, who, run, read, replies) refl,
        who,
        refl,
        kept,
      )

  -- A client that has logged in, with no unread reply, and may use a queue pushes to it, and the
  -- queue is not served (it is not configured, or has been removed). Then the client reads the
  -- error, and a second copy of it is left, which it reads as the reply to its next command: from
  -- then on it is one reply behind. However many PINGs it sends, the first is answered by the error,
  -- every other by the reply to the PING before, and one reply is left; the store stays as it was.
  -- (For a queue name without a slash.)
  pub lpush-behind :
      (v q t : Text) (contents : List Text) (args : List Arg) (n : ℕ) (s : Session Store)
      → Without slash q
      → texts_of args ≡ (q ++ slash ∷ t) ∷ contents
      → s.login ≡ named v
      → check_auth (named v) q [] ≡ true
      → s.unread ≡ []
      → lookup q ms.mux ≡ none
      → (let trace = gen_trace_id gen service s.made in
          let error = outcome_of print (pushed [] trace (some (from_server (no_queue q)))) in
          let (first, s1) = issue (codes "LPUSH") args s in
          let (replies, s2) = pings (suc n) s1 in
          (first ≡ error)
          × (replies ≡ error ∷ times n (outcome_of print pong) [])
          × (s2.unread ≡ outcome_of print pong ∷ [])
          × (s2.store ≡ s.store))
  unfolding pings
  lpush-behind v q t contents args n s no_slash command who allowed read absent =
      let (s1, pushed_to, who1, left1, kept1) =
        push-behind v q t contents args s no_slash command who allowed read absent in
      let trace = gen_trace_id gen service s.made in
      let error = outcome_of print (pushed [] trace (some (from_server (no_queue q)))) in
      let s2 : Session Store = record s1 { unread = outcome_of print pong ∷ [] } in
      let (replies, left, kept) = pings-behind n v s2 who1 refl in
      rw (pushed_to, ping-behind v error s1 who1 left1)
        (refl, ap (λ rs. error ∷ rs) replies, left, kept ∙ kept1)
