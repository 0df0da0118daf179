-- ===== src/MuxServer/Muxers.antt =====
-- mux_server.go, `Serve`: the muxers that run are those that the configuration asks for.
use pepperbus.Base.{
  ◌≡◌, refl, ◌∙◌, List, [], ◌∷◌, Bool, Option, none, some, arith, All, inl, inr, Option-cases,
  Bool-cases, ℕ, suc, ap, sym,
}
use pepperbus.Base.Text.{Text, text_eq, text_eq_iff, text_eq_refl}
use pepperbus.Base.Map.{
  Map, lookup, insert, delete, lookup-insert, lookup-delete, is_some, Distinct, insert-Distinct,
}
use pepperbus.Config.{QueueConfig, TopicConfig}
use pepperbus.MuxServer.{
  MuxServer, Muxer, Cmd, queue_add, queue_del, start_topic, start_topics, with_muxer, serve_cmd,
  serve, new_mux_server, muxers,
}
use pepperbus.MuxServer.Converge.{Keyed}

abbrev pub started : (Text → Bool) → Option QueueConfig → Option (Map Muxer)
started disabled none = none
started disabled (some q) = some (start_topics disabled q q.topic [])

-- A queue runs what its configuration starts, with `ConsumerDisable` as it was read at its start.
abbrev pub Runs : ((Text → Bool) → Type 0) → Option (Map Muxer) → Option QueueConfig → Type 0
Runs Read o config = (d : Text → Bool) × Read d × (o ≡ started d config)

-- Configurations are stored under their names, and each stored queue, and no other, has the muxers
-- that its configuration starts; `Read` tells what `ConsumerDisable` may have been.
pub record Inv (Read : (Text → Bool) → Type 0) (ms : MuxServer) : Type 0 where
  pub keyed : Keyed ms.queue_config
  pub running : (n : Text) → Runs Read (lookup n ms.mux) (lookup n ms.queue_config)

pub new_mux_server-Inv :
    (Read : (Text → Bool) → Type 0) (d : Text → Bool) → Read d → Inv Read new_mux_server
unfolding new_mux_server lookup
new_mux_server-Inv Read d now = record { keyed = tt; running = λ n. (d, now, refl) }

insert-Keyed : (q : QueueConfig) (m : Map QueueConfig) → Keyed m → Keyed (insert q.queue_name q m)
unfolding insert
insert-Keyed q [] k = (refl, tt)
insert-Keyed q ((j, w) ∷ m) (own, k) =
    ground (arith, insert-Keyed q m k, text_eq_iff j q.queue_name)

delete-Keyed : (n : Text) (m : Map QueueConfig) → Keyed m → Keyed (delete n m)
unfolding delete
delete-Keyed n [] k = tt
delete-Keyed n ((j, w) ∷ m) (own, k) = ground (arith, delete-Keyed n m k)

-- Every command keeps the muxers in step with the configuration.
pub serve_cmd-Inv :
    (Read : (Text → Bool) → Type 0) (disabled : Text → Bool) (c : Cmd) (ms : MuxServer)
    → Read disabled
    → Inv Read ms
    → Inv Read (serve_cmd disabled c ms)
unfolding serve_cmd
serve_cmd-Inv Read disabled (queue_add q) ms now inv =
    elim (Bool-cases (is_some (lookup q.queue_name ms.queue_config))) [
      | inl there ↦ rw there inv
      | inr absent ↦ rw absent (record {
        keyed = insert-Keyed q ms.queue_config inv.keyed;
        running = λ n.
            rw
              (
                lookup-insert q.queue_name n _ ms.mux,
                lookup-insert q.queue_name n q ms.queue_config,
              )
              (elim (Bool-cases (text_eq q.queue_name n)) [
                | inl hit ↦ rw hit (disabled, now, refl)
                | inr miss ↦ rw miss (inv.running n)
              ]);
      })
    ]
serve_cmd-Inv Read disabled (queue_del q) ms now inv = record {
  keyed = delete-Keyed q.queue_name ms.queue_config inv.keyed;
  running = λ n.
      rw (lookup-delete q.queue_name n ms.mux, lookup-delete q.queue_name n ms.queue_config)
        (elim (Bool-cases (text_eq q.queue_name n)) [
          | inl hit ↦ rw hit (disabled, now, refl)
          | inr miss ↦ rw miss (inv.running n)
        ]);
}

-- What `ConsumerDisable` was at the commands of a channel.
abbrev pub ReadIn : (ℕ → Text → Bool) → (Text → Bool) → Type 0
ReadIn disabled d = (i : ℕ) × (disabled i ≡ d)

serve-Inv_at :
    (Read : (Text → Bool) → Type 0) (disabled : ℕ → Text → Bool) (cs : List Cmd) (ms : MuxServer)
    → ((i : ℕ) → Read (disabled i))
    → Inv Read ms
    → Inv Read (serve disabled cs ms)
unfolding serve
serve-Inv_at Read disabled [] ms reads inv = inv
serve-Inv_at Read disabled (c ∷ cs) ms reads inv =
    serve-Inv_at Read (λ i. disabled (suc i)) cs (serve_cmd (disabled 0) c ms) (λ i. reads (suc i))
      (serve_cmd-Inv Read (disabled 0) c ms (reads 0) inv)

-- A server that began without queues is in step with its configuration after any commands.
pub serve-Inv :
    (disabled : ℕ → Text → Bool) (cs : List Cmd)
    → Inv (ReadIn disabled) (serve disabled cs new_mux_server)
serve-Inv disabled cs =
    serve-Inv_at (ReadIn disabled) disabled cs new_mux_server (λ i. (i, refl))
      (new_mux_server-Inv (ReadIn disabled) (disabled 0) (0, refl))

abbrev muxer_at : Bool → QueueConfig → Text → Option TopicConfig → Option Muxer → Option Muxer
muxer_at disabled q t none o = o
muxer_at disabled q t (some conf) o = elim (start_topic disabled q t conf) [
  | none ↦ o
  | some m ↦ some m
]

start_topics-lookup :
    (disabled : Text → Bool) (q : QueueConfig) (topics : Map TopicConfig) (m : Map Muxer) (t : Text)
    → Distinct topics
    → lookup t (start_topics disabled q topics m)
      ≡ muxer_at (disabled t) q t (lookup t topics) (lookup t m)
unfolding start_topics lookup
start_topics-lookup disabled q [] m t d = refl
start_topics-lookup disabled q ((name, conf) ∷ rest) m t (fresh, d) =
    start_topics-lookup disabled q rest
      (with_muxer name (start_topic (disabled name) q name conf) m) t d
    ∙ elim (Option-cases (start_topic (disabled name) q name conf)) [
      | inl nothing ↦ ground (arith, text_eq_iff name t)
      | inr (mx, made) ↦ ground (arith, text_eq_iff name t, lookup-insert name t mx m)
    ]

-- The muxer that a configuration, if there is one, asks for at a topic.
abbrev pub expected : Bool → Text → Option QueueConfig → Option Muxer
expected disabled t none = none
expected disabled t (some q) = muxer_at disabled q t (lookup t q.topic) none

abbrev pub TopicsDistinct : Option QueueConfig → Type 0
TopicsDistinct none = Unit
TopicsDistinct (some q) = Distinct q.topic

muxers-expected :
    (disabled : Text → Bool) (config : Option QueueConfig) (t : Text)
    → TopicsDistinct config
    → lookup t (muxers (started disabled config)) ≡ expected (disabled t) t config
muxers-expected disabled none t d = unfold lookup in refl
muxers-expected disabled (some q) t d =
    start_topics-lookup disabled q q.topic [] t d ∙ (unfold lookup in refl)

-- After any commands, at each of which `ConsumerDisable` may be another, a configured queue runs,
-- for each of its topics, the muxer that the topic's configuration starts, with `ConsumerDisable` as
-- it was at one of the commands, and no other; a queue that is not configured runs none. (For a
-- configuration that names no topic of the queue twice.)
pub serve-muxers :
    (disabled : ℕ → Text → Bool) (cs : List Cmd) (n : Text)
    → let ms = serve disabled cs new_mux_server in
      let config = lookup n ms.queue_config in
      TopicsDistinct config
      → (i : ℕ) × ((t : Text)
          → lookup t (muxers (lookup n ms.mux)) ≡ expected (disabled i t) t config)
serve-muxers disabled cs n distinct =
    let ms = serve disabled cs new_mux_server in
    let (d, (i, at), runs) = (serve-Inv disabled cs).running n in
    (
      i,
      λ t.
          rw runs (muxers-expected d (lookup n ms.queue_config) t distinct)
          ∙ ap (λ e. expected (e t) t (lookup n ms.queue_config)) (sym at),
    )

-- A muxer's topic has a configuration.
abbrev pub Configured : Map TopicConfig → Text × Muxer → Type 0
Configured topics (t, mux) = (c : TopicConfig) × (lookup t topics ≡ some c)

insert-Configured :
    (topics : Map TopicConfig) (t : Text) (mux : Muxer) (m : Map Muxer)
    → Configured topics (t, mux)
    → All (Configured topics) m
    → All (Configured topics) (insert t mux m)
unfolding insert
insert-Configured topics t mux [] here rest = (here, tt)
insert-Configured topics t mux ((j, w) ∷ m) here (there, rest) = elim (Bool-cases (text_eq j t)) [
  | inl hit ↦ rw hit (there, rest)
  | inr miss ↦ rw miss (there, insert-Configured topics t mux m here rest)
]

-- The part of the topics that is still to start lies within all topics.
abbrev Within : Map TopicConfig → Map TopicConfig → Type 0
Within topics = All (λ (e : Text × TopicConfig). (c : TopicConfig) × (lookup e.0 topics ≡ some c))

Within-cons :
    (topics part : Map TopicConfig) (e : Text × TopicConfig)
    → Within topics part
    → Within (e ∷ topics) part
unfolding lookup
Within-cons topics [] e w = tt
Within-cons topics ((n, d) ∷ part) (name, conf) ((c, found), w) =
    elim (Bool-cases (text_eq name n)) [
      | inl hit ↦ ((conf, rw hit refl), Within-cons topics part (name, conf) w)
      | inr miss ↦ ((c, rw miss found), Within-cons topics part (name, conf) w)
    ]

Within-self : (topics : Map TopicConfig) → Within topics topics
unfolding lookup
Within-self [] = tt
Within-self ((name, conf) ∷ topics) = (
  (conf, rw (text_eq_refl name) refl),
  Within-cons topics topics (name, conf) (Within-self topics),
)

start_topics_sound :
    (disabled : Text → Bool) (q : QueueConfig) (topics part : Map TopicConfig) (m : Map Muxer)
    → Within topics part
    → All (Configured topics) m
    → Distinct m
    → All (Configured topics) (start_topics disabled q part m)
      × Distinct (start_topics disabled q part m)
unfolding start_topics
start_topics_sound disabled q topics [] m w conf d = (conf, d)
start_topics_sound disabled q topics ((name, c) ∷ part) m (here, w) conf d =
    let made = start_topic (disabled name) q name c in
    elim (Option-cases made) [
      | inl nothing ↦ rw nothing (start_topics_sound disabled q topics part m w conf d)
      | inr (mux, some_mux) ↦ rw some_mux (
          start_topics_sound disabled q topics part (insert name mux m) w
            (insert-Configured topics name mux m here conf) (insert-Distinct name mux m d))
    ]

-- Every muxer that a configuration starts is that of one of its topics, and no topic has two.
pub started_sound :
    (disabled : Text → Bool) (q : QueueConfig)
    → All (Configured q.topic) (start_topics disabled q q.topic [])
      × Distinct (start_topics disabled q q.topic [])
started_sound disabled q =
    start_topics_sound disabled q q.topic q.topic [] (Within-self q.topic) tt tt
