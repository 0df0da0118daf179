-- ===== src/Setting/Serving.antt =====
-- setting.go and mux_server.go together: from the settings to the muxers that run.
use pepperbus.Base.{
  ℕ, ◌≡◌, refl, ap, ◌∙◌, List, [], ◌∷◌, Bool, true, false, ◌||◌, ◌&&◌, not, Option, none, some,
  arith, if◌then◌else◌, ◌==◌, All, inl, inr, Option-cases,
}
use pepperbus.Base.Text.{Text}
use pepperbus.Base.Map.{Map, lookup, is_some, Distinct, lookup-All}
use pepperbus.Config.{TopicConfig, QueueConfig, run_type_cgi, run_type_http, run_type_cmd}
use pepperbus.Config.Tags.{enable_topic, mark_tags}
use pepperbus.Config.Tags.Marked.{changed, flag, topic_of}
use pepperbus.Config.Tags.Machine.{tags_name_queue, tags_name_topic, mark_tags_lem}
use pepperbus.Config.Tags.Kept.{Proper, mark_tags-kept}
use pepperbus.Ids.{service_id}
use pepperbus.MuxServer.{
  Kind, cgi, http, cmd, Muxer, Cmd, new_mux_server, start_topic, serve, update_configs, muxers,
}
use pepperbus.MuxServer.Converge.{Keyed, settled_at, update_configs-settled}
use pepperbus.MuxServer.Muxers.{expected, TopicsDistinct, serve-muxers}
use pepperbus.Setting.{
  Global, Settings, Stored, Decoders, parse_queue_config, update_server, update_setting,
}

-- What a muxer is started as: its kind, and whether it serves.
abbrev pub started_as : Option Muxer → Option (Kind × Bool)
started_as none = none
started_as (some m) = some (m.kind, m.serving)

-- What the run type of a topic asks for, given whether the topic is enabled on this machine.
abbrev pub asked : Bool → Bool → Option TopicConfig → Option (Kind × Bool)
asked disabled enabled none = none
asked disabled enabled (some c) =
    if c.run_type == run_type_cgi
    then some (cgi, not disabled && enabled)
    else if c.run_type == run_type_http
    then some (http, not disabled && enabled)
    else if c.run_type == run_type_cmd
    then some (cmd, enabled)
    else none

abbrev pub on : Option TopicConfig → Bool
on none = false
on (some c) = c.consumer_enable

expected-asked :
    (disabled : Bool) (t : Text) (o : Option QueueConfig)
    → started_as (expected disabled t o)
      ≡ asked disabled (flag o || on (topic_of t o)) (topic_of t o)
unfolding start_topic
expected-asked disabled t none = refl
expected-asked disabled t (some q) = elim (Option-cases (lookup t q.topic)) [
  | inl missing ↦ rw missing refl
  | inr (c, found) ↦ rw found (ground arith)
]

-- The enabling by queue and the enabling by topic come to the same.
either_enables :
    (disabled queue_named topic_named : Bool) (t : Text) (o : Option QueueConfig)
    → flag o ≡ false
    → on (topic_of t o) ≡ false
    → (let topic' = if topic_named then changed enable_topic (topic_of t o) else topic_of t o in
        asked disabled ((flag o || (is_some o && queue_named)) || on topic') topic'
        ≡ asked disabled (queue_named || topic_named) (topic_of t o))
either_enables disabled queue_named true t none h k = refl
either_enables disabled queue_named false t none h k = refl
either_enables disabled queue_named topic_named t (some q) h k =
    elim (Option-cases (lookup t q.topic)) [
      | inl missing ↦ rw missing (ground arith)
      | inr (c, found) ↦ rw found (ground (arith, h, rw found at k))
    ]

settled_new :
    (deep_equal : QueueConfig → QueueConfig → Bool) (o : Option QueueConfig)
    → settled_at deep_equal o none ≡ o
settled_new deep_equal none = refl
settled_new deep_equal (some q) = refl

Proper-Keyed : (m : Map QueueConfig) → All Proper m → Keyed m
Proper-Keyed [] h = tt
Proper-Keyed ((n, q) ∷ m) ((own, d), h) = (own, Proper-Keyed m h)

TopicsDistinct-lookup :
    (m : Map QueueConfig) (n : Text) → All Proper m → TopicsDistinct (lookup n m)
TopicsDistinct-lookup m n h = elim (Option-cases (lookup n m)) [
  | inl missing ↦ rw missing tt
  | inr (q, found) ↦ rw found (lookup-All Proper n q m h found).1
]

-- The commands of the first update, served by a new server.
first_update :
    (deep_equal : QueueConfig → QueueConfig → Bool) (disabled : ℕ → Text → Bool)
    (configs : Map QueueConfig) (n : Text)
    → All Proper configs
    → Distinct configs
    → (let ms = serve disabled (update_configs deep_equal configs new_mux_server) new_mux_server in
        (i : ℕ) × ((t : Text)
          → lookup t (muxers (lookup n ms.mux)) ≡ expected (disabled i t) t (lookup n configs)))
unfolding new_mux_server lookup
first_update deep_equal disabled configs n proper distinct =
    let cmds = update_configs deep_equal configs new_mux_server in
    let stored : lookup n (serve disabled cmds new_mux_server).queue_config ≡ lookup n configs =
      update_configs-settled deep_equal disabled configs new_mux_server n
        (Proper-Keyed configs proper) distinct tt
      ∙ settled_new deep_equal (lookup n configs) in
    let (i, at) =
      serve-muxers disabled cmds n (rw stored (TopicsDistinct-lookup configs n proper)) in
    (i, λ t. at t ∙ ap (expected (disabled i t) t) stored)

-- Let the queues and the tags of the settings decode, no queue and no topic standing twice and each
-- queue under its own name, and let the queue and its topics not be enabled before (no JSON enables
-- them). Then `UpdateSetting` on a new server stores the addresses and ports of the gateway and of
-- the admin interface, and the queues as the tags mark them; and once its commands are served, each
-- topic of the queue has a muxer exactly if it is configured with a known run type. Its kind is that
-- of the run type, and it serves exactly if a tag of the machine names its queue without topics or
-- the topic itself, and, for CGI and HTTP, consumers were not disabled when one and the same of the
-- commands was served.
pub update_setting-serves :
    (deep_equal : QueueConfig → QueueConfig → Bool) (d : Decoders) (disabled : ℕ → Text → Bool)
    (g : Global) (inner_ip : Text) (s : Settings) (configs : Map QueueConfig)
    (mapping : Map (Map (List Text))) (n : Text)
    → d.queues s.queue_config ≡ some configs
    → d.mapping s.tags_mapping ≡ some mapping
    → All Proper configs
    → Distinct configs
    → flag (lookup n configs) ≡ false
    → ((t : Text) → on (topic_of t (lookup n configs)) ≡ false)
    → (stored : Stored) × (cmds : List Cmd) × (update_setting deep_equal d g inner_ip s
          new_mux_server
        ≡ some (stored, cmds))
      × (stored.queues ≡ mark_tags s.tags mapping configs)
      × (stored.server.gateway_ip ≡ g.gateway_ip)
      × (stored.server.gateway_port ≡ g.gateway_port)
      × (stored.server.admin_ip ≡ g.admin_ip)
      × (stored.server.admin_port ≡ g.admin_port)
      × (i : ℕ) × ((t : Text)
          → started_as (lookup t (muxers (lookup n (serve disabled cmds new_mux_server).mux)))
            ≡ asked
                (disabled i t)
                (tags_name_queue n s.tags mapping || tags_name_topic n t s.tags mapping)
                (topic_of t (lookup n configs)))
unfolding update_setting parse_queue_config
update_setting-serves deep_equal d disabled g inner_ip s configs mapping n hq hm proper distinct off
      off_topic =
    let marked = mark_tags s.tags mapping configs in
    let (proper', distinct') = mark_tags-kept s.tags mapping configs proper distinct in
    let (i, runs) = first_update deep_equal disabled marked n proper' distinct' in
    (
      record { server = update_server g; queues = marked; id = service_id inner_ip g.gateway_port },
      update_configs deep_equal marked new_mux_server,
      rw (hq, hm) refl,
      refl,
      unfold update_server in refl,
      unfold update_server in refl,
      unfold update_server in refl,
      unfold update_server in refl,
      i,
      λ t.
          let (flags, topics) = mark_tags_lem s.tags mapping configs n t in
          ap started_as (runs t)
          ∙ expected-asked (disabled i t) t (lookup n marked)
          ∙ (rw (flags, topics)
              (either_enables (disabled i t) (tags_name_queue n s.tags mapping)
                (tags_name_topic n t s.tags mapping) t (lookup n configs) off (off_topic t))),
    )
