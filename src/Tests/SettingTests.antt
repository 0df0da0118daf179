-- ===== src/Tests/SettingTests.antt =====
-- The theorem of the settings at a concrete configuration.
use pepperbus.Base.{
  ℕ, inl, inr, Bool-cases, ◌≡◌, refl, [], ◌∷◌, List, Bool, true, false, ◌||◌, Option, none, some,
}
use pepperbus.Base.Map.{Map, lookup, insert}
use pepperbus.Base.Text.{Text, codes, text_eq}
use pepperbus.Config.{QueueConfig}
use pepperbus.Config.Tags.{mark_tags, mark_entries, enable_topics, update_at}
use pepperbus.Config.Tags.Marked.{topic_of}
use pepperbus.Config.Tags.Machine.{tags_name_queue, tags_name_topic}
use pepperbus.MuxServer.{
  Cmd, new_mux_server, muxers, serve, serve_cmd, start_topic, start_topics, update_configs, updates,
  removals, cgi,
}
use pepperbus.Setting.{Global, Settings, Decoders, Stored, update_setting}
use pepperbus.Setting.Serving.{started_as, asked, on, update_setting-serves}
use pepperbus.Tests.MuxServerTests.{enabled, topic_conf, queue_conf}
use pepperbus.Tests.Sample.{queue, topic}

abbrev configs : Map QueueConfig
configs =
    (
      queue,
      record queue_conf { topic = (topic, record topic_conf { consumer_enable = false }) ∷ [] },
    )
    ∷ []

-- The second tag names the topic of the queue, and a queue that does not exist.
abbrev mapping : Map (Map (List Text))
mapping = (codes "idle", []) ∷ (codes "busy", (codes "other", []) ∷ (queue, topic ∷ []) ∷ []) ∷ []

abbrev decode_queues : Text → Option (Map QueueConfig)
decode_queues [] = none
decode_queues (c ∷ s) = some configs

abbrev decode_mapping : Text → Option (Map (Map (List Text)))
decode_mapping [] = none
decode_mapping (c ∷ s) = some mapping

abbrev decoders : Decoders
decoders = record { queues = decode_queues; mapping = decode_mapping }

abbrev tags : List Text
tags = codes "idle" ∷ codes "busy" ∷ []

abbrev settings : Settings
settings = record { queue_config = codes "{}"; tags_mapping = codes "{}"; tags = tags }

abbrev global : Global
global = record {
  gateway_ip = codes "0.0.0.0";
  gateway_port = codes "12017";
  admin_ip = codes "0.0.0.0";
  admin_port = codes "19840";
}

abbrev never_equal : QueueConfig → QueueConfig → Bool
never_equal a b = false

-- No topic of the queue is enabled before.
off_at : (t : Text) → on (topic_of t (lookup queue configs)) ≡ false
unfolding lookup text_eq
off_at t = elim (Bool-cases (text_eq topic t)) [ inl hit ↦ rw hit refl | inr miss ↦ rw miss refl ]

update_setting-serves_example :
    (stored : Stored) × (cmds : List Cmd) × (update_setting never_equal decoders global
        (codes "10.0.0.1")
        settings
        new_mux_server
      ≡ some (stored, cmds))
    × (stored.queues ≡ mark_tags tags mapping configs)
    × (stored.server.gateway_ip ≡ codes "0.0.0.0")
    × (stored.server.gateway_port ≡ codes "12017")
    × (stored.server.admin_ip ≡ codes "0.0.0.0")
    × (stored.server.admin_port ≡ codes "19840")
    × (i : ℕ) × ((t : Text)
        → started_as (lookup t (muxers (lookup queue (serve enabled cmds new_mux_server).mux)))
          ≡ asked
              (enabled i t)
              (tags_name_queue queue tags mapping || tags_name_topic queue t tags mapping)
              (topic_of t (lookup queue configs)))
unfolding lookup text_eq
update_setting-serves_example =
    update_setting-serves never_equal decoders enabled global (codes "10.0.0.1") settings configs
      mapping queue refl refl ((refl, (refl, tt)), tt) (refl, tt) refl (λ t. off_at t)

-- The muxer of the topic serves.
serves :
    started_as (
      lookup topic (
        muxers (
          lookup queue
            (serve enabled
              (update_configs never_equal (mark_tags tags mapping configs) new_mux_server)
              new_mux_server).mux)))
    ≡ some (cgi, true)
unfolding mark_tags mark_entries enable_topics update_at lookup insert text_eq update_configs
    updates removals serve serve_cmd start_topics start_topic new_mux_server
serves = refl
