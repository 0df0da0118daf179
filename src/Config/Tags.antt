-- ===== src/Config/Tags.antt =====
-- setting.go, `parseQueueConfig`: the tags of a machine say which queues and topics it consumes.
pub mod Marked
pub mod Machine
pub mod Kept
use pepperbus.Base.{List, [], ◌∷◌, Bool, true, Option, none, some}
use pepperbus.Base.Text.{Text}
use pepperbus.Base.Map.{Map, lookup, insert}
use pepperbus.Config.{TopicConfig, QueueConfig}

-- The configuration of a key, changed where there is one.
unfoldable pub update_at {ℓ} : {V : Type ℓ} → Text → (V → V) → Map V → Map V
update_at k f m = elim (lookup k m) [ none ↦ m | some v ↦ insert k (f v) m ]

abbrev pub enable_topic : TopicConfig → TopicConfig
enable_topic t = record t { consumer_enable = true }

-- The loop over the topics of an entry.
unfoldable pub enable_topics : List Text → Map TopicConfig → Map TopicConfig
unfolding update_at
enable_topics [] m = m
enable_topics (t ∷ ts) m = enable_topics ts (update_at t enable_topic m)

-- An entry without topics enables the whole queue.
abbrev pub enable_queue : List Text → QueueConfig → QueueConfig
enable_queue [] q = record q { consumer_enable = true }
enable_queue (t ∷ ts) q = record q { topic = enable_topics (t ∷ ts) q.topic }

-- The entries of one tag.
unfoldable pub mark_entries : Map (List Text) → Map QueueConfig → Map QueueConfig
unfolding enable_topics
mark_entries [] configs = configs
mark_entries ((queue, topics) ∷ rest) configs =
    mark_entries rest (update_at queue (enable_queue topics) configs)

abbrev of_tag : Option (Map (List Text)) → Map QueueConfig → Map QueueConfig
of_tag none configs = configs
of_tag (some entries) configs = mark_entries entries configs

-- The tags of the machine.
unfoldable pub mark_tags : List Text → Map (Map (List Text)) → Map QueueConfig → Map QueueConfig
unfolding mark_entries
mark_tags [] mapping configs = configs
mark_tags (tag ∷ tags) mapping configs =
    mark_tags tags mapping (of_tag (lookup tag mapping) configs)
