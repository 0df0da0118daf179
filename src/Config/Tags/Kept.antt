-- ===== src/Config/Tags/Kept.antt =====
-- setting.go, `parseQueueConfig`: what the marking keeps.
use pepperbus.Base.{◌≡◌, List, [], ◌∷◌, Option, none, some, inl, inr, Option-cases, All}
use pepperbus.Base.Text.{Text}
use pepperbus.Base.Map.{Map, lookup, Distinct, insert-Distinct, insert-All, lookup-All}
use pepperbus.Config.{TopicConfig, QueueConfig}
use pepperbus.Config.Tags.{
  update_at, enable_topic, enable_topics, enable_queue, mark_entries, of_tag, mark_tags,
}

-- A queue under its own name, with no topic twice.
abbrev pub Proper : Text × QueueConfig → Type 0
Proper (name, q) = (q.queue_name ≡ name) × Distinct q.topic

update_at-Distinct {ℓ} :
    {V : Type ℓ} (k : Text) (f : V → V) (m : Map V) → Distinct m → Distinct (update_at k f m)
unfolding update_at
update_at-Distinct k f m d = elim (Option-cases (lookup k m)) [
  | inl missing ↦ rw (missing, update_at) d
  | inr (v, found) ↦ rw (found, update_at) (insert-Distinct k (f v) m d)
]

update_at-All {ℓ κ} :
    {V : Type ℓ} (P : Text × V → Type κ) (k : Text) (f : V → V) (m : Map V)
    → ((v : V) → P (k, v) → P (k, f v))
    → All P m
    → All P (update_at k f m)
unfolding update_at
update_at-All P k f m keeps h = elim (Option-cases (lookup k m)) [
  | inl missing ↦ rw (missing, update_at) h
  | inr (v, found) ↦
      rw (found, update_at) (insert-All P k (f v) m (keeps v (lookup-All P k v m h found)) h)
]

enable_topics-Distinct :
    (ts : List Text) (m : Map TopicConfig) → Distinct m → Distinct (enable_topics ts m)
unfolding enable_topics
enable_topics-Distinct [] m d = d
enable_topics-Distinct (t ∷ ts) m d =
    enable_topics-Distinct ts (update_at t enable_topic m) (update_at-Distinct t enable_topic m d)

enable_queue-Proper :
    (k : Text) (ts : List Text) (q : QueueConfig) → Proper (k, q) → Proper (k, enable_queue ts q)
enable_queue-Proper k [] q h = h
enable_queue-Proper k (t ∷ ts) q (own, d) = (own, enable_topics-Distinct (t ∷ ts) q.topic d)

mark_entries-kept :
    (entries : Map (List Text)) (configs : Map QueueConfig)
    → All Proper configs
    → Distinct configs
    → All Proper (mark_entries entries configs) × Distinct (mark_entries entries configs)
unfolding mark_entries
mark_entries-kept [] configs h d = (h, d)
mark_entries-kept ((k, ts) ∷ entries) configs h d =
    mark_entries-kept entries (update_at k (enable_queue ts) configs)
      (update_at-All Proper k (enable_queue ts) configs (enable_queue-Proper k ts) h)
      (update_at-Distinct k (enable_queue ts) configs d)

of_tag-kept :
    (o : Option (Map (List Text))) (configs : Map QueueConfig)
    → All Proper configs
    → Distinct configs
    → All Proper (of_tag o configs) × Distinct (of_tag o configs)
of_tag-kept none configs h d = (h, d)
of_tag-kept (some entries) configs h d = mark_entries-kept entries configs h d

-- The tags keep the queues under their names, and no queue and no topic stands twice.
pub mark_tags-kept :
    (tags : List Text) (mapping : Map (Map (List Text))) (configs : Map QueueConfig)
    → All Proper configs
    → Distinct configs
    → All Proper (mark_tags tags mapping configs) × Distinct (mark_tags tags mapping configs)
unfolding mark_tags
mark_tags-kept [] mapping configs h d = (h, d)
mark_tags-kept (tag ∷ tags) mapping configs h d =
    let (h', d') = of_tag-kept (lookup tag mapping) configs h d in
    mark_tags-kept tags mapping (of_tag (lookup tag mapping) configs) h' d'
