-- ===== src/Config/Tags/Marked.antt =====
-- setting.go, `parseQueueConfig`: what the marking changes.
use pepperbus.Base.{
  ◌≡◌, refl, ◌∙◌, List, [], ◌∷◌, Bool, true, false, ◌||◌, ◌&&◌, Option, none, some, arith,
  if◌then◌else◌, inl, inr, Bool-cases, Option-cases, is_nil,
}
use pepperbus.Base.Text.{Text, text_eq, text_eq_sound}
use pepperbus.Base.Map.{Map, lookup, lookup-insert, is_some}
use pepperbus.Config.{TopicConfig, QueueConfig}
use pepperbus.Config.Tags.{update_at, enable_topic, enable_topics, enable_queue, mark_entries}

abbrev pub changed {ℓ} : {V : Type ℓ} → (V → V) → Option V → Option V
changed f none = none
changed f (some v) = some (f v)

chosen {ℓ} :
    {V : Type ℓ} (k j : Text) (f : V → V) (o : Option V) (m : Map V)
    → lookup k m ≡ o
    → (if text_eq k j then changed f o else lookup j m)
      ≡ (if text_eq k j then changed f (lookup j m) else lookup j m)
chosen k j f o m e = elim (Bool-cases (text_eq k j)) [
  | inr miss ↦ rw miss refl
  | inl hit ↦ rw (hit, ← text_eq_sound k j hit, e) refl
]

same_or_none {ℓ} :
    {V : Type ℓ} (k j : Text) (f : V → V) (m : Map V)
    → lookup k m ≡ none
    → lookup j m ≡ (if text_eq k j then changed f (lookup j m) else lookup j m)
same_or_none k j f m e = elim (Bool-cases (text_eq k j)) [
  | inr miss ↦ rw miss refl
  | inl hit ↦ rw (hit, ← text_eq_sound k j hit, e) refl
]

-- Only the key's own entry changes.
pub lookup-update_at {ℓ} :
    {V : Type ℓ} (k j : Text) (f : V → V) (m : Map V)
    → lookup j (update_at k f m) ≡ (if text_eq k j then changed f (lookup j m) else lookup j m)
unfolding update_at
lookup-update_at k j f m = elim (Option-cases (lookup k m)) [
  | inl missing ↦ rw (missing, update_at) (same_or_none k j f m missing)
  | inr (v, found) ↦
      rw (found, update_at) (lookup-insert k j (f v) m ∙ chosen k j f (some v) m found)
]

abbrev pub member : Text → List Text → Bool
member t [] = false
member t (u ∷ ts) = text_eq u t || member t ts

pub twice :
    (b c : Bool) (o : Option TopicConfig)
    → (if c
        then changed enable_topic (if b then changed enable_topic o else o)
        else if b
        then changed enable_topic o
        else o)
      ≡ (if b || c then changed enable_topic o else o)
twice true true none = refl
twice true true (some t) = refl
twice true false o = refl
twice false true o = refl
twice false false o = refl

pub lookup-enable_topics :
    (ts : List Text) (t : Text) (m : Map TopicConfig)
    → lookup t (enable_topics ts m)
      ≡ (if member t ts then changed enable_topic (lookup t m) else lookup t m)
unfolding enable_topics
lookup-enable_topics [] t m = refl
lookup-enable_topics (u ∷ ts) t m =
    lookup-enable_topics ts t (update_at u enable_topic m)
    ∙ rw (lookup-update_at u t enable_topic m) (twice (text_eq u t) (member t ts) (lookup t m))

abbrev pub flag : Option QueueConfig → Bool
flag none = false
flag (some q) = q.consumer_enable

abbrev pub topic_of : Text → Option QueueConfig → Option TopicConfig
topic_of t none = none
topic_of t (some q) = lookup t q.topic

-- Whether an entry names the whole queue, or the topic of the queue.
abbrev pub names_queue : Text → Map (List Text) → Bool
names_queue q [] = false
names_queue q ((k, ts) ∷ entries) = (text_eq k q && is_nil ts) || names_queue q entries

abbrev pub names_topic : Text → Text → Map (List Text) → Bool
names_topic q t [] = false
names_topic q t ((k, ts) ∷ entries) = (text_eq k q && member t ts) || names_topic q t entries

queue_step :
    (hit : Bool) (ts : List Text) (t : Text) (o : Option QueueConfig) (more : Bool)
    → (let o' = if hit then changed (enable_queue ts) o else o in
        ((flag o' || (is_some o' && more))
          ≡ (flag o || (is_some o && ((hit && is_nil ts) || more))))
        × (topic_of t o'
            ≡ (if hit && member t ts then changed enable_topic (topic_of t o) else topic_of t o)))
queue_step false ts t o more = (refl, refl)
queue_step true ts t none more = (refl, ground arith)
queue_step true [] t (some q) more = (ground arith, refl)
queue_step true (u ∷ ts) t (some q) more = (refl, lookup-enable_topics (u ∷ ts) t q.topic)

-- After the entries of a tag, a queue is enabled exactly if it was before, or if it exists and an
-- entry names it without topics; and a topic's configuration is the one from before, enabled if an
-- entry of its queue names it. (Entries for queues and topics that do not exist change nothing.)
pub mark_entries_lem :
    (entries : Map (List Text)) (configs : Map QueueConfig) (q t : Text)
    → (let before = lookup q configs in
        let after = lookup q (mark_entries entries configs) in
        (flag after ≡ (flag before || (is_some before && names_queue q entries)))
        × (topic_of t after ≡ (
            if names_topic q t entries
            then changed enable_topic (topic_of t before)
            else topic_of t before)))
unfolding mark_entries
mark_entries_lem [] configs q t = (ground arith, refl)
mark_entries_lem ((k, ts) ∷ entries) configs q t =
    let (flags, topics) = mark_entries_lem entries (update_at k (enable_queue ts) configs) q t in
    let (flag_step, topic_step) =
      queue_step (text_eq k q) ts t (lookup q configs) (names_queue q entries) in
    let here = lookup-update_at k q (enable_queue ts) configs in
    (
      flags ∙ (rw here refl ∙ flag_step),
      topics
          ∙ (rw (here, topic_step)
              (twice (text_eq k q && member t ts) (names_topic q t entries)
                (topic_of t (lookup q configs)))),
    )
