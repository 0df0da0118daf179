-- ===== src/Config/Tags/Machine.antt =====
-- setting.go, `parseQueueConfig`: what all the tags of a machine enable.
use pepperbus.Base.{
  ◌≡◌, refl, ap, ◌∙◌, List, [], ◌∷◌, Bool, true, false, ◌||◌, ◌&&◌, Option, none, some, arith,
  if◌then◌else◌,
}
use pepperbus.Base.Text.{Text, text_eq}
use pepperbus.Base.Map.{Map, lookup, is_some}
use pepperbus.Config.{QueueConfig}
use pepperbus.Config.Tags.{update_at, enable_topic, enable_queue, mark_entries, of_tag, mark_tags}
use pepperbus.Config.Tags.Marked.{
  changed, flag, topic_of, names_queue, names_topic, lookup-update_at, twice, mark_entries_lem,
}

-- Whether a tag of the machine names the whole queue, or the topic of the queue.
abbrev pub entries_of : Option (Map (List Text)) → Map (List Text)
entries_of none = []
entries_of (some entries) = entries

abbrev pub tags_name_queue : Text → List Text → Map (Map (List Text)) → Bool
tags_name_queue q [] mapping = false
tags_name_queue q (tag ∷ tags) mapping =
    names_queue q (entries_of (lookup tag mapping)) || tags_name_queue q tags mapping

abbrev pub tags_name_topic : Text → Text → List Text → Map (Map (List Text)) → Bool
tags_name_topic q t [] mapping = false
tags_name_topic q t (tag ∷ tags) mapping =
    names_topic q t (entries_of (lookup tag mapping)) || tags_name_topic q t tags mapping

of_tag-entries :
    (o : Option (Map (List Text))) (configs : Map QueueConfig)
    → of_tag o configs ≡ mark_entries (entries_of o) configs
of_tag-entries none configs = unfold mark_entries in refl
of_tag-entries (some entries) configs = refl

-- The queues are the same, by name and number.
changed_some :
    (hit : Bool) (f : QueueConfig → QueueConfig) (o : Option QueueConfig)
    → is_some (if hit then changed f o else o) ≡ is_some o
changed_some true f none = refl
changed_some true f (some q) = refl
changed_some false f o = refl

pub mark_entries-some :
    (entries : Map (List Text)) (configs : Map QueueConfig) (q : Text)
    → is_some (lookup q (mark_entries entries configs)) ≡ is_some (lookup q configs)
unfolding mark_entries
mark_entries-some [] configs q = refl
mark_entries-some ((k, ts) ∷ entries) configs q =
    mark_entries-some entries (update_at k (enable_queue ts) configs) q
    ∙ (ap is_some (lookup-update_at k q (enable_queue ts) configs)
        ∙ changed_some (text_eq k q) (enable_queue ts) (lookup q configs))

either_flag :
    (flag there a b : Bool)
    → ((flag || (there && a)) || (there && b)) ≡ (flag || (there && (a || b)))
either_flag true there a b = refl
either_flag false true a b = refl
either_flag false false a b = refl

-- After the tags of a machine, a queue is enabled exactly if it was before, or if it exists and one
-- of the tags names it without topics; and a topic's configuration is the one from before, enabled
-- if one of the tags names it.
pub mark_tags_lem :
    (tags : List Text) (mapping : Map (Map (List Text))) (configs : Map QueueConfig) (q t : Text)
    → (let before = lookup q configs in
        let after = lookup q (mark_tags tags mapping configs) in
        (flag after ≡ (flag before || (is_some before && tags_name_queue q tags mapping)))
        × (topic_of t after ≡ (
            if tags_name_topic q t tags mapping
            then changed enable_topic (topic_of t before)
            else topic_of t before)))
unfolding mark_tags
mark_tags_lem [] mapping configs q t = (ground arith, refl)
mark_tags_lem (tag ∷ tags) mapping configs q t =
    let entries = entries_of (lookup tag mapping) in
    let step = of_tag-entries (lookup tag mapping) configs in
    let (flags, topics) = mark_tags_lem tags mapping (mark_entries entries configs) q t in
    let (flag_step, topic_step) = mark_entries_lem entries configs q t in
    rw step (
      flags
          ∙ (rw (flag_step, mark_entries-some entries configs q)
              (either_flag (flag (lookup q configs)) (is_some (lookup q configs))
                (names_queue q entries) (tags_name_queue q tags mapping))),
      topics
          ∙ (rw topic_step (
              twice (names_topic q t entries) (tags_name_topic q t tags mapping)
                (topic_of t (lookup q configs)))),
    )
