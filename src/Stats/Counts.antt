-- ===== src/Stats/Counts.antt =====
-- mux_stats.go: the numbers of a topic count its items and no others.
use pepperbus.Base.{
  ℕ, suc, ◌+◌, ◌^◌, ◌<◌, ◌≡◌, refl, ap, subst, ◌∙◌, List, [], ◌∷◌, Bool, true, false, ◌&&◌, Option,
  some, length, ltb, All, not, inl, inr, Bool-cases, arith, if◌then◌else◌,
}
use pepperbus.Base.Int.{pos, pos_part, ◌+ℤ◌, int64}
use pepperbus.Base.Text.{Text, text_eq, text_eq_refl, text_eq_sound}
use pepperbus.Base.Map.{Map, lookup, insert, lookup-insert}
use pepperbus.Stats.{
  MuxStatItem, MuxStatsData, no_stats, update_stats, or_new, count_item, count_items,
}

-- The numbers of a topic.
abbrev pub cell : Text → Text → Map (Map MuxStatsData) → Option MuxStatsData
cell q t cur = lookup t (or_new [] (lookup q cur))

abbrev pub is_for : Text → Text → MuxStatItem → Bool
is_for q t item = text_eq item.queue q && text_eq item.topic t

lookup_updated :
    (t u : Text) (f : MuxStatsData → MuxStatsData) (topics : Map MuxStatsData)
    → lookup t (insert u (f (or_new no_stats (lookup u topics))) topics)
      ≡ (if text_eq u t then some (f (or_new no_stats (lookup t topics))) else lookup t topics)
lookup_updated t u f topics =
    lookup-insert u t (f (or_new no_stats (lookup u topics))) topics
    ∙ elim (Bool-cases (text_eq u t)) [
      | inr miss ↦ rw miss refl
      | inl hit ↦
          let here = text_eq_sound u t hit in
          rw hit (ap (λ v. some (f (or_new no_stats (lookup v topics)))) here)
    ]

cell_same :
    (t : Text) (item : MuxStatItem) (cur : Map (Map MuxStatsData))
    → cell item.queue t (count_item item cur) ≡ (
        if text_eq item.topic t
        then some (
            update_stats item.consumer_is_success item.consumer_tc
              (or_new no_stats (cell item.queue t cur)))
        else cell item.queue t cur)
unfolding count_item
cell_same t item cur =
    rw (lookup-insert item.queue item.queue _ cur, text_eq_refl item.queue)
      (lookup_updated t item.topic (update_stats item.consumer_is_success item.consumer_tc)
        (or_new [] (lookup item.queue cur)))

pub cell-count_item :
    (q t : Text) (item : MuxStatItem) (cur : Map (Map MuxStatsData))
    → cell q t (count_item item cur) ≡ (
        if is_for q t item
        then some (
            update_stats item.consumer_is_success item.consumer_tc (or_new no_stats (cell q t cur)))
        else cell q t cur)
cell-count_item q t item cur = elim (Bool-cases (text_eq item.queue q)) [
  | inr miss ↦ rw miss (unfold count_item in rw (lookup-insert item.queue q _ cur, miss) refl)
  | inl hit ↦ rw hit (
      subst
        (λ v. cell v t (count_item item cur) ≡ (
          if text_eq item.topic t
          then some (
              update_stats item.consumer_is_success item.consumer_tc
                (or_new no_stats (cell v t cur)))
          else cell v t cur))
        (text_eq_sound item.queue q hit) (cell_same t item cur))
]

int64_add : (a b : ℕ) → a + b < 2 ^ 63 → int64 (pos a +ℤ pos b) ≡ pos (a + b)
unfolding int64 ◌+ℤ◌
int64_add a b h = ground arith

abbrev pub Describes : ℕ → ℕ → ℕ → ℕ → MuxStatsData → Type 0
Describes a b c m d =
    (d.success_count ≡ pos a)
    × (d.fail_count ≡ pos b)
    × (d.total_time ≡ pos c)
    × (d.max_time ≡ pos m)

abbrev pub plus_when : Bool → ℕ → ℕ → ℕ
plus_when true k n = n + k
plus_when false k n = n

update_stats-Describes :
    (success : Bool) (k a b c m : ℕ) (d : MuxStatsData)
    → suc a < 2 ^ 63
    → suc b < 2 ^ 63
    → c + k < 2 ^ 63
    → Describes a b c m d
    → Describes
        (plus_when success 1 a)
        (plus_when (not success) 1 b)
        (c + k)
        (if ltb m k then k else m)
        (update_stats success (pos k) d)
unfolding update_stats
update_stats-Describes true k a b c m d ha hb hc (ea, eb, ec, em) =
    ground (arith, int64_add a 1, int64_add c k)
update_stats-Describes false k a b c m d ha hb hc (ea, eb, ec, em) =
    ground (arith, int64_add b 1, int64_add c k)

abbrev pub duration : MuxStatItem → ℕ
duration item = pos_part item.consumer_tc

abbrev pub longer : Bool → ℕ → ℕ → ℕ
longer true k m = if ltb m k then k else m
longer false k m = m

abbrev pub same : Bool → Bool → Bool
same true b = b
same false b = not b

-- The items of a topic that ended this way, the sum of its durations, and the longest of them.
abbrev pub tally : Text → Text → Bool → ℕ → List MuxStatItem → ℕ
tally q t success n [] = n
tally q t success n (item ∷ items) =
    tally q t success (plus_when (is_for q t item && same success item.consumer_is_success) 1 n)
      items

abbrev pub spent : Text → Text → ℕ → List MuxStatItem → ℕ
spent q t n [] = n
spent q t n (item ∷ items) = spent q t (plus_when (is_for q t item) (duration item) n) items

abbrev pub longest : Text → Text → ℕ → List MuxStatItem → ℕ
longest q t m [] = m
longest q t m (item ∷ items) = longest q t (longer (is_for q t item) (duration item) m) items

abbrev pub all_time : List MuxStatItem → ℕ
all_time [] = 0
all_time (item ∷ items) = duration item + all_time items

abbrev pub NonNegative : List MuxStatItem → Type 0
NonNegative items = All (λ item. item.consumer_tc ≡ pos (duration item)) items

plus_when_bound : (b : Bool) (k n r : ℕ) → n + k + r < 2 ^ 63 → plus_when b k n + r < 2 ^ 63
plus_when_bound true k n r h = h
plus_when_bound false k n r h = omega (arith, h)

item-Describes :
    (q t : Text) (item : MuxStatItem) (cur : Map (Map MuxStatsData)) (a b c m : ℕ)
    → item.consumer_tc ≡ pos (duration item)
    → suc a < 2 ^ 63
    → suc b < 2 ^ 63
    → c + duration item < 2 ^ 63
    → Describes a b c m (or_new no_stats (cell q t cur))
    → Describes
        (plus_when (is_for q t item && same true item.consumer_is_success) 1 a)
        (plus_when (is_for q t item && same false item.consumer_is_success) 1 b)
        (plus_when (is_for q t item) (duration item) c)
        (longer (is_for q t item) (duration item) m)
        (or_new no_stats (cell q t (count_item item cur)))
item-Describes q t item cur a b c m e ha hb hc d = elim (Bool-cases (is_for q t item)) [
  | inr miss ↦ rw (cell-count_item q t item cur, miss) d
  | inl hit ↦
      rw (cell-count_item q t item cur, hit, e)
        (update_stats-Describes item.consumer_is_success (duration item) a b c m _ ha hb hc d)
]

count_items-Describes :
    (q t : Text) (items : List MuxStatItem) (cur : Map (Map MuxStatsData)) (a b c m : ℕ)
    → NonNegative items
    → a + length items < 2 ^ 63
    → b + length items < 2 ^ 63
    → c + all_time items < 2 ^ 63
    → Describes a b c m (or_new no_stats (cell q t cur))
    → Describes
        (tally q t true a items)
        (tally q t false b items)
        (spent q t c items)
        (longest q t m items)
        (or_new no_stats (cell q t (count_items items cur)))
unfolding count_items
count_items-Describes q t [] cur a b c m ok ha hb hc d = d
count_items-Describes q t (item ∷ items) cur a b c m (e, ok) ha hb hc d =
    count_items-Describes q t items (count_item item cur) _ _ _ _ ok
      (plus_when_bound (is_for q t item && same true item.consumer_is_success) 1 a _
        (omega (arith, ha)))
      (plus_when_bound (is_for q t item && same false item.consumer_is_success) 1 b _
        (omega (arith, hb)))
      (plus_when_bound (is_for q t item) (duration item) c _ (omega (arith, hc)))
      (item-Describes q t item cur a b c m e (omega (arith, ha)) (omega (arith, hb))
        (omega (arith, hc)) d)

-- For any items of a minute with durations that are not negative, fewer than 2 ^ 63 and of less than
-- 2 ^ 63 nanoseconds together, the numbers of a topic are the number of its items that succeeded and
-- of those that failed, the sum of its durations, and the longest of them (all 0 where it has none).
pub count_items_lem :
    (q t : Text) (items : List MuxStatItem)
    → NonNegative items
    → length items < 2 ^ 63
    → all_time items < 2 ^ 63
    → (let d = or_new no_stats (cell q t (count_items items [])) in
        (d.success_count ≡ pos (tally q t true 0 items))
        × (d.fail_count ≡ pos (tally q t false 0 items))
        × (d.total_time ≡ pos (spent q t 0 items))
        × (d.max_time ≡ pos (longest q t 0 items)))
unfolding lookup
count_items_lem q t items ok few short =
    count_items-Describes q t items [] 0 0 0 0 ok (omega (arith, few)) (omega (arith, few))
      (omega (arith, short)) (refl, refl, refl, refl)
