-- ===== src/Stats/MinTime.antt =====
-- mux_stats.go: when the shortest time is missed.
use pepperbus.Base.{ℕ, ◌<◌, ◌≡◌, refl, ◌∙◌, List, [], ◌∷◌, Bool, true, false, arith}
use pepperbus.Base.Int.{ℤ, pos}
use pepperbus.Base.Map.{Map, lookup}
use pepperbus.Base.Text.{Text}
use pepperbus.Stats.{
  MuxStatItem, MuxStatsData, no_stats, update_stats, or_new, count_item, count_items,
}
use pepperbus.Stats.Counts.{cell, is_for, duration, cell-count_item}

-- Items of one topic, each longer than the one before it.
abbrev pub Rising : Text → Text → ℕ → List MuxStatItem → Type 0
Rising q t m [] = Unit
Rising q t m (item ∷ items) =
    (is_for q t item ≡ true)
    × (item.consumer_tc ≡ pos (duration item))
    × (m < duration item)
    × Rising q t (duration item) items

new_longest :
    (success : Bool) (k m : ℕ) (d : MuxStatsData)
    → m < k
    → d.max_time ≡ pos m
    → ((update_stats success (pos k) d).max_time ≡ pos k)
      × ((update_stats success (pos k) d).min_time ≡ d.min_time)
unfolding update_stats
new_longest true k m d h e = ground arith
new_longest false k m d h e = ground arith

min_time_kept :
    (q t : Text) (m : ℕ) (items : List MuxStatItem) (cur : Map (Map MuxStatsData)) (n : ℤ)
    → Rising q t m items
    → (or_new no_stats (cell q t cur)).max_time ≡ pos m
    → (or_new no_stats (cell q t cur)).min_time ≡ n
    → (or_new no_stats (cell q t (count_items items cur))).min_time ≡ n
unfolding count_items
min_time_kept q t m [] cur n rising longest e = e
min_time_kept q t m (item ∷ items) cur n (mine, whole, longer, rising) longest e =
    let d = or_new no_stats (cell q t cur) in
    let (max_time, min_time) =
      new_longest item.consumer_is_success (duration item) m d longer longest in
    min_time_kept q t (duration item) items (count_item item cur) n rising
      (rw (cell-count_item q t item cur, mine, whole) max_time)
      (rw (cell-count_item q t item cur, mine, whole) (min_time ∙ e))

-- When every item of a topic takes longer than the one before it (a single item with a duration
-- above 0 included), the shortest time of the topic stays at 0, as if there had been none.
pub count_items_misses_min :
    (q t : Text) (items : List MuxStatItem)
    → Rising q t 0 items
    → (or_new no_stats (cell q t (count_items items []))).min_time ≡ pos 0
unfolding lookup
count_items_misses_min q t items rising = min_time_kept q t 0 items [] (pos 0) rising refl refl
