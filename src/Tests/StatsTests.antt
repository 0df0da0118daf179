-- ===== src/Tests/StatsTests.antt =====
-- The theorems of the statistics at concrete inputs.
use pepperbus.Base.{ℕ, ◌≡◌, refl, List, [], ◌∷◌, Bool, true, false, arith}
use pepperbus.Base.Int.{pos}
use pepperbus.Base.Text.{Text, codes, text_eq}
use pepperbus.Stats.{MuxStatItem, no_stats, or_new, count_items}
use pepperbus.Stats.Counts.{cell, tally, spent, longest, count_items_lem}
use pepperbus.Stats.MinTime.{count_items_misses_min}
use pepperbus.Tests.Sample.{queue, topic}

abbrev item : Text → Bool → ℕ → MuxStatItem
item t success k = record {
  queue = queue;
  topic = t;
  consumer_is_success = success;
  consumer_tc = pos k;
}

abbrev items : List MuxStatItem
items = item topic true 5 ∷ item (codes "other") true 90 ∷ item topic false 8 ∷ []

count_items_lem_example :
    (let d = or_new no_stats (cell queue topic (count_items items [])) in
      (d.success_count ≡ pos (tally queue topic true 0 items))
      × (d.fail_count ≡ pos (tally queue topic false 0 items))
      × (d.total_time ≡ pos (spent queue topic 0 items))
      × (d.max_time ≡ pos (longest queue topic 0 items)))
count_items_lem_example =
    count_items_lem queue topic items (refl, (refl, (refl, tt))) (omega arith) (omega arith)

-- The numbers are these.
tallies : spent queue topic 0 items ≡ 13
unfolding text_eq
tallies = refl

count_items_misses_min_example :
    (or_new no_stats
      (cell queue topic (count_items (item topic true 5 ∷ item topic true 8 ∷ []) []))).min_time
    ≡ pos 0
unfolding text_eq
count_items_misses_min_example =
    count_items_misses_min queue topic (item topic true 5 ∷ item topic true 8 ∷ [])
      (refl, refl, omega arith, (refl, refl, omega arith, tt))
