-- ===== src/Stats.antt =====
-- mux_stats.go and gateway_stats.go: counts and times of the last minute and of the running one.
pub mod Counts
pub mod MinTime
pub mod Gateway
use pepperbus.Base.{
  ℕ, List, [], ◌∷◌, ◌++◌, Bool, true, false, ◌&&◌, ◌||◌, Option, none, some, length, ltb, is_nil,
  if◌then◌else◌,
}
use pepperbus.Base.Int.{ℤ, pos, ◌+ℤ◌, int64, ltb_ℤ, leb_ℤ}
use pepperbus.Base.Text.{Text}
use pepperbus.Base.Map.{Map, lookup, insert}

-- Times in nanoseconds.
pub record MuxStatItem : Type 0 where
  pub queue : Text
  pub topic : Text
  pub consumer_is_success : Bool
  pub consumer_tc : ℤ

pub record MuxStatsData : Type 0 where
  pub time_period : ℤ
  pub success_count : ℤ
  pub fail_count : ℤ
  pub max_time : ℤ
  pub min_time : ℤ
  pub total_time : ℤ

-- `item_chan` holds at most `mux_stats_channel_buff` items.
pub record MuxStats : Type 0 where
  pub last : Map (Map MuxStatsData)
  pub cur : Map (Map MuxStatsData)
  pub item_chan : List MuxStatItem

abbrev pub mux_stats_channel_buff : ℕ
mux_stats_channel_buff = 10000

abbrev pub no_stats : MuxStatsData
no_stats = record {
  time_period = pos 0;
  success_count = pos 0;
  fail_count = pos 0;
  max_time = pos 0;
  min_time = pos 0;
  total_time = pos 0;
}

unfoldable pub new_mux_stats : MuxStats
new_mux_stats = record { last = []; cur = []; item_chan = [] }

abbrev counted : Bool → MuxStatsData → MuxStatsData
counted true d = record d { success_count = int64 (d.success_count +ℤ pos 1) }
counted false d = record d { fail_count = int64 (d.fail_count +ℤ pos 1) }

abbrev is_unset : ℤ → Bool
is_unset z = leb_ℤ z (pos 0) && leb_ℤ (pos 0) z

-- The shortest time is looked at only where the time is no new longest time.
abbrev timed : ℤ → MuxStatsData → MuxStatsData
timed tc d =
    if ltb_ℤ d.max_time tc
    then record d { max_time = tc }
    else if is_unset d.min_time || ltb_ℤ tc d.min_time
    then record d { min_time = tc }
    else d

-- What an item does to the numbers of its topic.
unfoldable pub update_stats : Bool → ℤ → MuxStatsData → MuxStatsData
update_stats success tc d =
    let e = counted success d in timed tc (record e { total_time = int64 (e.total_time +ℤ tc) })

abbrev pub or_new {ℓ} : {A : Type ℓ} → A → Option A → A
or_new a none = a
or_new a (some b) = b

-- An item that `Run` receives, in the numbers of the running minute.
unfoldable pub count_item : MuxStatItem → Map (Map MuxStatsData) → Map (Map MuxStatsData)
unfolding update_stats
count_item item cur =
    let topics = or_new [] (lookup item.queue cur) in
    let d = or_new no_stats (lookup item.topic topics) in
    insert item.queue
      (insert item.topic (update_stats item.consumer_is_success item.consumer_tc d) topics) cur

-- `Add`: an item without a queue or topic is ignored, and one for a full channel is lost.
unfoldable pub add_stat : Text → Text → Bool → ℤ → MuxStats → MuxStats
add_stat q t success tc s =
    if is_nil q || is_nil t
    then s
    else if ltb (length s.item_chan) mux_stats_channel_buff
    then record s {
      item_chan =
          s.item_chan
          ++ record { queue = q; topic = t; consumer_is_success = success; consumer_tc = tc } ∷ [];
    }
    else s

abbrev received : List MuxStatItem → MuxStats → MuxStats
received [] s = s
received (item ∷ items) s = record s { cur = count_item item s.cur; item_chan = items }

-- `Run`: one item of the channel.
unfoldable pub receive : MuxStats → MuxStats
unfolding count_item
receive s = received s.item_chan s

-- `Run`: the minute is over.
unfoldable pub tick : MuxStats → MuxStats
tick s = record s { last = s.cur; cur = [] }

-- All items of a minute, in order.
unfoldable pub count_items : List MuxStatItem → Map (Map MuxStatsData) → Map (Map MuxStatsData)
unfolding count_item
count_items [] cur = cur
count_items (item ∷ items) cur = count_items items (count_item item cur)

pub record GatewayStatsData : Type 0 where
  pub time_period : ℤ
  pub success_count : ℤ
  pub fail_count : ℤ

abbrev gateway_counted : Bool → GatewayStatsData → GatewayStatsData
gateway_counted true d = record d { success_count = int64 (d.success_count +ℤ pos 1) }
gateway_counted false d = record d { fail_count = int64 (d.fail_count +ℤ pos 1) }

-- `GatewayStats.Run`: an item; a new queue has the period of one minute.
unfoldable pub gateway_count : Text → Bool → Map GatewayStatsData → Map GatewayStatsData
gateway_count q success cur =
    let fresh : GatewayStatsData = record {
      time_period = pos 60000000000;
      success_count = pos 0;
      fail_count = pos 0;
    } in
    insert q (gateway_counted success (or_new fresh (lookup q cur))) cur
