-- ===== src/Stats/Gateway.antt =====
-- gateway_stats.go: the pushes of every queue in the last minute and in the running one.
use pepperbus.Base.{ℕ, List, [], ◌∷◌, ◌++◌, Bool, length, ltb, is_nil, if◌then◌else◌}
use pepperbus.Base.Text.{Text}
use pepperbus.Base.Map.{Map}
use pepperbus.Stats.{GatewayStatsData, gateway_count}

-- `item_chan` holds at most `gateway_stats_channel_buff` items: a queue, and whether its push was
-- a success.
pub record GatewayStats : Type 0 where
  pub last : Map GatewayStatsData
  pub cur : Map GatewayStatsData
  pub item_chan : List (Text × Bool)

abbrev pub gateway_stats_channel_buff : ℕ
gateway_stats_channel_buff = 10000

abbrev pub new_gateway_stats : GatewayStats
new_gateway_stats = record { last = []; cur = []; item_chan = [] }

-- `Add`: an item without a queue is ignored, and one for a full channel is lost.
unfoldable pub add_gateway_stat : Text → Bool → GatewayStats → GatewayStats
add_gateway_stat q success s =
    if is_nil q
    then s
    else if ltb (length s.item_chan) gateway_stats_channel_buff
    then record s { item_chan = s.item_chan ++ (q, success) ∷ [] }
    else s

abbrev gateway_received : List (Text × Bool) → GatewayStats → GatewayStats
gateway_received [] s = s
gateway_received ((q, success) ∷ items) s = record s {
  cur = gateway_count q success s.cur;
  item_chan = items;
}

-- `Run`: one item of the channel.
unfoldable pub receive_gateway : GatewayStats → GatewayStats
unfolding gateway_count
receive_gateway s = gateway_received s.item_chan s

-- `Run`: the minute is over.
unfoldable pub tick_gateway : GatewayStats → GatewayStats
tick_gateway s = record s { last = s.cur; cur = [] }
