-- ===== src/MuxServer.antt =====
-- mux_server.go: the muxers of all queues, the commands that add and remove queues, and the way of
-- a batch to every topic of its queue.
pub mod Converge
pub mod Muxers
pub mod Dispatch
use pepperbus.Base.{
  ℕ, suc, List, [], ◌∷◌, ◌++◌, Bool, true, false, ◌&&◌, ◌||◌, not, Option, none, some, ◌==◌,
  if◌then◌else◌,
}
use pepperbus.Base.Int.{pos}
use pepperbus.Base.Text.{Text}
use pepperbus.Base.Map.{Map, lookup, insert, delete, is_some}
use pepperbus.Config.{TopicConfig, QueueConfig, run_type_cgi, run_type_http, run_type_cmd}
use pepperbus.Job.{Job, Jobs, Codec}
use pepperbus.Redis.Wire.{Server}
use pepperbus.Storage.{StorageError, add_queue}
use pepperbus.Storage.Key.{common_queue}

pub data Kind : Type 0 where
  cgi http cmd : Kind

-- A muxer: `Mux`, `HttpWorker` or `Worker`, and whether its `Serve` was started.
pub record Muxer : Type 0 where
  pub kind : Kind
  pub queue : Text
  pub topic : Text
  pub conf : TopicConfig
  pub serving : Bool

pub data Cmd : Type 0 where
  queue_add : QueueConfig → Cmd
  queue_del : QueueConfig → Cmd

-- `closed` are the muxers whose context was cancelled.
pub record MuxServer : Type 0 where
  pub mux : Map (Map Muxer)
  pub queue_config : Map QueueConfig
  pub closed : List Muxer

unfoldable pub new_mux_server : MuxServer
new_mux_server = record { mux = []; queue_config = []; closed = [] }

abbrev new_muxer : Kind → QueueConfig → Text → TopicConfig → Bool → Muxer
new_muxer kind q name t serving = record {
  kind = kind;
  queue = q.queue_name;
  topic = name;
  conf = t;
  serving = serving;
}

-- The switch on `RunType`; `disabled` is `ConsumerDisable`, which a command worker does not read.
unfoldable pub start_topic : Bool → QueueConfig → Text → TopicConfig → Option Muxer
start_topic disabled q name t =
    let enabled = q.consumer_enable || t.consumer_enable in
    if t.run_type == run_type_cgi
    then some (new_muxer cgi q name t (not disabled && enabled))
    else if t.run_type == run_type_http
    then some (new_muxer http q name t (not disabled && enabled))
    else if t.run_type == run_type_cmd
    then some (new_muxer cmd q name t enabled)
    else none

abbrev with_muxer : Text → Option Muxer → Map Muxer → Map Muxer
with_muxer name none m = m
with_muxer name (some muxer) m = insert name muxer m

-- The loop over `qconf.Topic`; `ConsumerDisable` is read anew for each topic.
unfoldable pub start_topics : (Text → Bool) → QueueConfig → Map TopicConfig → Map Muxer → Map Muxer
start_topics disabled q [] m = m
start_topics disabled q ((name, t) ∷ rest) m =
    start_topics disabled q rest (with_muxer name (start_topic (disabled name) q name t) m)

abbrev pub muxers : Option (Map Muxer) → Map Muxer
muxers none = []
muxers (some m) = m

abbrev pub each : Map Muxer → List Muxer
each [] = []
each ((k, v) ∷ m) = v ∷ each m

-- What `Serve` does with a command; `disabled` is what `ConsumerDisable` is for each start of a topic.
unfoldable pub serve_cmd : (Text → Bool) → Cmd → MuxServer → MuxServer
unfolding start_topics
serve_cmd disabled (queue_add q) ms =
    if is_some (lookup q.queue_name ms.queue_config) then ms else record ms {
      mux = insert q.queue_name (start_topics disabled q q.topic []) ms.mux;
      queue_config = insert q.queue_name q ms.queue_config;
    }
serve_cmd disabled (queue_del q) ms = record ms {
  queue_config = delete q.queue_name ms.queue_config;
  closed = each (muxers (lookup q.queue_name ms.mux)) ++ ms.closed;
  mux = delete q.queue_name ms.mux;
}

-- The commands of a channel, in order; `disabled i t` is what `ConsumerDisable` is when the i-th of
-- them starts the topic t.
unfoldable pub serve : (ℕ → Text → Bool) → List Cmd → MuxServer → MuxServer
unfolding serve_cmd
serve disabled [] ms = ms
serve disabled (c ∷ cs) ms = serve (λ i. disabled (suc i)) cs (serve_cmd (disabled 0) c ms)

-- What `AddQueue`, `DelQueue` and `UpdateQueue` send to the channel.
abbrev pub update_queue : QueueConfig → List Cmd
update_queue conf = queue_del conf ∷ queue_add conf ∷ []

-- The commands for one entry of the new configuration; `deep_equal` is `reflect.DeepEqual`.
abbrev pub for_entry :
    (QueueConfig → QueueConfig → Bool) → QueueConfig → Option QueueConfig → List Cmd
for_entry deep_equal conf none = queue_add conf ∷ []
for_entry deep_equal conf (some old) = if deep_equal conf old then [] else update_queue conf

module _ (deep_equal : QueueConfig → QueueConfig → Bool) where
  unfoldable pub updates : Map QueueConfig → Map QueueConfig → List Cmd
  updates [] old = []
  updates ((name, conf) ∷ rest) old =
      for_entry deep_equal conf (lookup name old) ++ updates rest old

  unfoldable pub removals : Map QueueConfig → Map QueueConfig → List Cmd
  removals [] confs = []
  removals ((name, conf) ∷ rest) confs =
      let more = removals rest confs in
      if is_some (lookup name confs) then more else queue_del conf ∷ more

  -- `UpdateConfigs`: the commands that it sends.
  unfoldable pub update_configs : Map QueueConfig → MuxServer → List Cmd
  unfolding updates removals
  update_configs confs ms = updates confs ms.queue_config ++ removals ms.queue_config confs
