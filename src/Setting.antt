-- ===== src/Setting.antt =====
-- setting.go: what the bus makes of the settings that the configuration service sends. The decoding
-- of JSON is a parameter.
pub mod Serving
use pepperbus.Base.{List, [], ◌∷◌, ◌++◌, Bool, Option, none, some}
use pepperbus.Base.Text.{Text, codes, split_once}
use pepperbus.Base.Map.{Map}
use pepperbus.Config.{QueueConfig, StorageConfig}
use pepperbus.Config.Tags.{mark_tags}
use pepperbus.Ids.{service_id}
use pepperbus.Job.Parse.{slash}
use pepperbus.MuxServer.{MuxServer, Cmd, update_configs}

-- The settings of `data.Global` and `data.Queue` that are read here.
pub record Global : Type 0 where
  pub gateway_ip : Text
  pub gateway_port : Text
  pub admin_ip : Text
  pub admin_port : Text

pub record Settings : Type 0 where
  pub queue_config : Text
  pub tags_mapping : Text
  pub tags : List Text

pub record ServerConfig : Type 0 where
  pub gateway_ip : Text
  pub gateway_port : Text
  pub admin_ip : Text
  pub admin_port : Text

-- `json.Unmarshal` into the configurations of the queues and into the tags; `none` is an error.
pub record Decoders : Type 0 where
  pub queues : Text → Option (Map QueueConfig)
  pub mapping : Text → Option (Map (Map (List Text)))

-- The sections of the configuration that a node reads, and its domain.
abbrev sections_of : Text → Text → Option (Text × Text) → Text × List Text
sections_of domain node none =
    (domain, codes "/global.conf" ∷ codes "/queue.conf" ∷ (codes "/queue.conf/" ++ node) ∷ [])
sections_of domain node (some (first, sub)) = (
  first,
  (sub ++ codes "/global.conf")
      ∷ (sub ++ codes "/queue.conf")
      ∷ (sub ++ (codes "/queue.conf/" ++ node))
      ∷ [],
)

unfoldable pub sections : Text → Text → Text × List Text
unfolding split_once
sections domain node = sections_of domain node (split_once slash domain)

-- `parseErrorCollection`, `parseTaskDebug`: no text is the empty configuration.
abbrev pub parse_storage :
    (Text → Option StorageConfig) → StorageConfig → Text → Option StorageConfig
parse_storage decode empty [] = some empty
parse_storage decode empty (c ∷ s) = decode (c ∷ s)

abbrev marked :
    List Text → Map QueueConfig → Option (Map (Map (List Text))) → Option (Map QueueConfig)
marked tags configs none = none
marked tags configs (some mapping) = some (mark_tags tags mapping configs)

abbrev with_tags : Decoders → Settings → Option (Map QueueConfig) → Option (Map QueueConfig)
with_tags d s none = none
with_tags d s (some configs) = marked s.tags configs (d.mapping s.tags_mapping)

-- `parseQueueConfig`.
unfoldable pub parse_queue_config : Decoders → Settings → Option (Map QueueConfig)
unfolding mark_tags
parse_queue_config d s = with_tags d s (d.queues s.queue_config)

-- What `updateServer`, `updateQueue` and `updateServiceId` store.
pub record Stored : Type 0 where
  pub server : ServerConfig
  pub queues : Map QueueConfig
  pub id : Text

-- `updateServer`.
unfoldable pub update_server : Global → ServerConfig
update_server g = record {
  gateway_ip = g.gateway_ip;
  gateway_port = g.gateway_port;
  admin_ip = g.admin_ip;
  admin_port = g.admin_port;
}

module _ (deep_equal : QueueConfig → QueueConfig → Bool) (d : Decoders) where
  abbrev with_queues :
      Global → Text → MuxServer → Option (Map QueueConfig) → Option (Stored × List Cmd)
  with_queues g inner_ip ms none = none
  with_queues g inner_ip ms (some configs) = some (
    record { server = update_server g; queues = configs; id = service_id inner_ip g.gateway_port },
    update_configs deep_equal configs ms,
  )

  -- `UpdateSetting`: what is stored, and the commands that the mux server gets; `none` is the panic
  -- of `updateQueue`.
  unfoldable pub update_setting : Global → Text → Settings → MuxServer → Option (Stored × List Cmd)
  unfolding parse_queue_config update_server
  update_setting g inner_ip s ms = with_queues g inner_ip ms (parse_queue_config d s)
