-- ===== src/Config.antt =====
-- setting.go: the configuration of queues and topics.
pub mod Tags
use pepperbus.Base.{ℕ, Bool}
use pepperbus.Base.Int.{ℤ}
use pepperbus.Base.Text.{Text}
use pepperbus.Base.Map.{Map}

pub record StorageConfig : Type 0 where
  pub typ : Text
  pub address : Text
  pub auth : Text
  pub max_conn_num : ℤ
  pub max_idle_num : ℤ
  pub max_idle_seconds : ℤ

-- `RunTypeCGI`, `RunTypeHttp` and `RunTypeCmd`.
abbrev pub run_type_cgi : ℕ
run_type_cgi = 0

abbrev pub run_type_http : ℕ
run_type_http = 1

abbrev pub run_type_cmd : ℕ
run_type_cmd = 2

-- The fields of `TopicConfig` that the bus reads (`WorkerConfig` and the HTTP settings go to the
-- processes and clients that it starts).
pub record TopicConfig : Type 0 where
  pub name : Text
  pub password : Text
  pub run_type : ℕ
  pub storage : StorageConfig
  pub consumer_enable : Bool
  pub num_of_workers : ℕ
  pub script_entry : Text
  pub cgi_config_key : Text
  pub http_config : Text
  pub is_retry : Bool
  pub retry_time : ℤ

pub record QueueConfig : Type 0 where
  pub queue_name : Text
  pub password : Text
  pub topic : Map TopicConfig
  pub consumer_enable : Bool
