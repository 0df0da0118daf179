-- ===== src/Tests/MuxServerTests.antt =====
-- The theorems of the mux server at concrete inputs.
use pepperbus.Base.{ℕ, ◌≡◌, refl, [], ◌∷◌, Bool, true, false, none, some, if◌then◌else◌}
use pepperbus.Base.Int.{pos}
use pepperbus.Base.Text.{Text, codes, text_eq}
use pepperbus.Base.Map.{Map, lookup, insert, is_some}
use pepperbus.Config.{TopicConfig, QueueConfig}
use pepperbus.Job.{Jobs}
use pepperbus.MuxServer.{
  MuxServer, queue_add, new_mux_server, serve, start_topic, update_configs, muxers,
}
use pepperbus.MuxServer.Converge.{settled_at, update_configs-settled}
use pepperbus.MuxServer.Dispatch.{add_jobs}
use pepperbus.MuxServer.Dispatch.FanOut.{received_by, add_jobs-fan_out}
use pepperbus.MuxServer.Muxers.{expected, serve-muxers, ReadIn, serve-Inv}
use pepperbus.Redis.Memory.{Lists, memory, memory_healthy}
use pepperbus.Storage.{single}
use pepperbus.Storage.Topic.{view}
use pepperbus.Tests.Sample.{plain, plain_trip, job1, queue, topic, nothing}

abbrev pub topic_conf : TopicConfig
topic_conf = record {
  name = topic;
  password = codes "pw";
  run_type = 0;
  storage = record {
    typ = codes "redis";
    address = codes "localhost:6379";
    auth = [];
    max_conn_num = pos 10;
    max_idle_num = pos 5;
    max_idle_seconds = pos 60;
  };
  consumer_enable = true;
  num_of_workers = 2;
  script_entry = [];
  cgi_config_key = codes "local";
  http_config = [];
  is_retry = true;
  retry_time = pos 100;
}

abbrev pub queue_conf : QueueConfig
queue_conf = record {
  queue_name = queue;
  password = codes "secret";
  topic = (topic, topic_conf) ∷ [];
  consumer_enable = false;
}

abbrev pub confs : Map QueueConfig
confs = (queue, queue_conf) ∷ []

-- `ConsumerDisable` stays off.
abbrev pub enabled : ℕ → Text → Bool
enabled i t = false

abbrev always_equal : QueueConfig → QueueConfig → Bool
always_equal a b = true

update_configs-settled_example :
    lookup queue
      (serve enabled (update_configs always_equal confs new_mux_server) new_mux_server).queue_config
    ≡ settled_at always_equal (lookup queue confs) (lookup queue new_mux_server.queue_config)
unfolding lookup new_mux_server
update_configs-settled_example =
    update_configs-settled always_equal enabled confs new_mux_server queue (refl, tt) (refl, tt) tt

abbrev pub running : MuxServer
running = serve enabled (queue_add queue_conf ∷ []) new_mux_server

serve-muxers_example :
    (i : ℕ) × ((t : Text)
      → lookup t (muxers (lookup queue running.mux))
        ≡ expected (enabled i t) t (lookup queue running.queue_config))
unfolding lookup insert serve new_mux_server text_eq
serve-muxers_example = serve-muxers enabled (queue_add queue_conf ∷ []) queue (refl, tt)

abbrev batch : Jobs
batch = single (codes "x") queue [] job1

add_jobs-fan_out_example :
    (jobs' : Jobs) × (s' : Lists) × (add_jobs plain memory running batch nothing
      ≡ some (none, jobs', s'))
    × ((u : Text)
        → view plain memory memory_healthy queue u s' ≡ (
            if is_some (lookup u (muxers (lookup queue running.mux)))
            then received_by
                (lookup u queue_conf.topic)
                (job1 ∷ [])
                (view plain memory memory_healthy queue u nothing)
            else view plain memory memory_healthy queue u nothing))
unfolding lookup insert serve new_mux_server text_eq start_topic
add_jobs-fan_out_example =
    add_jobs-fan_out plain memory memory_healthy plain_trip (ReadIn enabled) running queue_conf
      batch nothing job1 [] (serve-Inv enabled (queue_add queue_conf ∷ [])) refl (cc) refl refl
      (λ c. (tt, tt))
