-- ===== src/HttpWorker/Post.antt =====
-- http_worker.go, `HttpClientsManager`: the requests that the HTTP worker posts to its consumer. The
-- printing of jobs as JSON is a parameter.
use pepperbus.Base.{List, [], ◌∷◌, ◌++◌}
use pepperbus.Base.Text.{Text, codes}
use pepperbus.Base.Map.{Map}
use pepperbus.Job.{Job, Jobs}

-- The header "IS-PEPPER-BUS-REQUEST", and the form.
pub record Post : Type 0 where
  pub bus_header : Text
  pub form : Map Text

-- `request` up to the call of the client.
abbrev pub posted : Map Text → Post
posted values = record {
  bus_header = codes "true";
  form = values ++ ((codes "IS_PEPPER_BUS_REQUEST", codes "true") ∷ []);
}

-- `SendPing`.
abbrev pub ping_post : Post
ping_post = posted ((codes "type", codes "ping") ∷ [])

-- `SendJobs`.
unfoldable pub jobs_post : (List Job → Text) → Jobs → Post
jobs_post show jobs = posted (
    (codes "type", codes "data")
    ∷ (codes "outTraceId", jobs.out_trace_id)
    ∷ (codes "jobs", show jobs.slice)
    ∷ (codes "queue", jobs.queue_name)
    ∷ (codes "topic", jobs.topic_name)
    ∷ [])
