-- ===== src/Response/Cgi.antt =====
-- cgi.go: what the CGI transport sends to a worker, and what it makes of the answer. The printing of
-- jobs as JSON is a parameter.
use pepperbus.Base.{List, [], ◌∷◌, ◌++◌}
use pepperbus.Base.Text.{Text, codes}
use pepperbus.Base.Map.{Map}
use pepperbus.Job.{Job, Jobs}
use pepperbus.Response.{inner_error}
use pepperbus.Response.Request.{Tried, replied, end_of_file, broke}

-- `GetEnv`.
abbrev pub env_of : Text → Map Text
env_of script_entry = (codes "SCRIPT_FILENAME", script_entry) ∷ []

-- `GetParams`; a key may stand several times, as `Request` adds one that is there.
abbrev pub params_of : Text → List (Text × Text)
params_of typ = (codes "IS_PEPPER_BUS_REQUEST", codes "true") ∷ (codes "type", typ) ∷ []

abbrev marked : List (Text × Text) → List (Text × Text)
marked params = params ++ ((codes "IS_PEPPER_BUS_REQUEST", codes "true") ∷ [])

-- `SendPing`: the parameters that are sent.
abbrev pub ping_params : List (Text × Text)
ping_params = marked (params_of (codes "ping"))

-- `SendJobs`: the parameters that are sent.
unfoldable pub jobs_params : (List Job → Text) → Jobs → List (Text × Text)
jobs_params show jobs = marked (
    params_of (codes "data")
    ++ ((codes "outTraceId", jobs.out_trace_id)
        ∷ (codes "queue", jobs.queue_name)
        ∷ (codes "topic", jobs.topic_name)
        ∷ (codes "jobs", show jobs.slice)
        ∷ []))

-- What a connection brings: no connection, no answer, or the headers "Code", "Error-Code" and
-- "Consume-Topics" with a body or the error of reading it.
pub data Exchanged : Type 0 where
  no_conn not_sent : Text → Exchanged
  sent_eof : Exchanged
  got_answer unread : Text → Text → Text → Text → Exchanged

abbrev code_or_inner : Text → Text
code_or_inner [] = inner_error
code_or_inner (c ∷ s) = c ∷ s

-- `request`; the response beside an error of the body is not looked at.
unfoldable pub tried : Exchanged → Tried
tried (no_conn e) = broke e
tried (not_sent e) = broke e
tried sent_eof = end_of_file
tried (unread code error_code topics e) = broke e
tried (got_answer code error_code topics body) = replied (record {
  code = code_or_inner code;
  error_code = error_code;
  consume_topics = topics;
  msg = body;
})
