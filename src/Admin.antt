-- ===== src/Admin.antt =====
-- admin.go: the actions of the admin interface on a topic, over the mux server. The decoder of
-- forms is a library: an action gets the decoded form or the decoder's error.
pub mod Counts
pub mod Route
use pepperbus.Base.{ℕ, suc, List, [], ◌∷◌, Option, none, some, Bool, false, if◌then◌else◌}
use pepperbus.Base.Int.{ℤ, pos}
use pepperbus.Base.Text.{Text, codes, text_eq}
use pepperbus.Job.{Jobs}
use pepperbus.Job.Parse.{gen_trace_id, new_job}
use pepperbus.HttpWorker.{send_ping_http}
use pepperbus.Mux.{send_jobs}
use pepperbus.Mux.Ping.{send_ping}
use pepperbus.MuxServer.{MuxServer, Muxer, Kind, cgi, http, cmd}
use pepperbus.MuxServer.Dispatch.{ServerError, get_muxer}
use pepperbus.Redis.Wire.{Server, Error}
use pepperbus.Response.{WorkerResponse, Sent}
use pepperbus.Storage.{retry_queue_jobs, clean_queue, get_length}
use pepperbus.Storage.Key.{retry_queue}

pub data Decoded {ℓ} (A : Type ℓ) : Type ℓ where
  decoded : A → Decoded A
  refused : Text → Decoded A

pub record Req : Type 0 where
  pub queue : Text
  pub topic : Text

pub record RecoverReq : Type 0 where
  pub req : Req
  pub count : ℤ

pub record TopicDataReq : Type 0 where
  pub req : Req
  pub typ : Text
  pub value : Text

-- What stands in `Error` and `Data` of a response; `nothing` is the empty text.
pub data Problem : Type 0 where
  no_problem : Problem
  bad_form : Text → Problem
  no_muxer : ServerError → Problem
  failed_storage : Error → Problem

pub data Body : Type 0 where
  nothing : Body
  number : ℤ → Body
  lengths : ℤ → ℤ → ℤ → Body
  said : Text → Body
  -- `none` is a nil response.
  response : Option WorkerResponse → Body

pub record Resp : Type 0 where
  pub error_code : ℕ
  pub error : Problem
  pub body : Body

abbrev pub shown : Body → Resp
shown b = record { error_code = 0; error = no_problem; body = b }

-- `http.StatusBadRequest`, `http.StatusInternalServerError`.
abbrev pub bad_request : Problem → Resp
bad_request p = record { error_code = 400; error = p; body = nothing }

abbrev pub internal_error : Error → Resp
internal_error e = record { error_code = 500; error = failed_storage e; body = nothing }

-- `RetryQueue`, `CleanQueue` and `GetLength` of the muxer's storage.
module _ (server : Server) where
  open server use {Store}

  abbrev recovered : Option (ℕ × Option Error × Store) → Option (Resp × Store)
  recovered none = none
  recovered (some (n, none, s)) = some (shown (number (pos n)), s)
  recovered (some (n, some e, s)) = some (internal_error e, s)

  abbrev recover_at :
      ℕ → RecoverReq → Store → Option ServerError × Option Muxer → Option (Resp × Store)
  recover_at fuel r s (some e, mux) = some (bad_request (no_muxer e), s)
  recover_at fuel r s (none, mux) =
      recovered (retry_queue_jobs server fuel r.req.queue r.req.topic r.count s)

  -- `RecoverAction`; `none` means that the fuel of `RetryQueue` ran out.
  unfoldable pub recover_action : ℕ → MuxServer → Decoded RecoverReq → Store → Option (Resp × Store)
  unfolding get_muxer
  recover_action fuel ms (refused e) s = some (bad_request (bad_form e), s)
  recover_action fuel ms (decoded r) s = recover_at fuel r s (get_muxer ms r.req.queue r.req.topic)

  abbrev cleaned : ℤ × Option Error × Store → Resp × Store
  cleaned (n, none, s) = (shown (number n), s)
  cleaned (n, some e, s) = (internal_error e, s)

  abbrev clean_at : Req → Store → Option ServerError × Option Muxer → Resp × Store
  clean_at r s (some e, mux) = (bad_request (no_muxer e), s)
  clean_at r s (none, mux) = cleaned (clean_queue server r.queue r.topic retry_queue s)

  -- `CleanFailedJobsAction`.
  unfoldable pub clean_failed_jobs_action : MuxServer → Decoded Req → Store → Resp × Store
  unfolding get_muxer clean_queue
  clean_failed_jobs_action ms (refused e) s = (bad_request (bad_form e), s)
  clean_failed_jobs_action ms (decoded r) s = clean_at r s (get_muxer ms r.queue r.topic)

  abbrev counted : (ℤ × ℤ × ℤ × Option Error) × Store → Resp × Store
  counted ((normal, retry, timeout, none), s) = (shown (lengths normal retry timeout), s)
  counted ((normal, retry, timeout, some e), s) = (internal_error e, s)

  abbrev length_at : Req → Store → Option ServerError × Option Muxer → Resp × Store
  length_at r s (some e, mux) = (bad_request (no_muxer e), s)
  length_at r s (none, mux) = counted (get_length server r.queue r.topic s)

  -- `GetQueueLengthAction`.
  unfoldable pub get_queue_length_action : MuxServer → Decoded Req → Store → Resp × Store
  unfolding get_muxer get_length
  get_queue_length_action ms (refused e) s = (bad_request (bad_form e), s)
  get_queue_length_action ms (decoded r) s = length_at r s (get_muxer ms r.queue r.topic)

-- The worker of a muxer: the answer to a ping, that to a batch, and the printing of a list.
module _ (gen : ℕ → ℕ) (service : Text) (pinged : Muxer → Sent) (sender : Muxer → Jobs → Sent)
    (show : List Text → Text) where
  -- `SendPing` and `SendJobs` of the three kinds of muxer: those of a shell worker do nothing.
  abbrev ping_of : Muxer → Kind → Option Text
  ping_of mux cgi = send_ping mux.queue mux.topic (pinged mux)
  ping_of mux http = send_ping_http show mux.queue mux.topic (pinged mux)
  ping_of mux cmd = none

  abbrev jobs_of : Muxer → Kind → Jobs → Option WorkerResponse
  jobs_of mux cgi jobs = some (send_jobs (sender mux jobs))
  jobs_of mux http jobs = some (send_jobs (sender mux jobs))
  jobs_of mux cmd jobs = none

  abbrev pong : Option Text → Resp
  pong none = shown (said (codes "ok"))
  pong (some e) = shown (said e)

  -- The batch of one job that is sent, and not stored.
  abbrev direct : TopicDataReq → ℕ → Jobs
  direct r n =
      let trace = gen_trace_id gen service n in
      record {
        in_trace_id = trace;
        out_trace_id = [];
        queue_name = r.req.queue;
        topic_name = r.req.topic;
        retrying = false;
        slice = new_job gen trace r.value (suc n) ∷ [];
      }

  abbrev send_at : TopicDataReq → ℕ → Option ServerError × Option Muxer → Option Resp
  send_at r n (some e, mux) = some (bad_request (no_muxer e))
  send_at r n (none, none) = none
  send_at r n (none, some mux) =
      if text_eq r.typ (codes "ping")
      then some (pong (ping_of mux mux.kind))
      else some (shown (response (jobs_of mux mux.kind (direct r n))))

  -- `SendToCgiAction`; a nil muxer would be a panic.
  unfoldable pub send_to_cgi_action : MuxServer → Decoded TopicDataReq → ℕ → Option Resp
  unfolding get_muxer send_ping send_ping_http send_jobs new_job gen_trace_id
  send_to_cgi_action ms (refused e) n = some (bad_request (bad_form e))
  send_to_cgi_action ms (decoded r) n = send_at r n (get_muxer ms r.req.queue r.req.topic)
