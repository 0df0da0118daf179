-- ===== src/Job.antt =====
-- job.go: the job and the batch of jobs that travel between the gateway, the storage and a worker.
pub mod Parse
use pepperbus.Base.{ℕ, List, Bool, Option, some, ◌≡◌}
use pepperbus.Base.Int.{ℤ}
use pepperbus.Base.Text.{Text}

pub record Job : Type 0 where
  pub id : Text
  pub in_trace_id : Text
  pub content : Text
  pub retry : ℤ
  pub retry_times : ℤ
  pub retry_time : ℤ
  pub is_retry : Bool
  pub begin_retry : Bool
  pub retry_residue_time : ℤ

pub record Jobs : Type 0 where
  pub in_trace_id : Text
  pub out_trace_id : Text
  pub queue_name : Text
  pub topic_name : Text
  pub retrying : Bool
  pub slice : List Job

-- `encoding/json` on a job: `Encode` with its error as `none`, and `Decode` into a new job, whose
-- error the program ignores.
pub record Codec : Type 0 where
  pub encode : Job → Option Text
  pub decode : Text → Job

-- Marshalling and unmarshalling give back a job that `IsClean` admits. (`encoding/json` replaces
-- bytes that are not UTF-8, so it gives back the jobs whose strings are UTF-8.)
pub record RoundTrip (codec : Codec) (IsClean : Job → Type 0) : Type 0 where
  pub decode-encode :
      (job : Job) → IsClean job → (v : Text) × (codec.encode job ≡ some v) × (codec.decode v ≡ job)
