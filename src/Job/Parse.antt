-- ===== src/Job/Parse.antt =====
-- job.go and id.go: `ParseJob`, the batch of a client's command, and the ids of its jobs. The
-- generator (`idgen`) is a parameter: `gen n` is its answer to the n-th call.
pub mod Batch
use pepperbus.Base.{ℕ, suc, ◌+◌, [], ◌∷◌, ◌++◌, List, Option, none, some, length, false}
use pepperbus.Base.Int.{pos}
use pepperbus.Base.Text.{Text, split_once}
use pepperbus.Base.Decimal.{format_uint}
use pepperbus.Job.{Job, Jobs}

-- The separator '/' of a queue and a topic.
abbrev pub slash : ℕ
slash = 47

module _ (gen : ℕ → ℕ) where
  -- `GenId`.
  unfoldable pub gen_id : ℕ → Text
  gen_id n = format_uint (gen n)

  -- `GenTraceId`.
  unfoldable pub gen_trace_id : Text → ℕ → Text
  gen_trace_id service n = format_uint (gen n) ++ service

  unfoldable pub new_job : Text → Text → ℕ → Job
  unfolding gen_id
  new_job trace content n = record {
    id = gen_id n;
    in_trace_id = trace;
    content = content;
    retry = pos 0;
    retry_times = pos 0;
    retry_time = pos 0;
    is_retry = false;
    begin_retry = false;
    retry_residue_time = pos 0;
  }

  -- The loop over the contents: each takes the next id.
  unfoldable pub new_jobs : Text → List Text → ℕ → List Job
  unfolding new_job
  new_jobs trace [] n = []
  new_jobs trace (content ∷ contents) n = new_job trace content n ∷ new_jobs trace contents (suc n)

  abbrev pub ids_of : List Job → List Text
  ids_of [] = []
  ids_of (job ∷ jobs) = job.id ∷ ids_of jobs

  abbrev new_batch : Text → Text → List Text → ℕ → Jobs × List Text
  new_batch trace q contents n = (
    record {
      in_trace_id = trace;
      out_trace_id = [];
      queue_name = q;
      topic_name = [];
      retrying = false;
      slice = new_jobs trace contents n;
    },
    ids_of (new_jobs trace contents n),
  )

  -- `ParseJob` on the arguments of a command, with the calls of the generator before and after:
  -- `none` is the error "invalid job meta info". (It is called with at least one argument.)
  unfoldable pub parse_job : Text → Text → List Text → ℕ → Option (Jobs × List Text) × ℕ
  unfolding new_jobs gen_trace_id
  parse_job service meta contents n = elim (split_once slash meta) [
    | none ↦ (none, n)
    | some (q, t) ↦
        (some (new_batch (gen_trace_id service n) q contents (suc n)), suc n + length contents)
  ]
