-- ===== src/Job/Parse/Batch.antt =====
-- job.go: what `ParseJob` makes of a command.
use pepperbus.Base.{
  ℕ, suc, ◌+◌, ◌^◌, ◌≤◌, ◌<◌, ◌≡◌, ◌≢◌, refl, ap, [], ◌∷◌, ◌++◌, List, map, none, some, length, All,
  arith, false,
}
use pepperbus.Base.Text.{Text}
use pepperbus.Base.Split.{Without, split_once-append, split_once-none}
use pepperbus.Base.Decimal.{format_uint-injective}
use pepperbus.Job.{Job, Jobs}
use pepperbus.Job.Parse.{slash, gen_id, gen_trace_id, new_jobs, ids_of, parse_job}

-- No text stands twice in the list.
abbrev pub NoRepeat : List Text → Type 0
NoRepeat [] = Unit
NoRepeat (x ∷ xs) = All (λ y. x ≢ y) xs × NoRepeat xs

module _ (gen : ℕ → ℕ) where
  contents_lem :
      (trace : Text) (contents : List Text) (n : ℕ)
      → map Job.content (new_jobs gen trace contents n) ≡ contents
  unfolding new_jobs
  contents_lem trace [] n = refl
  contents_lem trace (c ∷ cs) n = ap (◌∷◌ c) (contents_lem trace cs (suc n))

  traces_lem :
      (trace : Text) (contents : List Text) (n : ℕ)
      → All (λ job. job.in_trace_id ≡ trace) (new_jobs gen trace contents n)
  unfolding new_jobs
  traces_lem trace [] n = tt
  traces_lem trace (c ∷ cs) n = (refl, traces_lem trace cs (suc n))

module _ (gen : ℕ → ℕ) (calls : ℕ)
    (unique : (m n : ℕ) → m < calls → n < calls → gen m ≡ gen n → m ≡ n)
    (bounded : (n : ℕ) → n < calls → gen n < 2 ^ 64) where
  gen_id-injective : (m n : ℕ) → m < calls → n < calls → gen_id gen m ≡ gen_id gen n → m ≡ n
  unfolding gen_id
  gen_id-injective m n hm hn e =
      unique m n hm hn (format_uint-injective (gen m) (gen n) (bounded m hm) (bounded n hn) e)

  later_ids :
      (trace : Text) (contents : List Text) (m n : ℕ)
      → m < n
      → n + length contents ≤ calls
      → All (λ y. gen_id gen m ≢ y) (ids_of gen (new_jobs gen trace contents n))
  unfolding new_jobs
  later_ids trace [] m n h enough = tt
  later_ids trace (c ∷ cs) m n h enough = (
    λ e.
        omega (arith, h, gen_id-injective m n (omega (arith, h, enough)) (omega (arith, enough)) e),
    later_ids trace cs m (suc n) (omega (arith, h)) (omega (arith, enough)),
  )

  ids-NoRepeat :
      (trace : Text) (contents : List Text) (n : ℕ)
      → n + length contents ≤ calls
      → NoRepeat (ids_of gen (new_jobs gen trace contents n))
  unfolding new_jobs
  ids-NoRepeat trace [] n enough = tt
  ids-NoRepeat trace (c ∷ cs) n enough = (
    later_ids trace cs n (suc n) (omega arith) (omega (arith, enough)),
    ids-NoRepeat trace cs (suc n) (omega (arith, enough)),
  )

  -- Where the generator's answers to these calls are distinct uint64 numbers, and the queue's name
  -- has no '/', `ParseJob` answers a batch for that queue, with no topic and one job for each
  -- content, in their order; all carry the batch's trace id, and the ids, which are the second
  -- answer, are all different. Without a '/' in the first argument it answers the error and calls no
  -- generator.
  pub parse_job_lem :
      (service q t : Text) (contents : List Text) (n : ℕ)
      → Without slash q
      → suc n + length contents ≤ calls
      → ((jobs : Jobs) × (parse_job gen service (q ++ slash ∷ t) contents n
            ≡ (some (jobs, ids_of gen jobs.slice), suc n + length contents))
          × (jobs.queue_name ≡ q)
          × (jobs.topic_name ≡ [])
          × (map Job.content jobs.slice ≡ contents)
          × All (λ job. job.in_trace_id ≡ jobs.in_trace_id) jobs.slice
          × NoRepeat (ids_of gen jobs.slice))
        × (parse_job gen service q contents n ≡ (none, n))
  unfolding parse_job
  parse_job_lem service q t contents n h enough =
      let trace = gen_trace_id gen service n in
      (
        (
          record {
            in_trace_id = trace;
            out_trace_id = [];
            queue_name = q;
            topic_name = [];
            retrying = false;
            slice = new_jobs gen trace contents (suc n);
          },
          rw (parse_job, split_once-append slash q t h) refl,
          refl,
          refl,
          contents_lem gen trace contents (suc n),
          traces_lem gen trace contents (suc n),
          ids-NoRepeat trace contents (suc n) enough,
        ),
        rw (parse_job, split_once-none slash q h) refl,
      )
