-- ===== src/Storage/Topic.antt =====
-- storage.go as a specification: a topic is three queues of jobs, and `AddQueue` and
-- `GetJobsFromQueue` append to one of them and take from one of them.
use pepperbus.Base.{◌≡◌, refl, ◌∙◌, List, [], ◌∷◌, ◌++◌, map, ◌||◌, none, some, All}
use pepperbus.Base.Text.{Text, text_eq}
use pepperbus.Job.{Job, Jobs, Codec, RoundTrip}
use pepperbus.Redis.Wire.{Server, ok}
use pepperbus.Redis.Healthy.{Healthy}
use pepperbus.Redis.Laws.{rpop_other}
use pepperbus.Storage.{stamp, add_queue, get_jobs_from_queue, single}
use pepperbus.Storage.Fifo.{
  contents, push_values-items, contents-add_queue, get_jobs-oldest, get_jobs-empty,
}
use pepperbus.Storage.Key.{
  QueueTyp, common_queue, retry_queue, timeout_queue, is_retry_queue, get_key, Differ,
  get_key-Differ,
}

-- The queues of one topic, each oldest first.
pub record Queues : Type 0 where
  pub common : List Job
  pub retry : List Job
  pub timeout : List Job

abbrev pub of : QueueTyp → Queues → List Job
of common_queue v = v.common
of retry_queue v = v.retry
of timeout_queue v = v.timeout

abbrev pub replace : QueueTyp → List Job → Queues → Queues
replace common_queue xs v = record v { common = xs }
replace retry_queue xs v = record v { retry = xs }
replace timeout_queue xs v = record v { timeout = xs }

abbrev pub append : QueueTyp → List Job → Queues → Queues
append typ xs v = replace typ (of typ v ++ xs) v

-- One queue changed, the other two as they were.
abbrev Changed : QueueTyp → List Job → Queues → Queues → Type 0
Changed typ xs v v' = (of typ v' ≡ xs) × ((k : QueueTyp) → Differ typ k → of k v' ≡ of k v)

Changed-replace :
    (typ : QueueTyp) (xs : List Job) (v v' : Queues) → Changed typ xs v v' → v' ≡ replace typ xs v
unfolding text_eq
Changed-replace common_queue xs v v' (e, same) = λ i. record {
  common = e i;
  retry = same retry_queue refl i;
  timeout = same timeout_queue refl i;
}
Changed-replace retry_queue xs v v' (e, same) = λ i. record {
  common = same common_queue refl i;
  retry = e i;
  timeout = same timeout_queue refl i;
}
Changed-replace timeout_queue xs v v' (e, same) = λ i. record {
  common = same common_queue refl i;
  retry = same retry_queue refl i;
  timeout = e i;
}

pub view_ext : (v v' : Queues) → ((k : QueueTyp) → of k v' ≡ of k v) → v' ≡ v
view_ext v v' same = λ i. record {
  common = same common_queue i;
  retry = same retry_queue i;
  timeout = same timeout_queue i;
}

module _ (codec : Codec) (server : Server) (healthy : Healthy server) where
  open server use {Store}

  unfoldable pub view : Text → Text → Store → Queues
  view q t s = record {
    common = contents codec server healthy q t common_queue s;
    retry = contents codec server healthy q t retry_queue s;
    timeout = contents codec server healthy q t timeout_queue s;
  }

  of-view :
      (q t : Text) (k : QueueTyp) (s : Store)
      → of k (view q t s) ≡ contents codec server healthy q t k s
  unfolding view
  of-view q t common_queue s = refl
  of-view q t retry_queue s = refl
  of-view q t timeout_queue s = refl

  pub contents_of_items :
      (q t : Text) (k : QueueTyp) (s s' : Store)
      → healthy.items s' (get_key q t k) ≡ healthy.items s (get_key q t k)
      → of k (view q t s') ≡ of k (view q t s)
  unfolding contents
  contents_of_items q t k s s' e = rw (of-view q t k s', of-view q t k s, e) refl

  module _ {IsClean : Job → Type 0} (trip : RoundTrip codec IsClean) where
    -- `AddQueue` appends the stamped jobs to one queue of the batch's topic.
    pub view-add_queue :
        (jobs : Jobs) (typ : QueueTyp) (s : Store)
        → let retrying = is_retry_queue typ || jobs.retrying in
          let q = jobs.queue_name in
          let t = jobs.topic_name in
          All (λ job. IsClean (stamp retrying job)) jobs.slice
          → view q t (add_queue codec server jobs typ s).2
            ≡ append typ (map (stamp retrying) jobs.slice) (view q t s)
    view-add_queue jobs typ s clean =
        let q = jobs.queue_name in
        let t = jobs.topic_name in
        let s' = (add_queue codec server jobs typ s).2 in
        Changed-replace typ _ (view q t s) (view q t s') (
          rw (of-view q t typ s', of-view q t typ s)
              (contents-add_queue codec server healthy trip jobs typ s clean),
          λ k apart. contents_of_items q t k s s' (
              unfold add_queue in
              rw (push_values-items codec server healthy _ _ _ s _, get_key-Differ q t typ k apart)
                refl),
        )

  get_jobs-items :
      (trace q t : Text) (typ k : QueueTyp) (s : Store)
      → Differ typ k
      → healthy.items (get_jobs_from_queue codec server trace q t typ s).1 (get_key q t k)
        ≡ healthy.items s (get_key q t k)
  unfolding get_jobs_from_queue
  get_jobs-items trace q t typ k s apart =
      rpop_other server healthy _ _ s (get_key-Differ q t typ k apart)

  -- `GetJobsFromQueue` takes the oldest job from one queue.
  pub view-get_jobs :
      (trace q t : Text) (typ : QueueTyp) (s : Store) (job : Job) (rest : List Job)
      → of typ (view q t s) ≡ job ∷ rest
      → let (answer, s') = get_jobs_from_queue codec server trace q t typ s in
        (answer ≡ ok (some (single trace q t job))) × (view q t s' ≡ replace typ rest (view q t s))
  view-get_jobs trace q t typ s job rest e =
      let s' = (get_jobs_from_queue codec server trace q t typ s).1 in
      let (answer, left) =
        get_jobs-oldest codec server healthy trace q t typ s job rest (rw of-view at e) in
      (
        answer,
        Changed-replace typ rest (view q t s) (view q t s') (
          of-view q t typ s' ∙ left,
          λ k apart. contents_of_items q t k s s' (get_jobs-items trace q t typ k s apart),
        ),
      )

  -- From an empty queue it takes nothing.
  pub view-get_jobs_empty :
      (trace q t : Text) (typ : QueueTyp) (s : Store)
      → of typ (view q t s) ≡ []
      → let (answer, s') = get_jobs_from_queue codec server trace q t typ s in
        (answer ≡ ok none) × (view q t s' ≡ replace typ [] (view q t s))
  view-get_jobs_empty trace q t typ s e =
      let s' = (get_jobs_from_queue codec server trace q t typ s).1 in
      let (answer, left) = get_jobs-empty codec server healthy trace q t typ s (rw of-view at e) in
      (
        answer,
        Changed-replace typ [] (view q t s) (view q t s') (
          of-view q t typ s' ∙ left,
          λ k apart. contents_of_items q t k s s' (get_jobs-items trace q t typ k s apart),
        ),
      )
