-- ===== src/Mux/Retry.antt =====
-- mux.go, the retry loop: where a job of the retry queue goes in one round.
use pepperbus.Base.{
  ◌≡◌, ap, ◌∙◌, List, [], ◌∷◌, Bool, true, false, ◌&&◌, ◌||◌, if◌then◌else◌, inl, inr, Bool-cases,
}
use pepperbus.Base.Int.{ℤ, pos, ltb_ℤ}
use pepperbus.Base.Text.{Text}
use pepperbus.Job.{Job, Codec, RoundTrip}
use pepperbus.Redis.Wire.{Server}
use pepperbus.Redis.Healthy.{Healthy}
use pepperbus.Storage.{stamp, get_jobs_from_queue, single}
use pepperbus.Storage.Topic.{Queues, replace, append, view, view-add_queue, view-get_jobs}
use pepperbus.Storage.Key.{QueueTyp, is_retry_queue, common_queue, retry_queue, timeout_queue}
use pepperbus.Mux.{begin, with_time, wait_of, is_due, spend, handle_retry, retry_round}

module _ (codec : Codec) (server : Server) (healthy : Healthy server) {IsClean : Job → Type 0}
    (trip : RoundTrip codec IsClean) where
  open server use {Store}

  module _ (q t trace : Text) (now : ℤ) (s : Store) (job : Job) (rest : List Job)
      (oldest : (view codec server healthy q t s).retry ≡ job ∷ rest) where
    abbrev before : Queues
    before = view codec server healthy q t s

    -- The job with its retry begun, and with the time of the first check where it had none.
    abbrev tried : Job
    tried = with_time now (begin job)

    abbrev may_retry : Bool
    may_retry = job.is_retry && ltb_ℤ (pos 0) job.retry_residue_time

    -- The retry loop takes the oldest job of the retry queue. If the job may be retried and has
    -- retry time left, it goes to the common queue once it is due, the wait taken off its retry
    -- time, and otherwise back to the end of the retry queue. A job that may not be retried, or has
    -- used its time up, goes to the timeout queue. Nothing else in the three queues changes.
    pub retry_round-moves :
        IsClean (spend (wait_of (begin job)) tried)
        → IsClean (stamp true tried)
        → IsClean (begin job)
        → view codec server healthy q t (retry_round codec server q t false trace now s).1 ≡ (
            let taken = replace retry_queue rest before in
            if may_retry
            then (if is_due now tried
                then append common_queue (spend (wait_of (begin job)) tried ∷ []) taken
                else append retry_queue (stamp true tried ∷ []) taken)
            else append timeout_queue (begin job ∷ []) taken)
    unfolding retry_round
    retry_round-moves due_clean later_clean over_clean =
        let (answer, left) =
          view-get_jobs codec server healthy trace q t retry_queue s job rest oldest in
        let s' = (get_jobs_from_queue codec server trace q t retry_queue s).1 in
        let add =
          λ (typ : QueueTyp) (moved : Job)
              (clean : IsClean (stamp (is_retry_queue typ || false) moved)).
            view-add_queue codec server healthy trip (single trace q t moved) typ s' (clean, tt)
            ∙ ap (append typ (stamp (is_retry_queue typ || false) moved ∷ [])) left in
        rw (answer, handle_retry)
          (elim (Bool-cases may_retry) [
            | inl more ↦ elim (Bool-cases (is_due now tried)) [
              | inl due ↦ rw (more, due) (add common_queue _ due_clean)
              | inr early ↦ rw (more, early) (add retry_queue _ later_clean)
            ]
            | inr over ↦ rw over (add timeout_queue _ over_clean)
          ])
