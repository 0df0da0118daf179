-- ===== src/Mux/Consume.antt =====
-- mux.go, the worker loop: where a job goes in one round.
use pepperbus.Base.{
  ◌≡◌, ap, ◌∙◌, List, [], ◌∷◌, Bool, true, false, ◌&&◌, some, arith, if◌then◌else◌, inl, inr,
  Bool-cases,
}
use pepperbus.Base.Int.{ℤ}
use pepperbus.Base.Text.{Text, text_eq}
use pepperbus.Job.{Job, Jobs, Codec, RoundTrip}
use pepperbus.Redis.Wire.{Server}
use pepperbus.Redis.Healthy.{Healthy}
use pepperbus.Response.{WorkerResponse, Sent, response_success, response_not_found, bad_gateway}
use pepperbus.Storage.{stamp, add_queue, get_jobs_from_queue, single}
use pepperbus.Storage.Topic.{Queues, replace, append, view, view-add_queue, view-get_jobs}
use pepperbus.Storage.Key.{common_queue, retry_queue}
use pepperbus.Mux.{consume, handle, settle, send_jobs, mark_attempt, conn_refused}
use pepperbus.Mux.Types.{again, ping_again, TopicRetry, Outcome}

-- Whether the worker goes back to the pings: no subscription, or a refused connection.
abbrev pub must_ping : WorkerResponse → Bool
must_ping r =
    if text_eq r.code response_not_found then true else text_eq r.code bad_gateway && conn_refused r

settle-store :
    (codec : Codec) (server : Server) (r : WorkerResponse) (jobs : Jobs) (s : server.Store)
    → (settle codec server r jobs s).store ≡ (
        if text_eq r.code response_success
        then s
        else (add_queue codec server jobs retry_queue s).2)
unfolding settle
settle-store codec server r jobs s = ground arith

settle-next :
    (codec : Codec) (server : Server) (r : WorkerResponse) (jobs : Jobs) (s : server.Store)
    → text_eq r.code response_success ≡ false
    → (settle codec server r jobs s).next ≡ (if must_ping r then ping_again else again)
unfolding settle
settle-next codec server r jobs s h = ground arith

module _ (codec : Codec) (server : Server) (healthy : Healthy server) {IsClean : Job → Type 0}
    (trip : RoundTrip codec IsClean) where
  open server use {Store}

  module _ (q t trace : Text) (conf : TopicRetry) (now : ℤ) (send : Jobs → Sent) (s : Store)
      (job : Job) (rest : List Job)
      (oldest : (view codec server healthy q t s).common ≡ job ∷ rest) where
    abbrev before : Queues
    before = view codec server healthy q t s

    abbrev marked : Job
    marked = mark_attempt conf now job

    abbrev response : WorkerResponse
    response = send_jobs (send (single trace q t marked))

    abbrev outcome : Outcome Store
    outcome = consume codec server q t (some conf) false trace now send s

    -- A worker takes the oldest job of the common queue and sends it, marked as an attempt. If the
    -- worker answers 200 the job is gone; after any other answer, and after an error of the
    -- transport, it is the newest job of the retry queue, with one more retry counted. Nothing else
    -- in the three queues changes.
    pub consume-moves :
        IsClean (stamp true marked)
        → view codec server healthy q t outcome.store ≡ (
            if text_eq response.code response_success
            then replace common_queue rest before
            else append retry_queue (stamp true marked ∷ []) (replace common_queue rest before))
    unfolding consume
    consume-moves clean =
        let (answer, left) =
          view-get_jobs codec server healthy trace q t common_queue s job rest oldest in
        let s' = (get_jobs_from_queue codec server trace q t common_queue s).1 in
        let jobs = single trace q t marked in
        rw (answer, handle)
          (ap (view codec server healthy q t) (settle-store codec server response jobs s')
            ∙ elim (Bool-cases (text_eq response.code response_success)) [
              | inl success ↦ rw success left
              | inr failure ↦ rw failure (
                  view-add_queue codec server healthy trip jobs retry_queue s' (clean, tt)
                  ∙ ap (append retry_queue (stamp true marked ∷ [])) left)
            ])

    -- After an answer that is no success the worker goes on, or back to the pings when it was told
    -- that the topic is not registered or when the connection was refused.
    pub consume-next :
        text_eq response.code response_success ≡ false
        → outcome.next ≡ (if must_ping response then ping_again else again)
    unfolding consume
    consume-next failure =
        let (answer, left) =
          view-get_jobs codec server healthy trace q t common_queue s job rest oldest in
        rw (answer, handle) (settle-next codec server response _ _ failure)
