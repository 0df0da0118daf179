-- ===== src/Admin/Counts.antt =====
-- admin.go: the lengths that are shown after jobs were recovered or removed.
use pepperbus.Base.{
  ℕ, ◌+◌, ◌-◌, ◌<◌, ◌≤◌, ◌≡◌, refl, sym, ap, ◌∙◌, zero, suc, [], none, some, arith, length,
  length-append, length-reverse, length-take, length-drop, Option, take,
}
use pepperbus.Base.Int.{ℤ, pos, negsuc}
use pepperbus.Base.Text.{Text, text_eq, text_eq_refl}
use pepperbus.Redis.Wire.{Server, Error}
use pepperbus.Redis.Healthy.{Healthy}
use pepperbus.Redis.Laws.{values}
use pepperbus.MuxServer.{MuxServer, Muxer}
use pepperbus.MuxServer.Dispatch.{get_muxer}
use pepperbus.Storage.{clean_queue, get_length}
use pepperbus.Storage.Key.{
  QueueTyp, common_queue, retry_queue, timeout_queue, get_key, get_key-Differ, Differ,
}
use pepperbus.Storage.Maintain.{clean_queue_lem, get_length_lem}
use pepperbus.Storage.Recover.{quota, retry_queue_jobs-moves}
use pepperbus.Storage.Apart.{retry_queue_jobs-timeout}
use pepperbus.Admin.{
  Req, decoded, shown, number, lengths, recover_action, clean_failed_jobs_action,
  get_queue_length_action, counted, cleaned, recovered,
}

quota_bounded : (count : ℤ) (n : ℕ) → quota count n ≤ n
quota_bounded (pos zero) n = omega arith
quota_bounded (pos (suc c)) n = omega arith
quota_bounded (negsuc c) n = omega arith

module _ (server : Server) (h : Healthy server) where
  open server use {Store}

  -- How many values a list of the topic has.
  abbrev pub size : Req → QueueTyp → Store → ℕ
  size r typ s = length (h.items s (get_key r.queue r.topic typ))

  length-values : (k : Text) (s : Store) → length (values server h k s) ≡ length (h.items s k)
  unfolding values
  length-values k s = length-reverse (h.items s k)

  cleaned_lem :
      (c : ℤ × Option Error × Store) (n : ℕ)
      → c.0 ≡ pos n
      → c.1 ≡ none
      → cleaned server c ≡ (shown (number (pos n)), c.2)
  cleaned_lem c n counted fine = λ i. cleaned server (counted i, fine i, c.2)

  module _ (ms : MuxServer) (r : Req) (mux : Muxer)
      (found : get_muxer ms r.queue r.topic ≡ (none, some mux)) where
    get_queue_length_action-size :
        (s : Store)
        → (get_queue_length_action server ms (decoded r) s).0
          ≡ shown (
              lengths
                (pos (size r common_queue s))
                (pos (size r retry_queue s))
                (pos (size r timeout_queue s)))
    unfolding get_queue_length_action
    get_queue_length_action-size s = rw found (
        ap (λ x. (counted server (x, (get_length server r.queue r.topic s).1)).0)
          (get_length_lem server h r.queue r.topic s))

    -- The lengths that are shown, where those of the lists are known.
    get_queue_length_action_sizes :
        (s : Store) (a b c : ℕ)
        → size r common_queue s ≡ a
        → size r retry_queue s ≡ b
        → size r timeout_queue s ≡ c
        → (get_queue_length_action server ms (decoded r) s).0
          ≡ shown (lengths (pos a) (pos b) (pos c))
    get_queue_length_action_sizes s a b c ha hb hc =
        get_queue_length_action-size s ∙ λ i. shown (lengths (pos (ha i)) (pos (hb i)) (pos (hc i)))

    -- For a topic with a muxer, `RecoverAction` answers how many jobs it recovered: the count that
    -- was asked for, at most all, and all for a count that is not positive. The lengths that
    -- `GetQueueLengthAction` shows next are those of before, with that many moved from the retry
    -- queue to the common queue. (Fuel beyond the length of the retry list suffices.)
    pub recover_action-lengths :
        (fuel : ℕ) (count : ℤ) (s : Store)
        → size r retry_queue s < fuel
        → let m = quota count (size r retry_queue s) in
          (s' : Store) × (recover_action server fuel ms
              (decoded (record { req = r; count = count }))
              s
            ≡ some (shown (number (pos m)), s'))
          × ((get_queue_length_action server ms (decoded r) s').0
              ≡ shown (
                  lengths
                    (pos (size r common_queue s + m))
                    (pos (size r retry_queue s - m))
                    (pos (size r timeout_queue s))))
    unfolding recover_action
    recover_action-lengths fuel count s enough =
        let retry = get_key r.queue r.topic retry_queue in
        let common = get_key r.queue r.topic common_queue in
        let m = quota count (size r retry_queue s) in
        let same = length-values retry s in
        let (s', e, left, joined) =
          retry_queue_jobs-moves server h fuel r.queue r.topic count s
            (omega (arith, same, enough)) in
        let em : quota count (length (values server h retry s)) ≡ m = ap (quota count) same in
        let xs = values server h retry s in
        (
          s',
          rw found (ap (recovered server) e ∙ rw em refl),
          get_queue_length_action_sizes s' _ _ _
              (sym (length-values common s')
                ∙ (ap length joined
                    ∙ (length-append (values server h common s) (take _ xs)
                        ∙ omega (
                          arith,
                          length-values common s,
                          em,
                          length-take _ xs (quota_bounded count (length xs)),
                        ))))
              (sym (length-values retry s')
                ∙ (ap length left ∙ (length-drop _ xs ∙ omega (arith, em, same))))
              (ap length (retry_queue_jobs-timeout server h fuel r.queue r.topic count s _ s' e)),
        )

    -- `CleanQueue` on the retry queue leaves the other lists of the topic.
    kept :
        (typ : QueueTyp) (s : Store)
        → Differ retry_queue typ
        → size r typ (clean_queue server r.queue r.topic retry_queue s).2 ≡ size r typ s
    kept typ s apart = ap length (
        (clean_queue_lem server h r.queue r.topic retry_queue s).2 (get_key r.queue r.topic typ)
        ∙ rw (get_key-Differ r.queue r.topic retry_queue typ apart) refl)

    removed :
        (s : Store) → size r retry_queue (clean_queue server r.queue r.topic retry_queue s).2 ≡ 0
    removed s =
        let retry = get_key r.queue r.topic retry_queue in
        let e : h.items (clean_queue server r.queue r.topic retry_queue s).2 retry ≡ [] =
          (clean_queue_lem server h r.queue r.topic retry_queue s).2 retry
          ∙ rw (text_eq_refl retry) refl in
        ap length e

    -- For a topic with a muxer, `CleanFailedJobsAction` answers how many jobs waited in the retry
    -- queue, and `GetQueueLengthAction` shows next the lengths of before, with 0 for that queue.
    pub clean_failed_jobs_action-lengths :
        (s : Store)
        → let (resp, s') = clean_failed_jobs_action server ms (decoded r) s in
          (resp ≡ shown (number (pos (size r retry_queue s))))
          × ((get_queue_length_action server ms (decoded r) s').0
              ≡ shown
                  (lengths (pos (size r common_queue s)) (pos 0) (pos (size r timeout_queue s))))
    unfolding clean_failed_jobs_action text_eq
    clean_failed_jobs_action-lengths s =
        let (n, e, rest) = clean_queue_lem server h r.queue r.topic retry_queue s in
        let all = cleaned_lem (clean_queue server r.queue r.topic retry_queue s) _ n e in
        let s' = (clean_queue server r.queue r.topic retry_queue s).2 in
        rw (found, all)
          (
            refl,
            get_queue_length_action_sizes s' _ _ _ (kept common_queue s refl) (removed s)
                (kept timeout_queue s refl),
          )
