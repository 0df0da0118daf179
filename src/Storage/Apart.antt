-- ===== src/Storage/Apart.antt =====
-- storage.go, `RetryQueue`: the lists that it does not touch.
use pepperbus.Base.{
  ℕ, zero, suc, ◌+◌, ◌≡◌, refl, ◌∙◌, subst, Bool, true, false, ◌&&◌, Option, none, some,
  if◌then◌else◌,
}
use pepperbus.Base.Int.{ℤ, pos, ltb_ℤ, leb_ℤ}
use pepperbus.Base.Text.{Text, text_eq}
use pepperbus.Redis
use pepperbus.Redis.Wire.{Server, Error, ok, err, Result}
use pepperbus.Redis.Healthy.{Healthy}
use pepperbus.Storage.{retry_loop, retry_queue_jobs}
use pepperbus.Storage.Key.{get_key, get_key-Differ, common_queue, retry_queue, timeout_queue}

module _ (server : Server) (h : Healthy server) where
  open server use {Store}

  -- The list j is the same in a state that a run may have reached.
  abbrev Same : Text → Store → Option (ℕ × Option Error × Store) → Type 0
  Same j s none = Unit
  Same j s (some (n, e, s')) = h.items s' j ≡ h.items s j

  Same-earlier :
      (j : Text) (s s' : Store) (r : Option (ℕ × Option Error × Store))
      → h.items s' j ≡ h.items s j
      → Same j s' r
      → Same j s r
  Same-earlier j s s' none e same = tt
  Same-earlier j s s' (some (n, x, s'')) e same = same ∙ e

  Same-if :
      (b : Bool) (j : Text) (s : Store) (x y : Option (ℕ × Option Error × Store))
      → Same j s x
      → Same j s y
      → Same j s (if b then x else y)
  Same-if true j s x y hx hy = hx
  Same-if false j s x y hx hy = hy

  rpoplpush-apart :
      (k d : Text) (s : Store) (j : Text)
      → text_eq k d ≡ false
      → text_eq k j ≡ false
      → text_eq d j ≡ false
      → h.items (Redis.rpoplpush server k d s).1 j ≡ h.items s j
  unfolding Redis.rpoplpush
  rpoplpush-apart k d s j kd kj dj = rw (h.rpoplpush_items k d s j kd, kj, dj) refl

  answered :
      (answer : Result Text) (stop : Bool) (n : ℕ) (s s' : Store) (j : Text)
      (again : Option (ℕ × Option Error × Store))
      → h.items s' j ≡ h.items s j
      → Same j s again
      → Same j s (elim answer [
        | err Error.key_not_exist ↦ some (n, none, s')
        | err e ↦ some (n, some e, s')
        | ok v ↦ if stop then some (n + 1, none, s') else again
      ])
  answered (err Error.key_not_exist) stop n s s' j again e same = e
  answered (err Error.response_type) stop n s s' j again e same = e
  answered (err (Error.call_failed m)) stop n s s' j again e same = e
  answered (ok v) stop n s s' j again e same =
      Same-if stop j s (some (n + 1, none, s')) again e same

  retry_loop-Same :
      (fuel : ℕ) (k d : Text) (count : ℤ) (n : ℕ) (s : Store) (j : Text)
      → text_eq k d ≡ false
      → text_eq k j ≡ false
      → text_eq d j ≡ false
      → Same j s (retry_loop server fuel k d count n s)
  unfolding retry_loop
  retry_loop-Same zero k d count n s j kd kj dj = tt
  retry_loop-Same (suc fuel) k d count n s j kd kj dj =
      let s' = (Redis.rpoplpush server k d s).1 in
      let e = rpoplpush-apart k d s j kd kj dj in
      answered (Redis.rpoplpush server k d s).0 (ltb_ℤ (pos 0) count && leb_ℤ count (pos (n + 1))) n
        s s' j (retry_loop server fuel k d count (n + 1) s') e
        (Same-earlier j s s' _ e (retry_loop-Same fuel k d count (n + 1) s' j kd kj dj))

  -- `RetryQueue` leaves the timeout list of the topic as it was.
  pub retry_queue_jobs-timeout :
      (fuel : ℕ) (q t : Text) (count : ℤ) (s : Store) (m : ℕ) (s' : Store)
      → retry_queue_jobs server fuel q t count s ≡ some (m, none, s')
      → h.items s' (get_key q t timeout_queue) ≡ h.items s (get_key q t timeout_queue)
  unfolding retry_queue_jobs text_eq
  retry_queue_jobs-timeout fuel q t count s m s' e =
      let key = get_key q t timeout_queue in
      subst (Same key s) e (
        retry_loop-Same fuel (get_key q t retry_queue) (get_key q t common_queue) count 0 s key
          (get_key-Differ q t retry_queue common_queue refl)
          (get_key-Differ q t retry_queue timeout_queue refl)
          (get_key-Differ q t common_queue timeout_queue refl))
