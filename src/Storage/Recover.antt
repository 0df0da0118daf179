-- ===== src/Storage/Recover.antt =====
-- storage.go, `RetryQueue`: the oldest jobs of the retry list go behind those of the common list.
use Prim.Native.Nat.{min}
use pepperbus.Base.{
  ◌-◌, ℕ, zero, suc, ◌+◌, ◌≤◌, ◌<◌, ◌≡◌, refl, List, [], ◌∷◌, ◌++◌, append_assoc, append-nil, Bool,
  false, ◌&&◌, Option, none, some, arith, if◌then◌else◌, length, take, drop, Bool-cases, inl, inr,
  ◌∙◌, ap,
}
use pepperbus.Base.Int.{ℤ, pos, negsuc, ltb_ℤ, leb_ℤ}
use pepperbus.Base.Text.{Text, text_eq}
use pepperbus.Redis
use pepperbus.Redis.Wire.{Server, Error, key_not_exist, ok, err}
use pepperbus.Redis.Healthy.{Healthy}
use pepperbus.Redis.Laws.{values, rpoplpush_oldest, rpoplpush_empty}
use pepperbus.Storage.{retry_loop, retry_queue_jobs}
use pepperbus.Storage.Key.{retry-ne-common, retry_queue, common_queue, get_key}

-- How many of `xs` the loop moves after `n` jobs.
abbrev stop_now : ℤ → ℕ → Bool
stop_now count n = ltb_ℤ (pos 0) count && leb_ℤ count (pos (n + 1))

moves {ℓ} : {A : Type ℓ} → ℤ → ℕ → List A → ℕ
moves count n [] = 0
moves count n (x ∷ xs) =
    let more = moves count (n + 1) xs in if stop_now count n then 1 else suc more

-- With a positive count the loop stops there, otherwise at the end of the list.
abbrev pub quota : ℤ → ℕ → ℕ
quota (pos zero) len = len
quota (pos (suc c)) len = min (suc c) len
quota (negsuc c) len = len

moves_unlimited : (n : ℕ) (xs : List Text) → moves (pos 0) n xs ≡ length xs
unfolding moves
moves_unlimited n [] = refl
moves_unlimited n (x ∷ xs) = omega (arith, moves_unlimited (n + 1) xs)

moves_negative : (c n : ℕ) (xs : List Text) → moves (negsuc c) n xs ≡ length xs
unfolding moves
moves_negative c n [] = refl
moves_negative c n (x ∷ xs) = ground (arith, moves_negative c (n + 1) xs)

moves_limited :
    (c n : ℕ) (xs : List Text) → n ≤ c → moves (pos (suc c)) n xs ≡ min (suc c - n) (length xs)
unfolding moves
moves_limited c n [] h = omega arith
moves_limited c n (x ∷ xs) h = ground (arith, moves_limited c (n + 1) xs)

moves-quota : (count : ℤ) (xs : List Text) → moves count 0 xs ≡ quota count (length xs)
moves-quota (pos zero) xs = moves_unlimited 0 xs
moves-quota (pos (suc c)) xs = moves_limited c 0 xs (omega arith) ∙ omega arith
moves-quota (negsuc c) xs = moves_negative c 0 xs

module _ (server : Server) (h : Healthy server) where
  open server use {Store}

  -- The loop's outcome: how many jobs it counted, and what became of the two lists.
  abbrev Moved : Text → Text → Store → ℕ → ℕ → Option (ℕ × Option Error × Store) → Type 0
  Moved k d s n m r =
      (s' : Store) × (r ≡ some (n + m, none, s'))
      × (values server h k s' ≡ drop m (values server h k s))
      × (values server h d s' ≡ values server h d s ++ take m (values server h k s))

  -- One round of the loop, on each of its three ways out.
  round :
      (fuel : ℕ) (k d : Text) (count : ℤ) (n : ℕ) (s : Store) {v : Text}
      → (Redis.rpoplpush server k d s).0 ≡ ok v
      → retry_loop server (suc fuel) k d count n s ≡ (
          let s' = (Redis.rpoplpush server k d s).1 in
          if stop_now count n
          then some (n + 1, none, s')
          else retry_loop server fuel k d count (n + 1) s')
  unfolding retry_loop
  round fuel k d count n s e = rw (e, retry_loop) refl

  round_empty :
      (fuel : ℕ) (k d : Text) (count : ℤ) (n : ℕ) (s : Store)
      → (Redis.rpoplpush server k d s).0 ≡ err key_not_exist
      → retry_loop server (suc fuel) k d count n s
        ≡ some (n, none, (Redis.rpoplpush server k d s).1)
  unfolding retry_loop
  round_empty fuel k d count n s e = rw (e, retry_loop) refl

  loop-Moved :
      (fuel : ℕ) (k d : Text) (count : ℤ) (n : ℕ) (s : Store) (xs : List Text)
      → text_eq k d ≡ false
      → values server h k s ≡ xs
      → length xs < fuel
      → Moved k d s n (moves count n xs) (retry_loop server fuel k d count n s)
  unfolding moves
  loop-Moved zero k d count n s xs apart e enough = elim enough [ ]
  loop-Moved (suc fuel) k d count n s [] apart e enough =
      let (answer, kept, same) = rpoplpush_empty server h k d s apart e in
      (
        (Redis.rpoplpush server k d s).1,
        rw (round_empty fuel k d count n s answer) (ground arith),
        cc (kept, e),
        simp append-nil same,
      )
  loop-Moved (suc fuel) k d count n s (x ∷ xs) apart e enough =
      let (answer, left, joined) = rpoplpush_oldest server h k d s x xs apart e in
      let s' = (Redis.rpoplpush server k d s).1 in
      elim (Bool-cases (stop_now count n)) [
        | inl last ↦ (
          s',
          rw (round fuel k d count n s answer, last) refl,
          rw (last, e) left,
          rw (last, e) joined,
        )
        | inr more ↦
            let (s'', r, src, dest) =
              loop-Moved fuel k d count (n + 1) s' xs apart left (omega arith) in
            (
              s'',
              rw (round fuel k d count n s answer, more) (r ∙ ground arith),
              rw (more, e) (src ∙ ap (drop _) left),
              rw (more, e)
                  (dest ∙ rw (joined, left) (append_assoc (values server h d s) (x ∷ []) _)),
            )
      ]

  -- On a healthy server `RetryQueue` ends without an error. It moves as many of the oldest retry
  -- jobs as the count allows (all of them, if the count is not positive) behind the common jobs, in
  -- their order, and returns how many they were; fuel beyond the length of the retry list suffices.
  pub retry_queue_jobs-moves :
      (fuel : ℕ) (q t : Text) (count : ℤ) (s : Store)
      → let retry = values server h (get_key q t retry_queue) s in
        let common = values server h (get_key q t common_queue) s in
        let m = quota count (length retry) in
        length retry < fuel
        → (s' : Store) × (retry_queue_jobs server fuel q t count s ≡ some (m, none, s'))
          × (values server h (get_key q t retry_queue) s' ≡ drop m retry)
          × (values server h (get_key q t common_queue) s' ≡ common ++ take m retry)
  unfolding retry_queue_jobs
  retry_queue_jobs-moves fuel q t count s enough =
      let k = get_key q t retry_queue in
      let xs = values server h k s in
      let (s', r, src, dest) =
        loop-Moved fuel k (get_key q t common_queue) count 0 s xs (retry-ne-common q t) refl
          enough in
      rw (← moves-quota count xs) (s', r ∙ ground arith, src, dest)
