-- ===== src/Records/Trim.antt =====
-- task_debug.go: how many records are kept.
use pepperbus.Base.{
  ℕ, zero, suc, ◌<◌, ◌≤◌, ◌≡◌, refl, ◌∙◌, List, [], ◌∷◌, Bool, true, false, length, leb, take,
  arith, if◌then◌else◌, inl, inr, Bool-cases,
}
use pepperbus.Base.Int.{pos, leb_ℤ}
use pepperbus.Base.Text.{Text, text_eq, text_eq_refl}
use pepperbus.Records.{task_key, task_info, add_task, trimmed}
use pepperbus.Redis
use pepperbus.Redis.Wire.{Server, ok}
use pepperbus.Redis.Healthy.{Healthy}
use pepperbus.Redis.Laws.{llen_answer}

-- What a list of records becomes.
abbrev pub kept : Text → List Text → List Text
kept info old = if leb 100 (suc (length old)) then take 51 (info ∷ old) else info ∷ old

leb_pos : (m n : ℕ) → leb_ℤ (pos m) (pos n) ≡ leb m n
leb_pos m n = ground arith

take_short : (n : ℕ) (xs : List Text) → length (take n xs) ≤ n
take_short zero xs = omega arith
take_short (suc n) [] = omega arith
take_short (suc n) (x ∷ xs) = omega (arith, take_short n xs)

kept_short : (info : Text) (old : List Text) → length old < 100 → length (kept info old) < 100
kept_short info old few = elim (Bool-cases (leb 100 (suc (length old)))) [
  | inl full ↦ rw full (omega (arith, take_short 50 old))
  | inr free ↦ rw free (ground (arith, free))
]

choose :
    (full hit : Bool) (x y z : List Text)
    → (if full then (if hit then x else if hit then y else z) else if hit then y else z)
      ≡ (if hit then (if full then x else y) else z)
choose true true x y z = refl
choose true false x y z = refl
choose false true x y z = refl
choose false false x y z = refl

module _ (server : Server) (h : Healthy server) where
  open server use {Store}

  pushed_items :
      (key v : Text) (s : Store) (j : Text)
      → h.items (Redis.lpush server key (v ∷ []) s).1 j
        ≡ (if text_eq key j then v ∷ h.items s key else h.items s j)
  unfolding Redis.lpush
  pushed_items key v s j = h.lpush_items key (v ∷ []) s j

  trimmed_items :
      (key : Text) (n : ℕ) (s : Store) (j : Text)
      → h.items (trimmed server key (ok (pos n)) s) j ≡ (
          if leb 100 n
          then (if text_eq key j then take 51 (h.items s key) else h.items s j)
          else h.items s j)
  unfolding Redis.ltrim
  trimmed_items key n s j = elim (Bool-cases (leb 100 n)) [
    | inl full ↦ rw (leb_pos 100 n, full) (h.ltrim_items key 50 s j)
    | inr free ↦ rw (leb_pos 100 n, free) refl
  ]

  -- LPUSH, LLEN and the trimming, on one list.
  record_items :
      (key info : Text) (s : Store) (j : Text)
      → (let s1 = (Redis.lpush server key (info ∷ []) s).1 in
          let (count, s2) = Redis.llen server key s1 in
          h.items (trimmed server key count s2) j
          ≡ (if text_eq key j then kept info (h.items s key) else h.items s j))
  record_items key info s j =
      let s1 = (Redis.lpush server key (info ∷ []) s).1 in
      let s2 = (Redis.llen server key s1).1 in
      let (count, same) = llen_answer server h key s1 in
      let here : h.items s1 key ≡ info ∷ h.items s key =
        pushed_items key info s key ∙ rw (text_eq_refl key) refl in
      rw (count, here)
        (trimmed_items key (suc (length (h.items s key))) s2 j
          ∙ rw (same key, same j, here, pushed_items key info s j)
              (choose (leb 100 (suc (length (h.items s key)))) (text_eq key j) _ _ _))

  -- With the debugging on, `AddTask` puts the record in front of those of its queue, and keeps the
  -- newest 51 once there are 100, so that fewer than 100 stay; every other list stays as it was.
  -- (For a healthy server.)
  pub add_task_lem :
      (q now task : Text) (s : Store)
      → let key = task_key q in
        let s' = add_task server true q now task s in
        ((j : Text)
          → h.items s' j
            ≡ (if text_eq key j then kept (task_info now task) (h.items s key) else h.items s j))
        × (length (h.items s key) < 100 → length (h.items s' key) < 100)
  unfolding add_task
  add_task_lem q now task s =
      let key = task_key q in
      let info = task_info now task in
      (
        record_items key info s,
        λ few.
            rw (record_items key info s key, text_eq_refl key)
              (kept_short info (h.items s key) few),
      )
