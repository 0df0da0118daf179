-- ===== src/Records/ReadBack.antt =====
-- task_debug.go: the task that `AddTask` wrote last is the first that `GetTask` reads.
use pepperbus.Base.{
  ℕ, zero, suc, ◌+◌, ◌≡◌, ◌==◌, refl, ap, ◌∙◌, List, [], ◌∷◌, ◌++◌, map, true, false, some, length,
  leb, take, arith, if◌then◌else◌, inl, inr, Bool-cases,
}
use pepperbus.Base.Int.{ℤ}
use pepperbus.Base.Text.{Text, has_prefix, contains, text_eq_refl}
use pepperbus.Base.Split.{Without}
use pepperbus.Records.{
  TaskDebugData, separator, split_fields, task_key, task_info, read_tasks, last_index, add_task,
  get_task,
}
use pepperbus.Records.Trim.{kept, add_task_lem}
use pepperbus.Redis
use pepperbus.Redis.Wire.{Server}
use pepperbus.Redis.Healthy.{Healthy}

-- The records that stay behind a new one.
abbrev pub older : List Text → List Text
older old = if leb 100 (suc (length old)) then take 50 old else old

kept-older : (info : Text) (old : List Text) → kept info old ≡ info ∷ older old
kept-older info old = elim (Bool-cases (leb 100 (suc (length old)))) [
  | inl full ↦ rw full refl
  | inr free ↦ rw free refl
]

-- A text without a separator is one field.
split_fields_single : (s : Text) → contains s separator ≡ false → split_fields 0 s ≡ s ∷ []
unfolding split_fields contains
split_fields_single [] h = refl
split_fields_single (c ∷ s) h = elim (Bool-cases (has_prefix (c ∷ s) separator)) [
  | inl here ↦ ground (arith, rw here at h)
  | inr later ↦ rw later (rw (split_fields_single s (rw later at h)) refl)
]

-- The first separator ends the first field, which has no comma.
split_fields-append :
    (s t : Text) → Without b',' s → split_fields 0 (s ++ (separator ++ t)) ≡ s ∷ split_fields 0 t
unfolding split_fields has_prefix
split_fields-append [] t h = refl
split_fields-append (c ∷ s) t (hc, hs) =
    let other : (c == b',') ≡ false = ground (arith, hc) in
    rw other (rw (split_fields-append s t hs) refl)

-- There is always a field, and a text with a separator has two or more.
fields_nonempty : (k : ℕ) (s : Text) → (x : Text) × (xs : List Text) × (split_fields k s ≡ x ∷ xs)
unfolding split_fields
fields_nonempty k [] = ([], [], refl)
fields_nonempty (suc k) (c ∷ s) = fields_nonempty k s
fields_nonempty zero (c ∷ s) = elim (Bool-cases (has_prefix (c ∷ s) separator)) [
  | inl here ↦ rw here ([], split_fields 3 s, refl)
  | inr later ↦ let (x, xs, e) = fields_nonempty zero s in rw later (c ∷ x, xs, rw e refl)
]

split_fields_several :
    (s : Text)
    → contains s separator ≡ true
    → (x : Text) × (y : Text) × (ys : List Text) × (split_fields 0 s ≡ x ∷ y ∷ ys)
unfolding split_fields contains
split_fields_several [] h = ground (arith, h)
split_fields_several (c ∷ s) h = elim (Bool-cases (has_prefix (c ∷ s) separator)) [
  | inl here ↦ let (y, ys, e) = fields_nonempty 3 s in rw here ([], y, ys, rw e refl)
  | inr later ↦
      let (x, y, ys, e) = split_fields_several s (rw later at h) in
      rw later (c ∷ x, y, ys, rw e refl)
]

-- What a new task adds to the records that are read.
abbrev pub in_front : Text → Text → List TaskDebugData → List TaskDebugData
in_front now task rest =
    if contains task separator then rest else record { time = now; jobs = task } ∷ rest

module _ (server : Server) (h : Healthy server) where
  open server use {Store}

  -- The records that LRANGE gives.
  get_task-items :
      (q : Text) (n : ℤ) (s : Store)
      → get_task server true q n s
        ≡ some (read_tasks (map some (take (last_index n + 1) (h.items s (task_key q)))))
  unfolding get_task Redis.lrange
  get_task-items q n s = rw (h.lrange_reply (task_key q) (last_index n) s) refl

  read_tasks-first :
      (now task : Text) (rest : List Text)
      → Without b',' now
      → read_tasks (map some (task_info now task ∷ rest))
        ≡ in_front now task (read_tasks (map some rest))
  unfolding read_tasks task_info
  read_tasks-first now task rest plain = elim (Bool-cases (contains task separator)) [
    | inl joined ↦
        let (x, y, ys, e) = split_fields_several task joined in
        rw joined (rw (split_fields-append now task plain, e) refl)
    | inr clean ↦
        rw clean (rw (split_fields-append now task plain, split_fields_single task clean) refl)
  ]

  -- With the debugging on, `GetTask` after `AddTask` reads the task that was added, with its time,
  -- and behind it the records that were there, as many as are asked for and as are kept. A task
  -- that has the separator in it is left out. (For a healthy server, and a time without a comma.)
  pub get_task-add_task :
      (q now task : Text) (n : ℤ) (s : Store)
      → Without b',' now
      → get_task server true q n (add_task server true q now task s)
        ≡ some (
            in_front now task
              (read_tasks (map some (take (last_index n) (older (h.items s (task_key q)))))))
  get_task-add_task q now task n s plain =
      let key = task_key q in
      let s' = add_task server true q now task s in
      let old = h.items s key in
      let items : h.items s' key ≡ task_info now task ∷ older old =
        (add_task_lem server h q now task s).0 key
        ∙ (rw (text_eq_refl key) refl ∙ kept-older (task_info now task) old) in
      let next : last_index n + 1 ≡ suc (last_index n) = omega arith in
      get_task-items q n s'
      ∙ ap some
          (rw (items, next) (read_tasks-first now task (take (last_index n) (older old)) plain))
