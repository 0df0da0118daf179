-- ===== src/Base/Decimal.antt =====
-- `strconv`: unsigned 64-bit numbers as decimal text.
use Prim.Native.Nat.{ℕ, zero, suc, ◌+◌, ◌-◌, ◌*◌, ◌/◌, ◌%◌, ◌^◌, ◌≤◌, ◌<◌}
use mathlib.Core.Path.{◌≡◌, refl, sym, ◌∙◌, ap}
use mathlib.Core.Logic.{◌⊎◌, inl, inr}
use mathlib.Core.Bool.{Bool, ◌&&◌}
use mathlib.Core.List.{[], ◌∷◌, ◌++◌}
use native.Mathlib.Omega.{arith}
use native.Mathlib.Nat.{pow-suc}
use pepperbus.Base.Tests.{leb, ltb, Bool-cases, if◌then◌else◌}
use pepperbus.Base.Lists.{All}
use pepperbus.Base.Text.{Text}

-- The digits of a number in front of a text; the fuel is the number of digits.
unfoldable pub digits : ℕ → ℕ → Text → Text
digits zero n after = after
digits (suc f) n after =
    let rest = digits f (n / 10) ((48 + n % 10) ∷ after) in
    if ltb n 10 then (48 + n) ∷ after else rest

-- `FormatUint(n, 10)`: a uint64 has at most 20 digits.
unfoldable pub format_uint : ℕ → Text
unfolding digits
format_uint n = digits 20 n []

-- What `ParseUint(s, 10, 64)` returns: a value, or one of its errors.
pub data Parsed : Type 0 where
  value : ℕ → Parsed
  bad_syntax out_of_range : Parsed

abbrev is_digit : ℕ → Bool
is_digit c = leb 48 c && leb c 57

unfoldable parse_from : ℕ → Text → Parsed
parse_from n [] = value n
parse_from n (c ∷ s) =
    let m = n * 10 + (c - 48) in
    let rest = parse_from m s in
    if is_digit c then (if ltb m (2 ^ 64) then rest else out_of_range) else bad_syntax

unfoldable pub parse_uint : Text → Parsed
unfolding parse_from
parse_uint [] = bad_syntax
parse_uint (c ∷ s) = parse_from 0 (c ∷ s)

parse_from_digit :
    (n d m : ℕ) (s : Text)
    → d < 10
    → m ≡ n * 10 + d
    → m < 2 ^ 64
    → parse_from n ((48 + d) ∷ s) ≡ parse_from m s
unfolding parse_from
parse_from_digit n d m s hd e hm = ground arith

pub digits_small : (f n : ℕ) (s : Text) → n < 10 → digits (suc f) n s ≡ (48 + n) ∷ s
unfolding digits
digits_small f n s h = ground arith

pub digits_large :
    (f n : ℕ) (s : Text) → 10 ≤ n → digits (suc f) n s ≡ digits f (n / 10) ((48 + n % 10) ∷ s)
unfolding digits
digits_large f n s h = ground arith

pub digits_cases :
    (f n : ℕ) (s : Text)
    → ((n < 10) × (digits (suc f) n s ≡ (48 + n) ∷ s))
      ⊎ (digits (suc f) n s ≡ digits f (n / 10) ((48 + n % 10) ∷ s))
digits_cases f n s = ground (arith, digits_small f n s, digits_large f n s)

-- A digit in front, and the rest by induction.
parse_from-digits :
    (f n : ℕ) (s : Text)
    → n < 10 ^ suc f
    → n < 2 ^ 64
    → parse_from 0 (digits (suc f) n s) ≡ parse_from n s
parse_from-digits zero n s hf hn =
    ap (parse_from 0) (digits_small 0 n s (omega (arith, hf)))
    ∙ parse_from_digit 0 n n s (omega (arith, hf)) (omega arith) (omega (arith, hn))
parse_from-digits (suc f) n s hf hn = elim (digits_cases (suc f) n s) [
  | inl (h, e) ↦ ap (parse_from 0) e ∙ parse_from_digit 0 n n s h (omega arith) (omega (arith, hn))
  | inr e ↦
      ap (parse_from 0) e
      ∙ (parse_from-digits f (n / 10) ((48 + n % 10) ∷ s) (omega (arith, hf, pow-suc 10 (suc f)))
            (omega (arith, hn))
          ∙ parse_from_digit (n / 10) (n % 10) n s (omega arith) (omega arith) (omega (arith, hn)))
]

parse_uint-digits :
    (f n c : ℕ) (s : Text) → parse_uint (digits f n (c ∷ s)) ≡ parse_from 0 (digits f n (c ∷ s))
unfolding parse_uint digits
parse_uint-digits zero n c s = refl
parse_uint-digits (suc f) n c s = elim (digits_cases f n (c ∷ s)) [
  | inl (h, e) ↦ rw e refl
  | inr e ↦ rw e (parse_uint-digits f (n / 10) (48 + n % 10) (c ∷ s))
]

parse_uint_nonempty :
    (f n : ℕ) → parse_uint (digits (suc f) n []) ≡ parse_from 0 (digits (suc f) n [])
unfolding parse_uint
parse_uint_nonempty f n = elim (digits_cases f n []) [
  | inl (h, e) ↦ rw e refl
  | inr e ↦ rw e (parse_uint-digits f (n / 10) (48 + n % 10) [])
]

-- A printed number is read back.
pub parse_uint-format_uint : (n : ℕ) → n < 2 ^ 64 → parse_uint (format_uint n) ≡ value n
unfolding format_uint parse_from
parse_uint-format_uint n h =
    parse_uint_nonempty 19 n ∙ parse_from-digits 19 n [] (omega (arith, h)) (omega (arith, h))

pub format_uint-injective :
    (m n : ℕ) → m < 2 ^ 64 → n < 2 ^ 64 → format_uint m ≡ format_uint n → m ≡ n
format_uint-injective m n hm hn e =
    ap (λ p. elim p [ value k ↦ k | _ ↦ 0 ])
      (sym (parse_uint-format_uint m hm) ∙ (ap parse_uint e ∙ parse_uint-format_uint n hn))

-- A printed number is not empty, and every byte of it is a digit.
abbrev pub Digits : Text → Type 0
Digits = All (λ c. (48 ≤ c) × (c ≤ 57))

digits-Digits : (f n : ℕ) (after : Text) → Digits after → Digits (digits f n after)
unfolding digits
digits-Digits zero n after h = h
digits-Digits (suc f) n after h = elim (digits_cases f n after) [
  | inl (small, e) ↦ rw e (omega (arith, small), h)
  | inr e ↦ rw e (digits-Digits f (n / 10) ((48 + n % 10) ∷ after) (omega arith, h))
]

pub format_uint-Digits : (n : ℕ) → Digits (format_uint n)
unfolding format_uint
format_uint-Digits n = digits-Digits 20 n [] tt

digits_nonempty : (f n c : ℕ) (s : Text) → (d : ℕ) × (t : Text) × (digits f n (c ∷ s) ≡ d ∷ t)
unfolding digits
digits_nonempty zero n c s = (c, s, refl)
digits_nonempty (suc f) n c s = elim (digits_cases f n (c ∷ s)) [
  | inl (small, e) ↦ (_, _, e)
  | inr e ↦ rw e (digits_nonempty f (n / 10) (48 + n % 10) (c ∷ s))
]

pub format_uint_nonempty : (n : ℕ) → (d : ℕ) × (t : Text) × (format_uint n ≡ d ∷ t)
unfolding format_uint
format_uint_nonempty n = elim (digits_cases 19 n []) [
  | inl (small, e) ↦ (_, _, e)
  | inr e ↦ rw e (digits_nonempty 19 (n / 10) (48 + n % 10) [])
]

pub digits-append : (f n : ℕ) (s t : Text) → digits f n (s ++ t) ≡ digits f n s ++ t
unfolding digits
digits-append zero n s t = refl
digits-append (suc f) n s t = elim (Bool-cases (ltb n 10)) [
  | inl small ↦ rw small refl
  | inr large ↦ rw large (digits-append f (n / 10) ((48 + n % 10) ∷ s) t)
]
