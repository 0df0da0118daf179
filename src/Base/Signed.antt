-- ===== src/Base/Signed.antt =====
-- `strconv`: int64 as decimal text.
use Prim.Native.Nat.{ℕ, zero, suc, ◌^◌, ◌≤◌, ◌<◌}
use mathlib.Core.Path.{◌≡◌, sym, ◌∙◌, ap, subst}
use mathlib.Core.List.{[], ◌∷◌}
use native.Mathlib.Omega.{arith}
use pepperbus.Base.Tests.{leb, ltb, ◌==◌, if◌then◌else◌}
use pepperbus.Base.Lists.{All}
use pepperbus.Base.Text.{Text}
use pepperbus.Base.Int.{ℤ, pos, negsuc, InRange}
use pepperbus.Base.Decimal.{
  format_uint, Parsed, value, bad_syntax, out_of_range, parse_uint, parse_uint-format_uint, Digits,
  format_uint-Digits, format_uint_nonempty,
}

abbrev negative : ℕ → ℤ
negative zero = pos 0
negative (suc n) = negsuc n

-- `FormatInt(n, 10)`.
unfoldable pub format_int : ℤ → Text
unfolding format_uint
format_int (pos n) = format_uint n
format_int (negsuc n) = b'-' ∷ format_uint (suc n)

-- What `ParseInt(s, 10, 64)` returns.
pub data ParsedInt : Type 0 where
  int_value : ℤ → ParsedInt
  bad_int int_out_of_range : ParsedInt

abbrev positive : Parsed → ParsedInt
positive (value n) = if ltb n (2 ^ 63) then int_value (pos n) else int_out_of_range
positive bad_syntax = bad_int
positive out_of_range = int_out_of_range

abbrev negated : Parsed → ParsedInt
negated (value n) = if leb n (2 ^ 63) then int_value (negative n) else int_out_of_range
negated bad_syntax = bad_int
negated out_of_range = int_out_of_range

unfoldable pub parse_int : Text → ParsedInt
unfolding parse_uint
parse_int [] = bad_int
parse_int (c ∷ s) =
    let plain = positive (parse_uint (c ∷ s)) in
    let rest = parse_uint s in
    if c == b'+' then positive rest else if c == b'-' then negated rest else plain

parse_int_digits :
    (d : ℕ) (t : Text) → (48 ≤ d) × (d ≤ 57) → parse_int (d ∷ t) ≡ positive (parse_uint (d ∷ t))
unfolding parse_int
parse_int_digits d t h = ground (arith, h)

parse_int_pos : (n : ℕ) → n < 2 ^ 63 → parse_int (format_uint n) ≡ int_value (pos n)
parse_int_pos n h =
    let (d, t, e) = format_uint_nonempty n in
    let (digit, _) = subst Digits e (format_uint-Digits n) in
    let back = parse_uint-format_uint n (omega (arith, h)) in
    ap parse_int e
    ∙ (parse_int_digits d t digit
        ∙ (ap positive (ap parse_uint (sym e) ∙ back) ∙ ground (arith, h)))

-- An int64 that was printed is read back.
pub parse_int-format_int : (z : ℤ) → InRange z → parse_int (format_int z) ≡ int_value z
unfolding format_int parse_int
parse_int-format_int (pos n) h = parse_int_pos n (omega (arith, h))
parse_int-format_int (negsuc n) h =
    rw (parse_uint-format_uint (suc n) (omega (arith, h))) (ground (arith, h))

weaker : (s : Text) → Digits s → All (λ c. (45 ≤ c) × (c ≤ 57)) s
weaker [] h = tt
weaker (c ∷ s) (hc, hs) = (omega (arith, hc), weaker s hs)

-- Every byte of a printed number is a digit or the sign.
pub format_int_bytes : (z : ℤ) → All (λ c. (45 ≤ c) × (c ≤ 57)) (format_int z)
unfolding format_int
format_int_bytes (pos n) = weaker (format_uint n) (format_uint-Digits n)
format_int_bytes (negsuc n) =
    (omega arith, weaker (format_uint (suc n)) (format_uint-Digits (suc n)))
