-- ===== src/Base/Bits.antt =====
-- `&` with a mask of a byte and `|` of parts that do not overlap, as arithmetic.
use Prim.Native.Nat.{
  ℕ, zero, suc, ◌+◌, ◌*◌, ◌/◌, ◌%◌, ◌≤◌, ◌<◌, min, max, digits, bit_and, bit_or, bit_and-bitwise,
  bit_or-bitwise,
}
use mathlib.Core.Path.{◌≡◌, refl, sym, ap, ◌∙◌}
use native.Mathlib.Omega.{arith}

-- The digits of the first number are enough steps, for any operation on digits.
module _ (z : ℕ → ℕ) (f : ℕ → ℕ → ℕ) where
  same_digits : (n m a b : ℕ) → a ≤ n → a ≤ m → digits z f n a b ≡ digits z f m a b
  same_digits zero zero a b hn hm = refl
  same_digits zero (suc m) zero b hn hm = refl
  same_digits (suc n) zero zero b hn hm = refl
  same_digits (suc n) (suc m) zero b hn hm = refl
  same_digits zero m (suc a) b hn hm = absurd (omega arith)
  same_digits (suc n) zero (suc a) b hn hm = absurd (omega arith)
  same_digits (suc n) (suc m) (suc a) b hn hm =
      ap (λ k. k * 2 + f (suc a % 2) (b % 2))
        (same_digits n m (suc a / 2) (b / 2) (omega (arith, hn)) (omega (arith, hm)))

  -- The lowest digit apart from the others.
  lowest :
      (a b : ℕ)
      → digits z f (suc a) (suc a) b
        ≡ digits z f (suc a / 2) (suc a / 2) (b / 2) * 2 + f (suc a % 2) (b % 2)
  lowest a b =
      ap (λ k. k * 2 + f (suc a % 2) (b % 2))
        (same_digits a (suc a / 2) (suc a / 2) (b / 2) (omega arith) (omega arith))

and_lowest : (a b : ℕ) → bit_and a b ≡ bit_and (a / 2) (b / 2) * 2 + min (a % 2) (b % 2)
and_lowest zero b = omega (arith, bit_and-bitwise 0 b, bit_and-bitwise 0 (b / 2))
and_lowest (suc a) b =
    bit_and-bitwise (suc a) b
    ∙ (lowest (λ b. zero) min a b
        ∙ ap (λ k. k * 2 + min (suc a % 2) (b % 2)) (sym (bit_and-bitwise (suc a / 2) (b / 2))))

or_lowest : (a b : ℕ) → bit_or a b ≡ bit_or (a / 2) (b / 2) * 2 + max (a % 2) (b % 2)
or_lowest zero b = omega (arith, bit_or-bitwise 0 b, bit_or-bitwise 0 (b / 2))
or_lowest (suc a) b =
    bit_or-bitwise (suc a) b
    ∙ (lowest (λ b. b) max a b
        ∙ ap (λ k. k * 2 + max (suc a % 2) (b % 2)) (sym (bit_or-bitwise (suc a / 2) (b / 2))))

and_zero_below : (n a : ℕ) → a ≤ n → bit_and a 0 ≡ 0
and_zero_below n zero h = refl
and_zero_below zero (suc a) h = absurd (omega arith)
and_zero_below (suc n) (suc a) h =
    omega (arith, and_lowest (suc a) 0, and_zero_below n (suc a / 2) (omega (arith, h)))

or_zero_below : (n a : ℕ) → a ≤ n → bit_or a 0 ≡ a
or_zero_below n zero h = refl
or_zero_below zero (suc a) h = absurd (omega arith)
or_zero_below (suc n) (suc a) h =
    omega (arith, or_lowest (suc a) 0, or_zero_below n (suc a / 2) (omega (arith, h)))

and_nibble : (a : ℕ) → bit_and a 15 ≡ a % 16
and_nibble a = omega (
  arith,
  and_lowest a 15,
  and_lowest (a / 2) 7,
  and_lowest (a / 2 / 2) 3,
  and_lowest (a / 2 / 2 / 2) 1,
  and_zero_below (a / 2 / 2 / 2 / 2) (a / 2 / 2 / 2 / 2) (omega arith),
)

pub and_byte : (a : ℕ) → bit_and a 255 ≡ a % 256
and_byte a = omega (
  arith,
  and_lowest a 255,
  and_lowest (a / 2) 127,
  and_lowest (a / 2 / 2) 63,
  and_lowest (a / 2 / 2 / 2) 31,
  and_nibble (a / 2 / 2 / 2 / 2),
)

or_zero : (a : ℕ) → bit_or a 0 ≡ a
or_zero a = or_zero_below a a (omega arith)

-- Shifts by k digits, one at a time, and the k lowest digits.
abbrev twice : ℕ → ℕ → ℕ
twice zero m = m
twice (suc k) m = twice k m * 2

abbrev halve : ℕ → ℕ → ℕ
halve zero n = n
halve (suc k) n = halve k (n / 2)

abbrev low : ℕ → ℕ → ℕ
low zero n = 0
low (suc k) n = low k (n / 2) * 2 + n % 2

and_twice : (k n m : ℕ) → bit_and n (twice k m) ≡ twice k (bit_and (halve k n) m)
and_twice zero n m = refl
and_twice (suc k) n m =
    let half : twice k m * 2 / 2 ≡ twice k m = omega arith in
    let even : min (n % 2) (twice k m * 2 % 2) ≡ 0 = omega arith in
    and_lowest n (twice k m * 2)
    ∙ (ap (λ x. bit_and (n / 2) x * 2 + min (n % 2) (twice k m * 2 % 2)) half
        ∙ (omega (arith, even) ∙ ap (λ x. x * 2) (and_twice k (n / 2) m)))

or_twice : (k x y : ℕ) → bit_or (twice k x) y ≡ twice k (bit_or x (halve k y)) + low k y
or_twice zero x y = omega arith
or_twice (suc k) x y =
    let half : twice k x * 2 / 2 ≡ twice k x = omega arith in
    or_lowest (twice k x * 2) y
    ∙ (ap (λ u. bit_or u (y / 2) * 2 + max (twice k x * 2 % 2) (y % 2)) half
        ∙ omega (arith, or_twice k x (y / 2)))

-- The mask of a byte, k * 8 digits further left.
pub and_shifted : (n m : ℕ) → bit_and n (m * 256) ≡ bit_and (n / 256) m * 256
and_shifted n m =
    let mask : m * 256 ≡ twice 8 m = omega arith in
    let rest : halve 8 n ≡ n / 256 = omega arith in
    rw mask (and_twice 8 n m ∙ rw rest (omega arith))

pub or_shifted : (x y : ℕ) → bit_or (x * 256) (y * 256) ≡ bit_or x y * 256
or_shifted x y =
    let shifted : x * 256 ≡ twice 8 x = omega arith in
    let rest : halve 8 (y * 256) ≡ y = omega arith in
    rw shifted (or_twice 8 x (y * 256) ∙ rw rest (omega arith))

pub or_byte : (x y : ℕ) → y < 256 → bit_or (x * 256) y ≡ x * 256 + y
or_byte x y h =
    let shifted : x * 256 ≡ twice 8 x = omega arith in
    let rest : halve 8 y ≡ 0 = omega (arith, h) in
    rw shifted (or_twice 8 x y ∙ rw (rest, or_zero x) (omega (arith, h)))
