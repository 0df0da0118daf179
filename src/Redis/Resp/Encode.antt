-- ===== src/Redis/Resp/Encode.antt =====
-- conn.go: the lengths and the strings that are written are the ones that are read.
use pepperbus.Base.{
  ℕ, zero, suc, ◌+◌, ◌/◌, ◌%◌, ◌^◌, ◌≤◌, ◌<◌, ◌≡◌, ◌≢◌, refl, ap, sym, ◌∙◌, [], ◌∷◌, ◌++◌,
  append_assoc, length-append, true, some, length, arith, All, leb, ltb, drop, take, inl, inr,
  All-append, ◌⊎◌, false,
}
use native.Mathlib.Nat.{pow-suc}
use pepperbus.Base.Int.{ℤ, pos, InRange}
use pepperbus.Base.Text.{Text}
use pepperbus.Base.Decimal.{digits, digits_small, digits_large, digits-append, format_uint}
use pepperbus.Base.Signed.{format_int, parse_int-format_int, format_int_bytes}
use pepperbus.Redis.Resp.{
  crlf, len_digits, write_len, write_bytes, v_bytes, got, read_bytes, but_two, with_line, cut_line,
  read_line, bulk_of, read_full, dispatch, of_line, read_response,
}

small_or_large : (n : ℕ) → (n < 10) ⊎ (10 ≤ n)
small_or_large n = omega arith

len_digits_zero : (room : ℕ) (behind : Text) → len_digits room 0 behind ≡ behind
unfolding len_digits
len_digits_zero zero behind = refl
len_digits_zero (suc room) behind = refl

-- The loop of `writeLen` prints a number as `FormatUint` does.
len_digits-digits :
    (room f n : ℕ) (behind : Text)
    → 1 ≤ n
    → n < 10 ^ f
    → f ≤ room
    → len_digits room n behind ≡ digits f n behind
unfolding len_digits
len_digits-digits room zero n behind low high fits = absurd (omega (arith, low, high))
len_digits-digits zero (suc f) n behind low high fits = absurd (omega (arith, fits))
len_digits-digits (suc room) (suc f) zero behind low high fits = absurd (omega (arith, low))
len_digits-digits (suc room) (suc f) (suc n) behind low high fits = elim (small_or_large (suc n)) [
  | inl small ↦
      ap (λ m. len_digits room m ((48 + suc n % 10) ∷ behind)) (omega (arith, small))
      ∙ (len_digits_zero room ((48 + suc n % 10) ∷ behind)
          ∙ (ap (λ m. (48 + m) ∷ behind) (omega (arith, small))
              ∙ sym (digits_small f (suc n) behind small)))
  | inr large ↦
      len_digits-digits room f (suc n / 10) ((48 + suc n % 10) ∷ behind) (omega (arith, large))
        (omega (arith, high, pow-suc 10 f)) (omega (arith, fits))
      ∙ sym (digits_large f (suc n) behind large)
]

pub write_len_lem :
    (prefix n : ℕ) → n < 2 ^ 64 → write_len prefix n ≡ prefix ∷ (format_uint n ++ crlf)
write_len_lem prefix zero h = unfold write_len format_uint digits in refl
write_len_lem prefix (suc n) h =
    unfold write_len format_uint in
    ap (◌∷◌ prefix) (
      len_digits-digits 62 20 (suc n) crlf (omega arith) (omega (arith, h)) (omega arith)
      ∙ digits-append 20 (suc n) [] crlf)

-- A line without a line feed in it.
abbrev pub NoFeed : Text → Type 0
NoFeed = All (λ c. c ≢ b'\n')

read_bytes_line :
    (line rest : Text)
    → NoFeed line
    → read_bytes (line ++ b'\n' ∷ rest) ≡ some (line ++ b'\n' ∷ [], rest)
unfolding read_bytes
read_bytes_line [] rest h = refl
read_bytes_line (c ∷ line) rest (hc, h) = rw (read_bytes_line line rest h) (ground (arith, hc))

two_more : (s : Text) → (b c : ℕ) × (t : Text) × (s ++ crlf ≡ b ∷ c ∷ t)
two_more [] = (b'\r', b'\n', [], refl)
two_more (a ∷ []) = (a, b'\r', b'\n' ∷ [], refl)
two_more (a ∷ b ∷ s) = (a, b, s ++ crlf, refl)

but_two-crlf : (s : Text) → but_two (s ++ crlf) ≡ s
unfolding but_two
but_two-crlf [] = refl
but_two-crlf (a ∷ s) =
    let (b, c, t, e) = two_more s in
    ap (λ u. but_two (a ∷ u)) e ∙ ap (◌∷◌ a) (ap but_two (sym e) ∙ but_two-crlf s)

-- A line is read up to its "\r\n".
pub read_line_lem :
    (kind : ℕ) (p rest : Text)
    → NoFeed (kind ∷ p)
    → read_line (kind ∷ (p ++ (crlf ++ rest))) ≡ got (kind ∷ p) rest
unfolding read_line
read_line_lem kind p rest h =
    let before = (kind ∷ p) ++ b'\r' ∷ [] in
    let feedless = All-append (λ c. c ≢ b'\n') (kind ∷ p) (b'\r' ∷ []) h (cc, tt) in
    let whole : kind ∷ (p ++ (crlf ++ rest)) ≡ before ++ b'\n' ∷ rest =
      ap (◌∷◌ kind) (sym (append_assoc p (b'\r' ∷ []) (b'\n' ∷ rest))) in
    let cut : before ++ b'\n' ∷ [] ≡ (kind ∷ p) ++ crlf =
      append_assoc (kind ∷ p) (b'\r' ∷ []) (b'\n' ∷ []) in
    ap (λ s. cut_line (read_bytes s)) whole
    ∙ (ap cut_line (read_bytes_line before rest feedless)
        ∙ ap (with_line rest) (ap but_two cut ∙ but_two-crlf (kind ∷ p)))

-- A printed number has no line feed.
format_int-NoFeed : (z : ℤ) → NoFeed (format_int z)
format_int-NoFeed z = feedless (format_int z) (format_int_bytes z)
  where
    feedless : (s : Text) → All (λ c. (45 ≤ c) × (c ≤ 57)) s → NoFeed s
    feedless [] h = tt
    feedless (c ∷ s) (hc, hs) = (λ e. omega (arith, hc, e), feedless s hs)

-- A line with a number: what is written for a length, an integer or nil.
pub read_number :
    (fuel kind : ℕ) (z : ℤ) (rest : Text)
    → kind ≢ b'\n'
    → read_response (suc fuel) (kind ∷ (format_int z ++ (crlf ++ rest)))
      ≡ dispatch (read_response fuel) kind (format_int z) rest
read_number fuel kind z rest h =
    unfold read_response in
    ap (of_line (read_response fuel))
      (read_line_lem kind (format_int z) rest (h, format_int-NoFeed z))

take-length : (s t : Text) → take (length s) (s ++ t) ≡ s
take-length [] t = refl
take-length (c ∷ s) t = ap (◌∷◌ c) (take-length s t)

drop-length : (s t : Text) (k : ℕ) → drop (length s + k) (s ++ t) ≡ drop k t
drop-length [] t k = let e : 0 + k ≡ k = omega arith in rw e refl
drop-length (c ∷ s) t k =
    let e : suc (length s) + k ≡ suc (length s + k) = omega arith in rw e (drop-length s t k)

read_full_lem : (b rest : Text) → read_full (length b) (b ++ (crlf ++ rest)) ≡ got (v_bytes b) rest
read_full_lem b rest =
    let long : length (b ++ (crlf ++ rest)) ≡ length b + length (crlf ++ rest) =
      length-append b (crlf ++ rest) in
    let enough : leb (length b + 2) (length (b ++ (crlf ++ rest))) ≡ true = ground (arith, long) in
    rw (enough, take-length b (crlf ++ rest), drop-length b (crlf ++ rest) 2) refl

write_bytes_lem :
    (b rest : Text)
    → length b < 2 ^ 64
    → write_bytes b ++ rest ≡ b'$' ∷ (format_uint (length b) ++ (crlf ++ (b ++ (crlf ++ rest))))
unfolding write_bytes
write_bytes_lem b rest h =
    ap (λ w. (w ++ (b ++ crlf)) ++ rest) (write_len_lem b'$' (length b) h)
    ∙ ap (◌∷◌ b'$') (
        append_assoc (format_uint (length b) ++ crlf) (b ++ crlf) rest
        ∙ (append_assoc (format_uint (length b)) crlf ((b ++ crlf) ++ rest)
            ∙ ap (λ w. format_uint (length b) ++ (crlf ++ w)) (append_assoc b crlf rest)))

-- A string is read back as it was written.
pub read_written :
    (fuel : ℕ) (b rest : Text)
    → length b + 2 ≤ 2 ^ 48
    → read_response (suc fuel) (write_bytes b ++ rest) ≡ got (v_bytes b) rest
read_written fuel b rest h =
    let n = length b in
    let fits : InRange (pos n) = (omega (arith, h), omega arith) in
    let small : ltb (2 ^ 48) (n + 2) ≡ false = ground (arith, h) in
    ap (read_response (suc fuel)) (write_bytes_lem b rest (omega (arith, h)))
    ∙ (unfold format_int in
        read_number fuel b'$' (pos n) (b ++ (crlf ++ rest)) (cc)
        ∙ (unfold dispatch in
            ap (λ p. bulk_of p (b ++ (crlf ++ rest))) (parse_int-format_int (pos n) fits)
            ∙ rw small (read_full_lem b rest)))
