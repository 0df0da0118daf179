-- ===== src/Redis/Resp/Total.antt =====
-- conn.go, `readResponse`: it ends on every input.
use pepperbus.Base.{
  ℕ, zero, suc, ◌+◌, ◌*◌, ◌≤◌, ◌<◌, ◌^◌, ◌≢◌, [], ◌∷◌, Bool, true, false, Option, none, some,
  length, arith, leb, ltb, drop, if◌then◌else◌, ◌==◌, inl, inr, Bool-cases,
}
use pepperbus.Base.Int.{pos, negsuc}
use pepperbus.Base.Text.{Text}
use pepperbus.Base.Signed.{ParsedInt, int_value, bad_int, int_out_of_range, parse_int}
use pepperbus.Redis.Resp.{
  Value, Values, out_of_fuel, Got, got, failed, extend, read_bytes, but_two, with_line, cut_line,
  read_line, int_of, bulk_of, read_full, add_value, read_values, wrapped, array_of, dispatch,
  of_line, read_response,
}

-- No lack of fuel, and at most n bytes left, also after an error or a panic.
abbrev pub Fine {ℓ} : {A : Type ℓ} → ℕ → Got A → Type 0
Fine n (got a rest) = length rest ≤ n
Fine n (failed e rest) = (e ≢ out_of_fuel) × (length rest ≤ n)

abbrev Shorter : ℕ → Option (Text × Text) → Type 0
Shorter n none = Unit
Shorter n (some (line, rest)) = length rest < n

extend-Shorter : (c n : ℕ) (o : Option (Text × Text)) → Shorter n o → Shorter (suc n) (extend c o)
extend-Shorter c n none h = tt
extend-Shorter c n (some (line, rest)) h = omega (arith, h)

read_bytes-Shorter : (s : Text) → Shorter (length s) (read_bytes s)
unfolding read_bytes
read_bytes-Shorter [] = tt
read_bytes-Shorter (c ∷ s) = elim (Bool-cases (c == b'\n')) [
  | inl end ↦ rw end (omega arith)
  | inr go ↦ rw go (extend-Shorter c (length s) (read_bytes s) (read_bytes-Shorter s))
]

-- The bytes left after a line are fewer.
abbrev FineLine : ℕ → Got Text → Type 0
FineLine n (got a rest) = length rest < n
FineLine n (failed e rest) = (e ≢ out_of_fuel) × (length rest ≤ n)

with_line_fine : (n : ℕ) (rest line : Text) → length rest < n → FineLine n (with_line rest line)
with_line_fine n rest [] h = (cc, omega (arith, h))
with_line_fine n rest (c ∷ line) h = h

cut_line_fine : (n : ℕ) (o : Option (Text × Text)) → Shorter n o → FineLine n (cut_line o)
cut_line_fine n none h = (cc, omega arith)
cut_line_fine n (some (line, rest)) h = with_line_fine n rest (but_two line) h

read_line_fine : (s : Text) → FineLine (length s) (read_line s)
unfolding read_line
read_line_fine s = cut_line_fine (length s) (read_bytes s) (read_bytes-Shorter s)

length-drop : (n : ℕ) (s : Text) → length (drop n s) ≤ length s
length-drop zero s = omega arith
length-drop (suc n) [] = omega arith
length-drop (suc n) (c ∷ s) = omega (arith, length-drop n s)

int_of-Fine : (p : ParsedInt) (rest : Text) → Fine (length rest) (int_of p rest)
int_of-Fine (int_value z) rest = omega arith
int_of-Fine bad_int rest = (cc, omega arith)
int_of-Fine int_out_of_range rest = (cc, omega arith)

read_full-Fine : (n : ℕ) (s : Text) → Fine (length s) (read_full n s)
read_full-Fine n s = elim (Bool-cases (leb (n + 2) (length s))) [
  | inl enough ↦ rw enough (length-drop (n + 2) s)
  | inr less ↦ rw less (cc, omega arith)
]

bulk_of-Fine : (p : ParsedInt) (rest : Text) → Fine (length rest) (bulk_of p rest)
bulk_of-Fine (int_value (pos n)) rest = elim (Bool-cases (ltb (2 ^ 48) (n + 2))) [
  | inl large ↦ rw large (cc, omega arith)
  | inr small ↦ rw small (read_full-Fine n rest)
]
bulk_of-Fine (int_value (negsuc zero)) rest = omega arith
bulk_of-Fine (int_value (negsuc (suc n))) rest = (cc, omega arith)
bulk_of-Fine bad_int rest = (cc, omega arith)
bulk_of-Fine int_out_of_range rest = (cc, omega arith)

module _ (read : Text → Got Value) (n : ℕ)
    (fine : (s : Text) → length s < n → Fine (length s) (read s)) where
  add_value-Fine : (k : ℕ) (v : Value) (g : Got Values) → Fine k g → Fine k (add_value read v g)
  add_value-Fine k v (got vs rest) h = h
  add_value-Fine k v (failed e rest) h = h

  Fine-weaken {ℓ} : {A : Type ℓ} (k m : ℕ) (g : Got A) → k ≤ m → Fine k g → Fine m g
  Fine-weaken k m (got a rest) h f = omega (arith, h, f)
  Fine-weaken k m (failed e rest) h (f, left) = (f, omega (arith, h, left))

  more-Fine :
      (k m : ℕ) (g : Got Value)
      → m < n
      → Fine m g
      → ((s : Text) → length s < n → Fine (length s) (read_values read k s))
      → Fine m (elim g [
        | got v rest ↦ add_value read v (read_values read k rest)
        | failed e rest ↦ failed e rest
      ])
  more-Fine k m (got v rest) h f later =
      add_value-Fine m v (read_values read k rest)
        (Fine-weaken (length rest) m (read_values read k rest) f (later rest (omega (arith, h, f))))
  more-Fine k m (failed e rest) h f later = f

  read_values-Fine : (k : ℕ) (s : Text) → length s < n → Fine (length s) (read_values read k s)
  unfolding read_values
  read_values-Fine zero s h = omega arith
  read_values-Fine (suc k) s h = more-Fine k (length s) (read s) h (fine s h) (read_values-Fine k)

  wrapped-Fine : (k : ℕ) (g : Got Values) → Fine k g → Fine k (wrapped read g)
  wrapped-Fine k (got vs rest) h = h
  wrapped-Fine k (failed e rest) h = h

  array_of-Fine :
      (p : ParsedInt) (rest : Text) → length rest < n → Fine (length rest) (array_of read p rest)
  array_of-Fine (int_value (pos k)) rest h = elim (Bool-cases (ltb (2 ^ 48) (k * 16))) [
    | inl large ↦ rw large (cc, omega arith)
    | inr small ↦
        rw small (wrapped-Fine (length rest) (read_values read k rest) (read_values-Fine k rest h))
  ]
  array_of-Fine (int_value (negsuc zero)) rest h = omega arith
  array_of-Fine (int_value (negsuc (suc k))) rest h = (cc, omega arith)
  array_of-Fine bad_int rest h = (cc, omega arith)
  array_of-Fine int_out_of_range rest h = (cc, omega arith)

  either-Fine :
      (k : ℕ) (b : Bool) (g g' : Got Value) → Fine k g → Fine k g' → Fine k (if b then g else g')
  either-Fine k true g g' h h' = h
  either-Fine k false g g' h h' = h'

  dispatch-Fine :
      (kind : ℕ) (p rest : Text) → length rest < n → Fine (length rest) (dispatch read kind p rest)
  unfolding dispatch
  dispatch-Fine kind p rest h =
      let k = length rest in
      either-Fine k (kind == b'-') _ _ (cc, omega arith)
        (either-Fine k (kind == b':') _ _ (int_of-Fine (parse_int p) rest) (
          either-Fine k (kind == b'+') _ _ (omega arith) (
            either-Fine k (kind == b'$') _ _ (bulk_of-Fine (parse_int p) rest) (
              either-Fine k (kind == b'*') _ _ (array_of-Fine (parse_int p) rest h)
                (cc, omega arith)))))

  of_line-Fine : (k : ℕ) (g : Got Text) → k ≤ n → FineLine k g → Fine k (of_line read g)
  of_line-Fine k (got [] rest) h f = (cc, omega (arith, f))
  of_line-Fine k (got (kind ∷ p) rest) h f =
      Fine-weaken (length rest) k (dispatch read kind p rest) (omega (arith, f))
        (dispatch-Fine kind p rest (omega (arith, h, f)))
  of_line-Fine k (failed e rest) h f = f

-- With fuel above the number of unread bytes, `readResponse` never runs out of it: it ends with a
-- value, an error or a panic of the code, and in each case never has more bytes left than before.
pub read_response_total :
    (fuel : ℕ) (s : Text) → length s < fuel → Fine (length s) (read_response fuel s)
unfolding read_response
read_response_total zero s h = absurd (omega (arith, h))
read_response_total (suc fuel) s h =
    of_line-Fine (read_response fuel) fuel (read_response_total fuel) (length s) (read_line s)
      (omega (arith, h)) (read_line_fine s)
