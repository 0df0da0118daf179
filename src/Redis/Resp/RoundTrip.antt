-- ===== src/Redis/Resp/RoundTrip.antt =====
-- conn.go: the protocol's values as the server writes them, and what is read of them; a request, which
-- has the form of an array of strings, is read back by the same reader.
use pepperbus.Base.{
  ℕ, zero, suc, ◌*◌, ◌+◌, ◌^◌, ◌<◌, ◌≡◌, refl, ap, ◌∙◌, List, [], ◌∷◌, ◌++◌, append_assoc, length,
  arith, leb, if◌then◌else◌, All, ◌≤◌, ltb, false,
}
use pepperbus.Base.Int.{pos, negsuc, InRange}
use pepperbus.Base.Text.{Text}
use pepperbus.Base.Decimal.{digits, format_uint}
use pepperbus.Base.Signed.{format_int, parse_int-format_int}
use pepperbus.Redis.Resp.{
  crlf, Arg, arg_bytes, write_len, write_bytes, write_args, write_request, Value, Values, v_int,
  v_bytes, v_nil, v_array, none_left, and_then, Got, got, read_values, wrapped, array_of, dispatch,
  bulk_of, int_of, read_response,
}
use pepperbus.Redis.Resp.Encode.{write_len_lem, read_number, read_written}

abbrev pub nil_reply : Text
nil_reply = b'$' ∷ b'-' ∷ b'1' ∷ crlf

abbrev pub larger : ℕ → ℕ → ℕ
larger m n = if leb m n then n else m

unfoldable pub count : Values → ℕ
count none_left = 0
count (and_then v vs) = suc (count vs)

-- The protocol's text for a value, how deep its arrays are nested, and the sizes that Go can hold.
unfoldable mutual
  pub encode : Value → Text
  encode (v_int z) = b':' ∷ (format_int z ++ crlf)
  encode (v_bytes b) = write_bytes b
  encode v_nil = nil_reply
  encode (v_array vs) = write_len b'*' (count vs) ++ encode_all vs

  pub encode_all : Values → Text
  encode_all none_left = []
  encode_all (and_then v vs) = encode v ++ encode_all vs

unfoldable mutual
  pub depth : Value → ℕ
  depth (v_int z) = 0
  depth (v_bytes b) = 0
  depth v_nil = 0
  depth (v_array vs) = suc (depth_all vs)

  pub depth_all : Values → ℕ
  depth_all none_left = 0
  depth_all (and_then v vs) = larger (depth v) (depth_all vs)

unfoldable mutual
  pub Fits : Value → Type 0
  Fits (v_int z) = InRange z
  Fits (v_bytes b) = length b + 2 ≤ 2 ^ 48
  Fits v_nil = Unit
  Fits (v_array vs) = (count vs * 16 ≤ 2 ^ 48) × FitsAll vs

  pub FitsAll : Values → Type 0
  FitsAll none_left = Unit
  FitsAll (and_then v vs) = Fits v × FitsAll vs

pub larger_lt : (m n f : ℕ) → larger m n < f → (m < f) × (n < f)
larger_lt m n f h = ground (arith, h)

read_values_step :
    (read : Text → Got Value) (n : ℕ) (s rest rest' : Text) (v : Value) (vs : Values)
    → read s ≡ got v rest
    → read_values read n rest ≡ got vs rest'
    → read_values read (suc n) s ≡ got (and_then v vs) rest'
unfolding read_values
read_values_step read n s rest rest' v vs first others = rw (first, read_values) (rw others refl)

values_lem :
    (f : ℕ) (vs : Values) (rest : Text)
    → ((v : Value) (rest : Text)
        → depth v < f
        → Fits v
        → read_response f (encode v ++ rest) ≡ got v rest)
    → depth_all vs < f
    → FitsAll vs
    → read_values (read_response f) (count vs) (encode_all vs ++ rest) ≡ got vs rest
unfolding read_values encode count depth Fits
values_lem f none_left rest each h fits = refl
values_lem f (and_then v vs) rest each h (fit, fits) =
    let (hv, hvs) = larger_lt (depth v) (depth_all vs) f h in
    ap (read_values (read_response f) (suc (count vs)))
      (append_assoc (encode v) (encode_all vs) rest)
    ∙ read_values_step (read_response f) (count vs) (encode v ++ (encode_all vs ++ rest))
        (encode_all vs ++ rest) rest v vs (each v (encode_all vs ++ rest) hv fit)
        (values_lem f vs rest each hvs fits)

-- The values of an array are read one after the other.
pub array_lem :
    (f n : ℕ) (body rest : Text) (g : Got Values)
    → n * 16 ≤ 2 ^ 48
    → read_values (read_response f) n (body ++ rest) ≡ g
    → read_response (suc f) ((write_len b'*' n ++ body) ++ rest) ≡ wrapped (read_response f) g
array_lem f n body rest g h read =
    let fits : InRange (pos n) = (omega (arith, h), omega arith) in
    let small : ltb (2 ^ 48) (n * 16) ≡ false = ground (arith, h) in
    ap (λ w. read_response (suc f) ((w ++ body) ++ rest)) (write_len_lem b'*' n (omega (arith, h)))
    ∙ (ap (λ w. read_response (suc f) (b'*' ∷ w))
          (append_assoc (format_uint n ++ crlf) body rest
            ∙ append_assoc (format_uint n) crlf (body ++ rest))
        ∙ (unfold format_int in
            read_number f b'*' (pos n) (body ++ rest) (cc)
            ∙ (unfold dispatch in
                ap (λ p. array_of (read_response f) p (body ++ rest))
                  (parse_int-format_int (pos n) fits)
                ∙ (rw small (ap (wrapped (read_response f)) read)))))

-- Every value that the protocol can carry, arrays of arrays included, is read back from what a
-- server writes for it, and nothing behind it is touched. (The fuel exceeds the nesting of arrays;
-- lengths are those that make takes, numbers in Go's range.)
pub read_response-encode :
    (fuel : ℕ) (v : Value) (rest : Text)
    → depth v < fuel
    → Fits v
    → read_response fuel (encode v ++ rest) ≡ got v rest
unfolding encode depth Fits
read_response-encode zero v rest h fits = absurd (omega (arith, h))
read_response-encode (suc f) (v_int z) rest h fits =
    ap (λ w. read_response (suc f) (b':' ∷ w)) (append_assoc (format_int z) crlf rest)
    ∙ (read_number f b':' z rest (cc)
        ∙ (unfold dispatch in ap (λ p. int_of p rest) (parse_int-format_int z fits)))
read_response-encode (suc f) (v_bytes b) rest h fits = read_written f b rest fits
read_response-encode (suc f) v_nil rest h fits =
    let fit : InRange (negsuc 0) = (omega arith, omega arith) in
    unfold format_int format_uint digits in
    read_number f b'$' (negsuc 0) rest (cc)
    ∙ (unfold dispatch in ap (λ p. bulk_of p rest) (parse_int-format_int (negsuc 0) fit))
read_response-encode (suc f) (v_array vs) rest h (few, fits) =
    array_lem f (count vs) (encode_all vs) rest (got vs rest) few
      (values_lem f vs rest (read_response-encode f) (omega (arith, h)) fits)

abbrev pub strings : List Text → Values
strings [] = none_left
strings (s ∷ ss) = and_then (v_bytes s) (strings ss)

abbrev pub texts_of : List Arg → List Text
texts_of [] = []
texts_of (a ∷ args) = arg_bytes a ∷ texts_of args

string_lem :
    (f : ℕ) (b : Text) (n : ℕ) (others rest : Text) (vs : Values)
    → length b + 2 ≤ 2 ^ 48
    → read_values (read_response (suc f)) n (others ++ rest) ≡ got vs rest
    → read_values (read_response (suc f)) (suc n) ((write_bytes b ++ others) ++ rest)
      ≡ got (and_then (v_bytes b) vs) rest
string_lem f b n others rest vs h read =
    ap (read_values (read_response (suc f)) (suc n)) (append_assoc (write_bytes b) others rest)
    ∙ read_values_step (read_response (suc f)) n (write_bytes b ++ (others ++ rest))
        (others ++ rest) rest (v_bytes b) vs (read_written f b (others ++ rest) h) read

args_lem :
    (f : ℕ) (args : List Arg) (rest : Text)
    → All (λ s. length s + 2 ≤ 2 ^ 48) (texts_of args)
    → read_values (read_response (suc f)) (length args) (write_args args ++ rest)
      ≡ got (strings (texts_of args)) rest
unfolding read_values write_args
args_lem f [] rest h = refl
args_lem f (a ∷ args) rest (ha, h) =
    string_lem f (arg_bytes a) (length args) (write_args args) rest (strings (texts_of args)) ha
      (args_lem f args rest h)

-- A request is read as the array of its command and its arguments, as text, in their order.
pub read_response-write_request :
    (fuel : ℕ) (command : Text) (args : List Arg) (rest : Text)
    → All (λ s. length s + 2 ≤ 2 ^ 48) (command ∷ texts_of args)
    → suc (length args) * 16 ≤ 2 ^ 48
    → read_response (suc (suc fuel)) (write_request command args ++ rest)
      ≡ got (v_array (strings (command ∷ texts_of args))) rest
unfolding write_request
read_response-write_request fuel command args rest (hc, h) few =
    array_lem (suc fuel) (suc (length args)) (write_bytes command ++ write_args args) rest
      (got (strings (command ∷ texts_of args)) rest) few
      (string_lem fuel command (length args) (write_args args) rest (strings (texts_of args)) hc
        (args_lem fuel args rest h))
