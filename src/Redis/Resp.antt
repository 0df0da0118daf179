-- ===== src/Redis/Resp.antt =====
-- utility/msgRedis/conn.go: the requests as they are written to a connection, and the replies as
-- they are read from it. A connection's unread bytes are a text, whose end is an error of the network.
pub mod Encode
pub mod Total
pub mod RoundTrip
pub mod Errors
use pepperbus.Base.{
  ℕ, zero, suc, ◌*◌, ◌+◌, ◌/◌, ◌%◌, ◌^◌, List, [], ◌∷◌, ◌++◌, Bool, true, false, Option, none, some,
  length, leb, ltb, ◌==◌, if◌then◌else◌, take, drop,
}
use pepperbus.Base.Int.{ℤ, pos, negsuc}
use pepperbus.Base.Text.{Text, codes}
use pepperbus.Base.Signed.{format_int, ParsedInt, int_value, bad_int, int_out_of_range, parse_int}

abbrev pub crlf : Text
crlf = b'\r' ∷ b'\n' ∷ []

-- The loop of `writeLen`, from the right end of its buffer; the room left in the buffer counts down.
unfoldable pub len_digits : ℕ → ℕ → Text → Text
len_digits zero n behind = behind
len_digits (suc room) zero behind = behind
len_digits (suc room) (suc n) behind = len_digits room (suc n / 10) ((48 + suc n % 10) ∷ behind)

-- `writeLen`: the buffer has 64 bytes, of which "\r\n" takes two.
unfoldable pub write_len : ℕ → ℕ → Text
unfolding len_digits
write_len prefix zero = prefix ∷ b'0' ∷ crlf
write_len prefix (suc n) = prefix ∷ len_digits 62 (suc n) crlf

-- `writeBytes` and `writeString`.
unfoldable pub write_bytes : Text → Text
unfolding write_len
write_bytes b = write_len b'$' (length b) ++ (b ++ crlf)

-- The arguments of a command; a float, or any other value, as the text that is printed for it.
pub data Arg : Type 0 where
  arg_int : ℤ → Arg
  arg_text arg_printed : Text → Arg
  arg_bool : Bool → Arg
  arg_nil : Arg

-- The text of an argument.
unfoldable pub arg_bytes : Arg → Text
unfolding format_int
arg_bytes (arg_int n) = format_int n
arg_bytes (arg_text s) = s
arg_bytes (arg_printed s) = s
arg_bytes (arg_bool true) = codes "1"
arg_bytes (arg_bool false) = codes "0"
arg_bytes arg_nil = []

unfoldable pub write_args : List Arg → Text
unfolding write_bytes arg_bytes
write_args [] = []
write_args (a ∷ args) = write_bytes (arg_bytes a) ++ write_args args

-- `writeRequest`, where the connection takes what is written.
unfoldable pub write_request : Text → List Arg → Text
unfolding write_args
write_request command args =
    write_len b'*' (suc (length args)) ++ (write_bytes command ++ write_args args)

-- The values of the `interface{}` that is read: int64, []byte, nil and []interface{}. (A nil array
-- is an empty one.)
mutual
  pub data Value : Type 0 where
    v_int : ℤ → Value
    v_bytes : Text → Value
    v_nil : Value
    v_array : Values → Value

  pub data Values : Type 0 where
    none_left : Values
    and_then : Value → Values → Values

-- An end of the stream, `ErrBadTerminator`, an error with `CommonErrPrefix` (which keeps the
-- connection), a panic in `make` or a slice, or no fuel.
pub data ReadError : Type 0 where
  unexpected_end bad_terminator panics out_of_fuel : ReadError
  common : Text → ReadError

-- What was read, and the bytes that are still unread.
pub data Got {ℓ} (A : Type ℓ) : Type ℓ where
  got : A → Text → Got A
  failed : ReadError → Text → Got A

abbrev extend : ℕ → Option (Text × Text) → Option (Text × Text)
extend c none = none
extend c (some (line, rest)) = some (c ∷ line, rest)

-- `ReadBytes('\n')`: up to the line feed, and what is behind it.
unfoldable pub read_bytes : Text → Option (Text × Text)
read_bytes [] = none
read_bytes (c ∷ s) =
    let more = read_bytes s in if c == b'\n' then some (c ∷ [], s) else extend c more

-- The bytes but the last two.
unfoldable pub but_two : Text → Text
but_two [] = []
but_two (a ∷ []) = []
but_two (a ∷ b ∷ []) = []
but_two (a ∷ b ∷ c ∷ s) = a ∷ but_two (b ∷ c ∷ s)

abbrev with_line : Text → Text → Got Text
with_line rest [] = failed bad_terminator rest
with_line rest (c ∷ line) = got (c ∷ line) rest

abbrev cut_line : Option (Text × Text) → Got Text
cut_line none = failed unexpected_end []
cut_line (some (line, rest)) = with_line rest (but_two line)

-- `readLine`.
unfoldable pub read_line : Text → Got Text
unfolding read_bytes but_two
read_line s = cut_line (read_bytes s)

-- `parseInt`.
abbrev int_of : ParsedInt → Text → Got Value
int_of (int_value z) rest = got (v_int z) rest
int_of bad_int rest = failed (common (codes "syntax")) rest
int_of int_out_of_range rest = failed (common (codes "range")) rest

-- `io.ReadFull` of n + 2 bytes, of which n are kept.
abbrev read_full : ℕ → Text → Got Value
read_full n s =
    if leb (n + 2) (length s)
    then got (v_bytes (take n s)) (drop (n + 2) s)
    else failed unexpected_end []

-- The bytes that `make` can be asked for (on a machine of 64 bits); for more it panics.
abbrev pub max_alloc : ℕ
max_alloc = 2 ^ 48

-- `parseBulkString`: a length below -1, or too long for `make`, panics.
abbrev bulk_of : ParsedInt → Text → Got Value
bulk_of (int_value (pos n)) rest =
    if ltb max_alloc (n + 2) then failed panics rest else read_full n rest
bulk_of (int_value (negsuc zero)) rest = got v_nil rest
bulk_of (int_value (negsuc (suc n))) rest = failed panics rest
bulk_of bad_int rest = failed (common (codes "syntax")) rest
bulk_of int_out_of_range rest = failed (common (codes "range")) rest

module _ (read : Text → Got Value) where
  abbrev add_value : Value → Got Values → Got Values
  add_value v (got vs rest) = got (and_then v vs) rest
  add_value v (failed e rest) = failed e rest

  -- The loop of `parseArray`: the first error ends it.
  unfoldable pub read_values : ℕ → Text → Got Values
  read_values zero s = got none_left s
  read_values (suc n) s = elim (read s) [
    | got v rest ↦ add_value v (read_values n rest)
    | failed e rest ↦ failed e rest
  ]

  abbrev wrapped : Got Values → Got Value
  wrapped (got vs rest) = got (v_array vs) rest
  wrapped (failed e rest) = failed e rest

  -- `parseArray`: an element is an interface of 16 bytes; a length below -1, or too long for
  -- `make`, panics.
  abbrev array_of : ParsedInt → Text → Got Value
  array_of (int_value (pos n)) rest =
      if ltb max_alloc (n * 16) then failed panics rest else wrapped (read_values n rest)
  array_of (int_value (negsuc zero)) rest = got (v_array none_left) rest
  array_of (int_value (negsuc (suc n))) rest = failed panics rest
  array_of bad_int rest = failed (common (codes "syntax")) rest
  array_of int_out_of_range rest = failed (common (codes "range")) rest

  -- The switch on the first byte of a line.
  unfoldable pub dispatch : ℕ → Text → Text → Got Value
  unfolding read_values
  dispatch kind p rest =
      if kind == b'-'
      then failed (common p) rest
      else if kind == b':'
      then int_of (parse_int p) rest
      else if kind == b'+'
      then got (v_bytes p) rest
      else if kind == b'$'
      then bulk_of (parse_int p) rest
      else if kind == b'*'
      then array_of (parse_int p) rest
      else failed (common (codes "Err type")) rest

  abbrev of_line : Got Text → Got Value
  of_line (got [] rest) = failed panics rest
  of_line (got (kind ∷ p) rest) = dispatch kind p rest
  of_line (failed e rest) = failed e rest

-- `readResponse`; the fuel bounds how deep arrays stand in arrays.
unfoldable pub read_response : ℕ → Text → Got Value
unfolding read_line
read_response zero s = failed out_of_fuel s
read_response (suc fuel) s = of_line (read_response fuel) (read_line s)
