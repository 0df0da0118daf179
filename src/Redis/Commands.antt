-- ===== src/Redis/Commands.antt =====
-- utility/msgRedis/commands.go: the commands of the client. Every command is its request and the
-- reading of the reply, over a connection; the replies' type assertions are here, the commands in
-- the children.
pub mod Keys
pub mod Sets
pub mod Strings
pub mod Hashes
pub mod Lists
pub mod Sorted
pub mod Scripts
use pepperbus.Base.{
  ℕ, List, [], ◌∷◌, Bool, true, false, Option, none, some, map, ◌==◌, if◌then◌else◌, ◌^◌, ◌-◌,
}
use pepperbus.Base.Int.{ℤ, pos, negsuc}
use pepperbus.Base.Text.{Text, codes, text_eq}
use pepperbus.Base.Map.{Map}
use pepperbus.Base.Signed.{ParsedInt, int_value, bad_int, int_out_of_range, parse_int}
use pepperbus.Redis.Call.{Outcome, answer, error}
use pepperbus.Redis.Resp.{
  Arg, arg_int, arg_text, Value, v_int, v_bytes, v_nil, v_array, Values, none_left, and_then,
}

-- `Call` and `CallN` of a connection, with the server behind it as the store.
pub record Conn : Type 1 where
  pub Store : Type 0
  pub call : Text → List Arg → Store → Outcome × Store
  pub call_n : Text → List Arg → Store → Outcome × Store

-- The error of a command: of the call, or one of its own.
pub data Failure : Type 0 where
  call_failed : Text → Failure
  response_type key_not_exist empty_db bad_args : Failure
  invalid : Text → Failure

-- What a command returns: a value and an error, or a panic. (A nil slice is the empty list, or
-- `none` for bytes.)
pub data Out {ℓ} (A : Type ℓ) : Type ℓ where
  out : A → Option Failure → Out A
  panics : Out A

-- A reply that is read, and the store as the call left it.
abbrev pub reply_with {ℓ} : {A : Type ℓ} {S : Type 0} → (Outcome → Out A) → Outcome × S → Out A × S
reply_with read (r, s) = (read r, s)

abbrev pub minus_one : ℤ
minus_one = negsuc 0

-- `n.(int64)`, with the value that is returned beside the error of a call.
abbrev pub int_or : ℤ → Outcome → Out ℤ
int_or d (error e) = out d (some (call_failed e))
int_or d (answer (v_int n)) = out n none
int_or d (answer (v_bytes b)) = out minus_one (some response_type)
int_or d (answer v_nil) = out minus_one (some response_type)
int_or d (answer (v_array vs)) = out minus_one (some response_type)

abbrev pub int_reply : Outcome → Out ℤ
int_reply r = int_or minus_one r

-- An integer without the test of its type (TTL).
abbrev pub int_unchecked : Outcome → Out ℤ
int_unchecked (error e) = out minus_one (some (call_failed e))
int_unchecked (answer (v_int n)) = out n none
int_unchecked (answer (v_bytes b)) = panics
int_unchecked (answer v_nil) = panics
int_unchecked (answer (v_array vs)) = panics

-- An integer, or a key that does not exist (ZRANK).
abbrev pub rank_reply : Outcome → Out ℤ
rank_reply (error e) = out minus_one (some (call_failed e))
rank_reply (answer (v_int n)) = out n none
rank_reply (answer (v_bytes b)) = out minus_one (some key_not_exist)
rank_reply (answer v_nil) = out minus_one (some key_not_exist)
rank_reply (answer (v_array vs)) = out minus_one (some key_not_exist)

abbrev is_one : ℤ → Bool
is_one (pos n) = n == 1
is_one (negsuc n) = false

-- An integer that is compared with 1.
abbrev pub flag_reply : Outcome → Out Bool
flag_reply (error e) = out false (some (call_failed e))
flag_reply (answer (v_int n)) = out (is_one n) none
flag_reply (answer (v_bytes b)) = out false (some response_type)
flag_reply (answer v_nil) = out false (some response_type)
flag_reply (answer (v_array vs)) = out false (some response_type)

-- `v.([]byte)`; with `missing`, the test for nil before it.
abbrev pub bytes_or : Failure → Outcome → Out (Option Text)
bytes_or missing (error e) = out none (some (call_failed e))
bytes_or missing (answer (v_int n)) = out none (some response_type)
bytes_or missing (answer (v_bytes b)) = out (some b) none
bytes_or missing (answer v_nil) = out none (some missing)
bytes_or missing (answer (v_array vs)) = out none (some response_type)

abbrev pub bytes_reply : Outcome → Out (Option Text)
bytes_reply r = bytes_or response_type r

abbrev pub bulk_reply : Outcome → Out (Option Text)
bulk_reply r = bytes_or key_not_exist r

-- `v.([]interface{})`; with `missing`, the test for nil before it.
abbrev pub array_or : Failure → Outcome → Out Values
array_or missing (error e) = out none_left (some (call_failed e))
array_or missing (answer (v_int n)) = out none_left (some response_type)
array_or missing (answer (v_bytes b)) = out none_left (some response_type)
array_or missing (answer v_nil) = out none_left (some missing)
array_or missing (answer (v_array vs)) = out vs none

abbrev pub array_reply : Outcome → Out Values
array_reply r = array_or response_type r

-- An array without the test of its type (ZRANGE with scores).
abbrev pub array_unchecked : Outcome → Out Values
array_unchecked (error e) = out none_left (some (call_failed e))
array_unchecked (answer (v_int n)) = panics
array_unchecked (answer (v_bytes b)) = panics
array_unchecked (answer v_nil) = panics
array_unchecked (answer (v_array vs)) = out vs none

-- The reply as it is.
abbrev pub any_reply : Outcome → Out Value
any_reply (error e) = out v_nil (some (call_failed e))
any_reply (answer v) = out v none

abbrev add_member : Text → Option (List Text) → Option (List Text)
add_member b none = none
add_member b (some bs) = some (b ∷ bs)

-- The loop that asserts `value.([]byte)` for every element: `none` is a panic.
unfoldable pub members : Values → Option (List Text)
members none_left = some []
members (and_then (v_int n) vs) = none
members (and_then (v_bytes b) vs) = add_member b (members vs)
members (and_then v_nil vs) = none
members (and_then (v_array us) vs) = none

abbrev pub returned : Option (List Text) → Out (List Text)
returned none = panics
returned (some bs) = out bs none

-- The elements of an array as bytes.
abbrev pub members_or : Failure → Outcome → Out (List Text)
members_or missing (error e) = out [] (some (call_failed e))
members_or missing (answer (v_int n)) = out [] (some response_type)
members_or missing (answer (v_bytes b)) = out [] (some response_type)
members_or missing (answer v_nil) = out [] (some missing)
members_or missing (answer (v_array vs)) = returned (members vs)

abbrev pub members_reply : Outcome → Out (List Text)
members_reply r = members_or response_type r

-- `strconv.Atoi` without its error.
abbrev limit_of : Text → ℤ
limit_of [] = pos 0
limit_of (c ∷ s) = if c == b'-' then negsuc (2 ^ 63 - 1) else pos (2 ^ 63 - 1)

abbrev number_of : Text → ParsedInt → ℤ
number_of s (int_value z) = z
number_of s bad_int = pos 0
number_of s int_out_of_range = limit_of s

unfoldable pub atoi : Text → ℤ
unfolding parse_int
atoi s = number_of s (parse_int s)

-- The cursor and the elements of a SCAN: no test but that of the whole reply.
abbrev cursor_of : Values → Out (ℤ × Values)
cursor_of (and_then (v_bytes b) (and_then (v_array vs) rest)) = out (atoi b, vs) none
cursor_of vs = panics

abbrev pub scan_reply : Outcome → Out (ℤ × Values)
scan_reply (error e) = out (pos 0, none_left) (some (call_failed e))
scan_reply (answer (v_int n)) = out (pos 0, none_left) (some response_type)
scan_reply (answer (v_bytes b)) = out (pos 0, none_left) (some response_type)
scan_reply (answer v_nil) = out (pos 0, none_left) (some response_type)
scan_reply (answer (v_array vs)) = cursor_of vs

-- The options of a SCAN.
abbrev pub scan_args : Bool → Text → Bool → ℤ → List Arg
scan_args match pattern is_count count =
    let last = if is_count then arg_text (codes "COUNT") ∷ arg_int count ∷ [] else [] in
    if match then arg_text (codes "MATCH") ∷ arg_text pattern ∷ last else last

-- The loops that copy strings, or the entries of a map in the order of its iteration, to arguments.
abbrev pub texts : List Text → List Arg
texts keys = map arg_text keys

unfoldable pub fields_of : Map Arg → List Arg
fields_of [] = []
fields_of ((k, v) ∷ kv) = arg_text k ∷ v ∷ fields_of kv

unfoldable pub pairs : Map Text → List Arg
pairs [] = []
pairs ((k, v) ∷ kv) = arg_text k ∷ arg_text v ∷ pairs kv

-- "OK".
abbrev pub is_okay : Text → Bool
is_okay b = text_eq b (codes "OK")
