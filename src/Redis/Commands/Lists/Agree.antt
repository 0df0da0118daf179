-- ===== src/Redis/Commands/Lists/Agree.antt =====
-- commands.go: the list commands that the bus uses, which `Redis` reads from abstract requests, are
-- those of the client over `CallN`.
use pepperbus.Base.{ℕ, ◌≡◌, refl, List, [], ◌∷◌, Option, none, some}
use pepperbus.Base.Int.{pos}
use pepperbus.Base.Text.{Text, codes}
use pepperbus.Redis
use pepperbus.Redis.Call.{Outcome, answer, error}
use pepperbus.Redis.Wire.{Command, Reply, Error, Result, Server, integer, bulk, nil, array, ok, err}
use pepperbus.Redis.Resp.{
  Arg, arg_int, arg_text, Value, v_int, v_bytes, v_nil, v_array, Values, none_left, and_then,
}
use pepperbus.Redis.Commands.{
  Conn, Failure, call_failed, response_type, key_not_exist, empty_db, bad_args, invalid, Out, out,
  panics, texts, int_reply, bytes_or, array_or,
}
use pepperbus.Redis.Commands.Keys
use pepperbus.Redis.Commands.Lists

-- An abstract request as a command with arguments.
abbrev pub request : Command → Text × List Arg
request (Command.lpush key values) = (codes "LPUSH", arg_text key ∷ texts values)
request (Command.rpop key) = (codes "RPOP", arg_text key ∷ [])
request (Command.rpoplpush source dest) = (codes "RPOPLPUSH", arg_text source ∷ arg_text dest ∷ [])
request (Command.llen key) = (codes "LLEN", arg_text key ∷ [])
request (Command.del key) = (codes "DEL", arg_text key ∷ [])
request (Command.lrange key start end) =
    (codes "LRANGE", arg_text key ∷ arg_int (pos start) ∷ arg_int (pos end) ∷ [])
request (Command.ltrim key start end) =
    (codes "LTRIM", arg_text key ∷ arg_int (pos start) ∷ arg_int (pos end) ∷ [])

abbrev pub element : Value → Option Text
element (v_int n) = none
element (v_bytes b) = some b
element v_nil = none
element (v_array vs) = none

unfoldable pub elements : Values → List (Option Text)
elements none_left = []
elements (and_then v vs) = element v ∷ elements vs

abbrev pub result_of : Outcome → Result Reply
result_of (error e) = err (Error.call_failed e)
result_of (answer (v_int n)) = ok (integer n)
result_of (answer (v_bytes b)) = ok (bulk b)
result_of (answer v_nil) = ok nil
result_of (answer (v_array vs)) = ok (array (elements vs))

-- The abstract server of a connection.
abbrev pub server_of : Conn → Server
server_of conn = record {
  Store = conn.Store;
  call_n = λ c s. let (r, s') = conn.call_n (request c).0 (request c).1 s in (result_of r, s');
}

-- The errors of a command as those of the abstract results; the others belong to other commands.
abbrev error_of : Failure → Option Error
error_of (call_failed e) = some (Error.call_failed e)
error_of response_type = some Error.response_type
error_of key_not_exist = some Error.key_not_exist
error_of empty_db = none
error_of bad_args = none
error_of (invalid m) = none

abbrev returned {ℓ} : {A : Type ℓ} → Option A → Option (Result A)
returned none = none
returned (some b) = some (ok b)

abbrev refused {ℓ} : {A : Type ℓ} → Option Error → Option (Result A)
refused none = none
refused (some e) = some (err e)

-- What a command returns as an abstract result; `none` is a panic, or what the abstract results
-- have not.
abbrev pub as_result {ℓ κ} : {A : Type ℓ} {B : Type κ} → (A → Option B) → Out A → Option (Result B)
as_result f (out a none) = returned (f a)
as_result f (out a (some e)) = refused (error_of e)
as_result f panics = none

-- The same result, and the same store.
abbrev pub Same {ℓ κ} :
    {A : Type ℓ} {B : Type κ} {S : Type 0} → (A → Option B) → Out A × S → Result B × S → Type κ
Same f (o, s) (r, s') = (as_result f o ≡ some r) × (s ≡ s')

ints_agree : (r : Outcome) → as_result some (int_reply r) ≡ some (Redis.int_of (result_of r))
ints_agree (error e) = refl
ints_agree (answer (v_int n)) = refl
ints_agree (answer (v_bytes b)) = refl
ints_agree (answer v_nil) = refl
ints_agree (answer (v_array vs)) = refl

bulks_agree :
    (r : Outcome)
    → as_result (λ b. b) (bytes_or key_not_exist r) ≡ some (Redis.bulk_of (result_of r))
bulks_agree (error e) = refl
bulks_agree (answer (v_int n)) = refl
bulks_agree (answer (v_bytes b)) = refl
bulks_agree (answer v_nil) = refl
bulks_agree (answer (v_array vs)) = refl

bytes_agree :
    (r : Outcome)
    → as_result (λ b. b) (bytes_or response_type r) ≡ some (Redis.bytes_of (result_of r))
bytes_agree (error e) = refl
bytes_agree (answer (v_int n)) = refl
bytes_agree (answer (v_bytes b)) = refl
bytes_agree (answer v_nil) = refl
bytes_agree (answer (v_array vs)) = refl

abbrev pub listed : Values → Option (List (Option Text))
listed vs = some (elements vs)

arrays_agree :
    (r : Outcome)
    → as_result listed (array_or response_type r) ≡ some (Redis.array_of (result_of r))
arrays_agree (error e) = refl
arrays_agree (answer (v_int n)) = refl
arrays_agree (answer (v_bytes b)) = refl
arrays_agree (answer v_nil) = refl
arrays_agree (answer (v_array vs)) = refl

-- Over a connection, the seven commands that the storage sends return what the client's commands
-- return, value or error, and leave the same store: they never panic. So whatever is proved of
-- them for a server holds for a connection.
pub commands_agree :
    (conn : Conn) (k d : Text) (vs : List Text) (start end : ℕ) (s : conn.Store)
    → Same some (Lists.lpush conn k vs s) (Redis.lpush (server_of conn) k vs s)
      × Same (λ b. b) (Lists.rpop conn k s) (Redis.rpop (server_of conn) k s)
      × Same (λ b. b) (Lists.rpoplpush conn k d s) (Redis.rpoplpush (server_of conn) k d s)
      × Same some (Lists.llen conn k s) (Redis.llen (server_of conn) k s)
      × Same some (Keys.del conn k s) (Redis.del (server_of conn) k s)
      × Same listed
          (Lists.lrange conn k (pos start) (pos end) s)
          (Redis.lrange (server_of conn) k start end s)
      × Same
          (λ b. b)
          (Lists.ltrim conn k (pos start) (pos end) s)
          (Redis.ltrim (server_of conn) k start end s)
unfolding Lists.lpush Lists.rpop Lists.rpoplpush Lists.llen Keys.del Lists.lrange Lists.ltrim
    Redis.lpush Redis.rpop Redis.rpoplpush Redis.llen Redis.del Redis.lrange Redis.ltrim
commands_agree conn k d vs start end s = (
  (ints_agree _, refl),
  (bulks_agree _, refl),
  (bulks_agree _, refl),
  (ints_agree _, refl),
  (ints_agree _, refl),
  (arrays_agree _, refl),
  (bytes_agree _, refl),
)
