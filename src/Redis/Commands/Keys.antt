-- ===== src/Redis/Commands/Keys.antt =====
-- utility/msgRedis/commands.go: the connection and the keys.
use pepperbus.Base.{List, [], ◌∷◌, ◌++◌, Bool, true, false, Option, none, some, if◌then◌else◌}
use pepperbus.Base.Int.{ℤ}
use pepperbus.Base.Text.{Text, codes, text_eq}
use pepperbus.Redis.Call.{Outcome, answer, error}
use pepperbus.Redis.Resp.{arg_int, arg_text, Value, v_int, v_bytes, v_nil, v_array, Values}
use pepperbus.Redis.Commands.{
  Conn, Failure, call_failed, response_type, key_not_exist, empty_db, invalid, Out, out, reply_with,
  int_reply, int_unchecked, flag_reply, bytes_or, bytes_reply, bulk_reply, members_reply,
  scan_reply, scan_args, is_okay, texts,
}

-- A reply that has to be the text "OK".
abbrev auth_reply : Outcome → Out Bool
auth_reply (error e) = out false (some (call_failed e))
auth_reply (answer (v_bytes b)) =
    if is_okay b
    then out true none
    else out false (some (invalid (codes "invaild response string:" ++ b)))
auth_reply (answer v) = out false (some (invalid (codes "invaild response type")))

abbrev alive_reply : Outcome → Out Bool
alive_reply (answer (v_bytes b)) = out (text_eq b (codes "PONG")) none
alive_reply r = out false none

abbrev info_reply : Outcome → Out (Option Text)
info_reply (error e) = out none (some (call_failed e))
info_reply (answer (v_bytes b)) = out (some b) none
info_reply (answer v) = out none (some (invalid (codes "invalid type")))

abbrev okay_or : Option Failure → Outcome → Out Bool
okay_or failure (error e) = out false (some (call_failed e))
okay_or failure (answer (v_bytes b)) = if is_okay b then out true none else out false failure
okay_or failure (answer v) = out false (some response_type)

abbrev object_reply : Outcome → Out Value
object_reply (error e) = out v_nil (some (call_failed e))
object_reply (answer (v_int n)) = out (v_int n) none
object_reply (answer (v_bytes b)) = out (v_bytes b) none
object_reply (answer v_nil) = out v_nil (some key_not_exist)
object_reply (answer (v_array vs)) = out v_nil (some response_type)

module _ (conn : Conn) where
  open conn use {Store, call, call_n}

  -- `AUTH`.
  unfoldable pub auth : Text → Store → Out Bool × Store
  auth password s = reply_with auth_reply (call (codes "AUTH") (arg_text password ∷ []) s)

  -- `IsAlive`.
  unfoldable pub is_alive : Store → Out Bool × Store
  is_alive s = reply_with alive_reply (call (codes "PING") [] s)

  -- `Info`.
  unfoldable pub info : Store → Out (Option Text) × Store
  info s = reply_with info_reply (call (codes "INFO") [] s)

  -- `DEL`.
  unfoldable pub del : Text → Store → Out ℤ × Store
  del key s = reply_with int_reply (call_n (codes "DEL") (arg_text key ∷ []) s)

  -- `DELMulti`.
  unfoldable pub del_multi : List Text → Store → Out ℤ × Store
  del_multi keys s = reply_with int_reply (call_n (codes "DEL") (texts keys) s)

  -- `DUMP`.
  unfoldable pub dump : Text → Store → Out (Option Text) × Store
  dump key s = reply_with bulk_reply (call_n (codes "DUMP") (arg_text key ∷ []) s)

  -- `EXISTS`.
  unfoldable pub exists : Text → Store → Out Bool × Store
  exists key s = reply_with flag_reply (call_n (codes "EXISTS") (arg_text key ∷ []) s)

  -- `EXPIRE`.
  unfoldable pub expire : Text → ℤ → Store → Out Bool × Store
  expire key seconds s =
      reply_with flag_reply (call_n (codes "EXPIRE") (arg_text key ∷ arg_int seconds ∷ []) s)

  -- `EXPIREAT`.
  unfoldable pub expireat : Text → ℤ → Store → Out Bool × Store
  expireat key timestamp s =
      reply_with flag_reply (call_n (codes "EXPIREAT") (arg_text key ∷ arg_int timestamp ∷ []) s)

  -- `KEYS`.
  unfoldable pub keys : Text → Store → Out (List Text) × Store
  keys pattern s = reply_with members_reply (call_n (codes "KEYS") (arg_text pattern ∷ []) s)

  -- `MIGRATE`.
  unfoldable pub migrate : Text → Text → Text → Text → ℤ → Bool → Bool → Store → Out Bool × Store
  migrate host port key dest_db timeout copy replace s =
      reply_with (okay_or (some (invalid (codes "migrate false")))) (
        call_n (codes "MIGRATE")
          (arg_text host ∷ arg_text port ∷ arg_text key ∷ arg_text dest_db ∷ arg_int timeout ∷ [])
          s)

  -- `SELECT`.
  unfoldable pub select : ℤ → Store → Out (Option Text) × Store
  select index s = reply_with bytes_reply (call_n (codes "SELECT") (arg_int index ∷ []) s)

  -- `MOVE`.
  unfoldable pub move : Text → Text → Store → Out Bool × Store
  move key db s = reply_with flag_reply (call_n (codes "MOVE") (arg_text key ∷ arg_text db ∷ []) s)

  -- `OBJECT`.
  unfoldable pub object : Text → Text → Store → Out Value × Store
  object subcommand key s =
      reply_with object_reply (call_n (codes "OBJECT") (arg_text subcommand ∷ arg_text key ∷ []) s)

  -- `PERSIST`.
  unfoldable pub persist : Text → Store → Out Bool × Store
  persist key s = reply_with flag_reply (call_n (codes "PERSIST") (arg_text key ∷ []) s)

  -- `PEXPIRE`.
  unfoldable pub pexpire : Text → ℤ → Store → Out Bool × Store
  pexpire key milliseconds s =
      reply_with flag_reply (call_n (codes "EXPIRE") (arg_text key ∷ arg_int milliseconds ∷ []) s)

  -- `PEXPIREAT`.
  unfoldable pub pexpireat : Text → ℤ → Store → Out Bool × Store
  pexpireat key milli_timestamp s =
      reply_with flag_reply
        (call_n (codes "EXPIREAT") (arg_text key ∷ arg_int milli_timestamp ∷ []) s)

  -- `PTTL`.
  unfoldable pub pttl : Text → Store → Out ℤ × Store
  pttl key s = reply_with int_reply (call_n (codes "PTTL") (arg_text key ∷ []) s)

  -- `RANDOMKEY`.
  unfoldable pub randomkey : Store → Out (Option Text) × Store
  randomkey s = reply_with (bytes_or empty_db) (call_n (codes "RANDOMKEY") [] s)

  -- `RENAME`.
  unfoldable pub rename : Text → Text → Store → Out (Option Text) × Store
  rename key newkey s =
      reply_with bytes_reply (call_n (codes "RENAME") (arg_text key ∷ arg_text newkey ∷ []) s)

  -- `RENAMENX`.
  unfoldable pub renamenx : Text → Text → Store → Out Bool × Store
  renamenx key newkey s =
      reply_with flag_reply (call_n (codes "RENAMENX") (arg_text key ∷ arg_text newkey ∷ []) s)

  -- `RESTORE`.
  unfoldable pub restore : Text → ℤ → Text → Store → Out Bool × Store
  restore key ttl serialized_value s =
      reply_with (okay_or none)
        (call_n (codes "RESTORE") (arg_text key ∷ arg_int ttl ∷ arg_text serialized_value ∷ []) s)

  -- `TTL`.
  unfoldable pub ttl : Text → Store → Out ℤ × Store
  ttl key s = reply_with int_unchecked (call_n (codes "TTL") (arg_text key ∷ []) s)

  -- `TYPE`.
  unfoldable pub key_type : Text → Store → Out (Option Text) × Store
  key_type key s = reply_with bytes_reply (call_n (codes "TYPE") (arg_text key ∷ []) s)

  -- `SCAN`.
  unfoldable pub scan : ℤ → Bool → Text → Bool → ℤ → Store → Out (ℤ × Values) × Store
  scan cursor match pattern is_count count s =
      reply_with scan_reply
        (call_n (codes "SCAN") (arg_int cursor ∷ scan_args match pattern is_count count) s)
