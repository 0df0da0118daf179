-- ===== src/Redis/Commands/Strings.antt =====
-- utility/msgRedis/commands.go: strings.
pub mod Multi
use pepperbus.Base.{List, [], ◌∷◌, Bool, Option, none, some}
use pepperbus.Base.Int.{ℤ}
use pepperbus.Base.Text.{Text, codes}
use pepperbus.Base.Map.{Map}
use pepperbus.Redis.Call.{Outcome, answer, error}
use pepperbus.Redis.Resp.{arg_int, arg_text, arg_printed, v_array, Values}
use pepperbus.Redis.Commands.{
  Conn, call_failed, response_type, Out, out, panics, reply_with, int_reply, bytes_reply,
  bulk_reply, array_reply, scan_reply, scan_args, texts, pairs,
}

-- MSET tests for an array, and asserts bytes behind it.
abbrev mset_reply : Outcome → Out (Option Text)
mset_reply (error e) = out none (some (call_failed e))
mset_reply (answer (v_array vs)) = panics
mset_reply (answer v) = out none (some response_type)

module _ (conn : Conn) where
  open conn use {Store, call, call_n}

  -- `APPEND`.
  unfoldable pub append : Text → Text → Store → Out ℤ × Store
  append key value s =
      reply_with int_reply (call_n (codes "APPEND") (arg_text key ∷ arg_text value ∷ []) s)

  -- `BITCOUNT`.
  unfoldable pub bitcount : Text → Store → Out ℤ × Store
  bitcount key s = reply_with int_reply (call_n (codes "BITCOUNT") (arg_text key ∷ []) s)

  -- `BITOP`.
  unfoldable pub bitop : Text → Text → List Text → Store → Out ℤ × Store
  bitop op dest keys s =
      reply_with int_reply (call_n (codes "BITOP") (arg_text op ∷ arg_text dest ∷ texts keys) s)

  -- `DECR`.
  unfoldable pub decr : Text → Store → Out ℤ × Store
  decr key s = reply_with int_reply (call_n (codes "DECR") (arg_text key ∷ []) s)

  -- `DECRBY`.
  unfoldable pub decrby : Text → ℤ → Store → Out ℤ × Store
  decrby key num s =
      reply_with int_reply (call_n (codes "DECRBY") (arg_text key ∷ arg_int num ∷ []) s)

  -- `INCR`.
  unfoldable pub incr : Text → Store → Out ℤ × Store
  incr key s = reply_with int_reply (call_n (codes "INCR") (arg_text key ∷ []) s)

  -- `INCRBY`.
  unfoldable pub incrby : Text → ℤ → Store → Out ℤ × Store
  incrby key num s =
      reply_with int_reply (call_n (codes "INCRBY") (arg_text key ∷ arg_int num ∷ []) s)

  -- `INCRBYFLOAT`.
  unfoldable pub incrbyfloat : Text → Text → Store → Out (Option Text) × Store
  incrbyfloat key f s =
      reply_with bytes_reply (call_n (codes "INCRBYFLOAT") (arg_text key ∷ arg_printed f ∷ []) s)

  -- `SET`.
  unfoldable pub set : Text → Text → Store → Out (Option Text) × Store
  set key value s =
      reply_with bytes_reply (call_n (codes "SET") (arg_text key ∷ arg_text value ∷ []) s)

  -- `GET`.
  unfoldable pub get : Text → Store → Out (Option Text) × Store
  get key s = reply_with bulk_reply (call_n (codes "GET") (arg_text key ∷ []) s)

  -- `GETBIT`.
  unfoldable pub getbit : Text → ℤ → Store → Out ℤ × Store
  getbit key position s =
      reply_with int_reply (call_n (codes "GETBIT") (arg_text key ∷ arg_int position ∷ []) s)

  -- `GETRANGE`.
  unfoldable pub getrange : Text → ℤ → ℤ → Store → Out (Option Text) × Store
  getrange key start end s =
      reply_with bytes_reply
        (call_n (codes "GETRANGE") (arg_text key ∷ arg_int start ∷ arg_int end ∷ []) s)

  -- `GETSET`.
  unfoldable pub getset : Text → Text → Store → Out (Option Text) × Store
  getset key value s =
      reply_with bulk_reply (call_n (codes "GETSET") (arg_text key ∷ arg_text value ∷ []) s)

  -- `MGET`.
  unfoldable pub mget : List Text → Store → Out Values × Store
  mget keys s = reply_with array_reply (call_n (codes "MGET") (texts keys) s)

  -- `MSET`.
  unfoldable pub mset : Map Text → Store → Out (Option Text) × Store
  mset kv s = reply_with mset_reply (call_n (codes "MSET") (pairs kv) s)

  -- `MSETNX`.
  unfoldable pub msetnx : Map Text → Store → Out ℤ × Store
  msetnx kv s = reply_with int_reply (call_n (codes "MSETNX") (pairs kv) s)

  -- `PSETEX`.
  unfoldable pub psetex : Text → ℤ → Text → Store → Out (Option Text) × Store
  psetex key milliseconds value s =
      reply_with bytes_reply
        (call_n (codes "PSETEX") (arg_text key ∷ arg_int milliseconds ∷ arg_text value ∷ []) s)

  -- `SETBIT`.
  unfoldable pub setbit : Text → ℤ → ℤ → Store → Out ℤ × Store
  setbit key position value s =
      reply_with int_reply
        (call_n (codes "SETBIT") (arg_text key ∷ arg_int position ∷ arg_int value ∷ []) s)

  -- `SETEX`.
  unfoldable pub setex : Text → ℤ → Text → Store → Out (Option Text) × Store
  setex key seconds value s =
      reply_with bytes_reply
        (call_n (codes "SETEX") (arg_text key ∷ arg_int seconds ∷ arg_text value ∷ []) s)

  -- `SETNX`.
  unfoldable pub setnx : Text → Text → Store → Out ℤ × Store
  setnx key value s =
      reply_with int_reply (call_n (codes "SETNX") (arg_text key ∷ arg_text value ∷ []) s)

  -- `SETRANGE`.
  unfoldable pub setrange : Text → ℤ → Text → Store → Out ℤ × Store
  setrange key offset value s =
      reply_with int_reply
        (call_n (codes "SETRANGE") (arg_text key ∷ arg_int offset ∷ arg_text value ∷ []) s)

  -- `STRLEN`.
  unfoldable pub strlen : Text → Store → Out ℤ × Store
  strlen key s = reply_with int_reply (call_n (codes "STRLEN") (arg_text key ∷ []) s)

  -- `SSCAN`.
  unfoldable pub sscan : Text → ℤ → Bool → Text → Bool → ℤ → Store → Out (ℤ × Values) × Store
  sscan key cursor match pattern is_count count s = reply_with scan_reply (
      call_n (codes "SSCAN")
        (arg_text key ∷ arg_int cursor ∷ scan_args match pattern is_count count) s)
