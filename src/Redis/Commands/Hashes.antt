-- ===== src/Redis/Commands/Hashes.antt =====
-- utility/msgRedis/commands.go: hashes.
pub mod ReadMap
use pepperbus.Base.{ℕ, zero, suc, List, [], ◌∷◌, Bool, true, not, Option, none, some, if◌then◌else◌}
use pepperbus.Base.Int.{ℤ}
use pepperbus.Base.Text.{Text, codes}
use pepperbus.Base.Map.{Map, insert}
use pepperbus.Redis.Resp.{Arg, arg_int, arg_text, arg_printed, v_bytes, Values, none_left, and_then}
use pepperbus.Redis.Commands.{
  Conn, key_not_exist, Out, out, panics, reply_with, int_reply, flag_reply, bytes_reply, bulk_reply,
  array_or, array_reply, members_or, scan_reply, scan_args, texts, fields_of,
}

-- The loop of HGETALLMAP on the elements that are left: a field that is no bytes is tried again and
-- again, until the fuel runs out (`none`).
unfoldable pub map_loop : ℕ → Values → Map Text → Option (Out (Map Text))
map_loop zero vs m = none
map_loop (suc fuel) none_left m = some (out m none)
map_loop (suc fuel) (and_then (v_bytes k) (and_then (v_bytes v) vs)) m =
    map_loop fuel vs (insert k v m)
map_loop (suc fuel) (and_then (v_bytes k) vs) m = some panics
map_loop (suc fuel) (and_then v vs) m = map_loop fuel (and_then v vs) m

-- Whether the number of elements is even.
abbrev pub is_even : Values → Bool
is_even none_left = true
is_even (and_then v vs) = not (is_even vs)

abbrev pub map_of : ℕ → Out Values → Option (Out (Map Text))
map_of fuel panics = some panics
map_of fuel (out vs (some e)) = some (out [] (some e))
map_of fuel (out none_left none) = some (out [] (some key_not_exist))
map_of fuel (out (and_then v vs) none) =
    if is_even (and_then v vs)
    then map_loop fuel (and_then v vs) []
    else some (out [] (some key_not_exist))

module _ (conn : Conn) where
  open conn use {Store, call, call_n}

  -- `HDEL`.
  unfoldable pub hdel : Text → List Text → Store → Out ℤ × Store
  hdel key fields s = reply_with int_reply (call_n (codes "HDEL") (arg_text key ∷ texts fields) s)

  -- `HEXISTS`.
  unfoldable pub hexists : Text → Text → Store → Out Bool × Store
  hexists key field s =
      reply_with flag_reply (call_n (codes "HEXISTS") (arg_text key ∷ arg_text field ∷ []) s)

  -- `HGET`.
  unfoldable pub hget : Text → Text → Store → Out (Option Text) × Store
  hget key field s =
      reply_with bulk_reply (call_n (codes "HGET") (arg_text key ∷ arg_text field ∷ []) s)

  -- `HGETALL`.
  unfoldable pub hgetall : Text → Store → Out Values × Store
  hgetall key s =
      reply_with (array_or key_not_exist) (call_n (codes "HGETALL") (arg_text key ∷ []) s)

  -- `HGETALLMAP`; the fuel is for its loop.
  unfoldable pub hgetallmap : ℕ → Text → Store → Option (Out (Map Text)) × Store
  unfolding hgetall map_loop
  hgetallmap fuel key s = let (r, s') = hgetall key s in (map_of fuel r, s')

  -- `HINCRBY`.
  unfoldable pub hincrby : Text → Text → ℤ → Store → Out ℤ × Store
  hincrby key field increment s =
      reply_with int_reply
        (call_n (codes "HINCRBY") (arg_text key ∷ arg_text field ∷ arg_int increment ∷ []) s)

  -- `HINCRBYFLOAT`.
  unfoldable pub hincrbyfloat : Text → Text → Text → Store → Out (Option Text) × Store
  hincrbyfloat key field increment s =
      reply_with bytes_reply (
        call_n (codes "HINCRBYFLOAT") (arg_text key ∷ arg_text field ∷ arg_printed increment ∷ [])
          s)

  -- `HKEYS`.
  unfoldable pub hkeys : Text → Store → Out (List Text) × Store
  hkeys key s = reply_with (members_or key_not_exist) (call_n (codes "HKEYS") (arg_text key ∷ []) s)

  -- `HLEN`.
  unfoldable pub hlen : Text → Store → Out ℤ × Store
  hlen key s = reply_with int_reply (call_n (codes "HLEN") (arg_text key ∷ []) s)

  -- `HMGET`.
  unfoldable pub hmget : Text → List Text → Store → Out Values × Store
  hmget key fields s =
      reply_with (array_or key_not_exist) (call_n (codes "HMGET") (arg_text key ∷ texts fields) s)

  -- `HMSET`.
  unfoldable pub hmset : Text → Map Arg → Store → Out (Option Text) × Store
  hmset key kv s = reply_with bytes_reply (call_n (codes "HMSET") (arg_text key ∷ fields_of kv) s)

  -- `HSET`.
  unfoldable pub hset : Text → Text → Arg → Store → Out ℤ × Store
  hset key field value s =
      reply_with int_reply (call_n (codes "HSET") (arg_text key ∷ arg_text field ∷ value ∷ []) s)

  -- `HSETNX`.
  unfoldable pub hsetnx : Text → Text → Arg → Store → Out ℤ × Store
  hsetnx key field value s =
      reply_with int_reply (call_n (codes "HSETNX") (arg_text key ∷ arg_text field ∷ value ∷ []) s)

  -- `HVALS`.
  unfoldable pub hvals : Text → Store → Out Values × Store
  hvals key s = reply_with array_reply (call_n (codes "HVALS") (arg_text key ∷ []) s)

  -- `HSCAN`.
  unfoldable pub hscan : Text → ℤ → Bool → Text → Bool → ℤ → Store → Out (ℤ × Values) × Store
  hscan key cursor match pattern is_count count s = reply_with scan_reply (
      call_n (codes "HSCAN")
        (arg_text key ∷ arg_int cursor ∷ scan_args match pattern is_count count) s)
