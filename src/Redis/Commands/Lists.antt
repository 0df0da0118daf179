-- ===== src/Redis/Commands/Lists.antt =====
-- utility/msgRedis/commands.go: lists.
pub mod Agree
use pepperbus.Base.{
  ℕ, ◌+◌, List, [], ◌∷◌, ◌++◌, map, ltb, Bool, ◌&&◌, ◌||◌, Option, some, if◌then◌else◌,
}
use pepperbus.Base.Int.{ℤ}
use pepperbus.Base.Text.{Text, codes, text_eq}
use pepperbus.Redis.Resp.{arg_int, arg_text, Values}
use pepperbus.Redis.Commands.{
  Conn, key_not_exist, invalid, Out, out, reply_with, minus_one, int_reply, bytes_reply, bulk_reply,
  array_or, array_reply, texts,
}

-- `strings.ToLower`, for the letters that can stand in the words it is compared with.
abbrev pub lower : ℕ → ℕ
lower c = if ltb 64 c && ltb c 91 then c + 32 else c

abbrev is_direction : Text → Bool
is_direction dir =
    text_eq (map lower dir) (codes "before") || text_eq (map lower dir) (codes "after")

module _ (conn : Conn) where
  open conn use {Store, call, call_n}

  -- `BLPOP`.
  unfoldable pub blpop : List Text → ℤ → Store → Out Values × Store
  blpop keys timeout s =
      reply_with (array_or key_not_exist)
        (call_n (codes "BLPOP") (texts keys ++ arg_int timeout ∷ []) s)

  -- `BRPOP`.
  unfoldable pub brpop : List Text → ℤ → Store → Out Values × Store
  brpop keys timeout s =
      reply_with (array_or key_not_exist)
        (call_n (codes "BRPOP") (texts keys ++ arg_int timeout ∷ []) s)

  -- `BRPOPLPUSH`.
  unfoldable pub brpoplpush : Text → Text → ℤ → Store → Out (Option Text) × Store
  brpoplpush source dest timeout s =
      reply_with bulk_reply
        (call_n (codes "BRPOPLPUSH") (arg_text source ∷ arg_text dest ∷ arg_int timeout ∷ []) s)

  -- `LINDEX`.
  unfoldable pub lindex : Text → ℤ → Store → Out (Option Text) × Store
  lindex key index s =
      reply_with bulk_reply (call_n (codes "LINDEX") (arg_text key ∷ arg_int index ∷ []) s)

  -- `LINSERT`.
  unfoldable pub linsert : Text → Text → Text → Text → Store → Out ℤ × Store
  linsert key dir pivot value s =
      if is_direction dir
      then reply_with int_reply (
          call_n (codes "LINSERT")
            (arg_text key ∷ arg_text dir ∷ arg_text pivot ∷ arg_text value ∷ []) s)
      else (
        out minus_one (some (invalid (codes "CommonError:dir only can be (before or after)"))),
        s,
      )

  -- `LLEN`.
  unfoldable pub llen : Text → Store → Out ℤ × Store
  llen key s = reply_with int_reply (call_n (codes "LLEN") (arg_text key ∷ []) s)

  -- `LPOP`.
  unfoldable pub lpop : Text → Store → Out (Option Text) × Store
  lpop key s = reply_with bulk_reply (call_n (codes "LPOP") (arg_text key ∷ []) s)

  -- `LPUSH`.
  unfoldable pub lpush : Text → List Text → Store → Out ℤ × Store
  lpush key values s = reply_with int_reply (call_n (codes "LPUSH") (arg_text key ∷ texts values) s)

  -- `LPUSHX`.
  unfoldable pub lpushx : Text → Text → Store → Out ℤ × Store
  lpushx key value s =
      reply_with int_reply (call_n (codes "LPUSHX") (arg_text key ∷ arg_text value ∷ []) s)

  -- `LRANGE`.
  unfoldable pub lrange : Text → ℤ → ℤ → Store → Out Values × Store
  lrange key start end s =
      reply_with array_reply
        (call_n (codes "LRANGE") (arg_text key ∷ arg_int start ∷ arg_int end ∷ []) s)

  -- `LREM`.
  unfoldable pub lrem : Text → ℤ → Text → Store → Out ℤ × Store
  lrem key count value s =
      reply_with int_reply
        (call_n (codes "LREM") (arg_text key ∷ arg_int count ∷ arg_text value ∷ []) s)

  -- `LSET`.
  unfoldable pub lset : Text → ℤ → Text → Store → Out (Option Text) × Store
  lset key index value s =
      reply_with bytes_reply
        (call_n (codes "LSET") (arg_text key ∷ arg_int index ∷ arg_text value ∷ []) s)

  -- `LTRIM`.
  unfoldable pub ltrim : Text → ℤ → ℤ → Store → Out (Option Text) × Store
  ltrim key start end s =
      reply_with bytes_reply
        (call_n (codes "LTRIM") (arg_text key ∷ arg_int start ∷ arg_int end ∷ []) s)

  -- `RPOP`.
  unfoldable pub rpop : Text → Store → Out (Option Text) × Store
  rpop key s = reply_with bulk_reply (call_n (codes "RPOP") (arg_text key ∷ []) s)

  -- `RPOPLPUSH`.
  unfoldable pub rpoplpush : Text → Text → Store → Out (Option Text) × Store
  rpoplpush source dest s =
      reply_with bulk_reply (call_n (codes "RPOPLPUSH") (arg_text source ∷ arg_text dest ∷ []) s)

  -- `RPUSH`.
  unfoldable pub rpush : Text → List Text → Store → Out ℤ × Store
  rpush key values s = reply_with int_reply (call_n (codes "RPUSH") (arg_text key ∷ texts values) s)

  -- `RPUSHX`.
  unfoldable pub rpushx : Text → Text → Store → Out ℤ × Store
  rpushx key value s =
      reply_with int_reply (call_n (codes "RPUSHX") (arg_text key ∷ arg_text value ∷ []) s)
