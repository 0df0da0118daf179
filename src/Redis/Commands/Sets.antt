-- ===== src/Redis/Commands/Sets.antt =====
-- utility/msgRedis/commands.go: sets.
use pepperbus.Base.{zero, List, [], ◌∷◌, Bool, true, false, Option, none, some, if◌then◌else◌}
use pepperbus.Base.Int.{ℤ, pos}
use pepperbus.Base.Text.{Text, codes}
use pepperbus.Redis.Call.{Outcome, answer, error}
use pepperbus.Redis.Resp.{arg_int, arg_text, v_bytes}
use pepperbus.Redis.Commands.{
  Conn, call_failed, key_not_exist, Out, out, panics, reply_with, int_or, int_reply, bulk_reply,
  members_or, members_reply, texts,
}

-- Without a count the reply is asserted to be bytes; a nil reply is no bytes.
abbrev one_member : Outcome → Out (List Text)
one_member (error e) = out [] (some (call_failed e))
one_member (answer (v_bytes b)) = out (b ∷ []) none
one_member (answer v) = panics

abbrev is_zero : ℤ → Bool
is_zero (pos zero) = true
is_zero z = false

module _ (conn : Conn) where
  open conn use {Store, call, call_n}

  -- `SADD`.
  unfoldable pub sadd : Text → List Text → Store → Out ℤ × Store
  sadd key values s = reply_with int_reply (call_n (codes "SADD") (arg_text key ∷ texts values) s)

  -- `SREM`.
  unfoldable pub srem : Text → List Text → Store → Out ℤ × Store
  srem key values s = reply_with int_reply (call_n (codes "SREM") (arg_text key ∷ texts values) s)

  -- `SISMEMBER`.
  unfoldable pub sismember : Text → Text → Store → Out ℤ × Store
  sismember key value s =
      reply_with (int_or (pos 0))
        (call_n (codes "SISMEMBER") (arg_text key ∷ arg_text value ∷ []) s)

  -- `SMEMBERS`.
  unfoldable pub smembers : Text → Store → Out (List Text) × Store
  smembers key s = reply_with members_reply (call_n (codes "SMEMBERS") (arg_text key ∷ []) s)

  -- `SCARD`.
  unfoldable pub scard : Text → Store → Out ℤ × Store
  scard key s = reply_with (int_or (pos 0)) (call_n (codes "SCARD") (arg_text key ∷ []) s)

  -- `SINTER`.
  unfoldable pub sinter : List Text → Store → Out (List Text) × Store
  sinter keys s = reply_with members_reply (call_n (codes "SINTER") (texts keys) s)

  -- `SINTERSTORE`.
  unfoldable pub sinterstore : Text → List Text → Store → Out ℤ × Store
  sinterstore key keys s =
      reply_with int_reply (call_n (codes "SINTERSTORE") (arg_text key ∷ texts keys) s)

  -- `SDIFF`.
  unfoldable pub sdiff : List Text → Store → Out (List Text) × Store
  sdiff keys s = reply_with members_reply (call_n (codes "SDIFF") (texts keys) s)

  -- `SDIFFSTORE`.
  unfoldable pub sdiffstore : Text → List Text → Store → Out ℤ × Store
  sdiffstore key keys s =
      reply_with int_reply (call_n (codes "SDIFFSTORE") (arg_text key ∷ texts keys) s)

  -- `SMOVE`.
  unfoldable pub smove : Text → Text → Text → Store → Out ℤ × Store
  smove src_key des_key member s =
      reply_with int_reply
        (call_n (codes "SMOVE") (arg_text src_key ∷ arg_text des_key ∷ arg_text member ∷ []) s)

  -- `SPOP`.
  unfoldable pub spop : Text → Store → Out (Option Text) × Store
  spop key s = reply_with bulk_reply (call_n (codes "SPOP") (arg_text key ∷ []) s)

  -- `SRANDMEMBER`.
  unfoldable pub srandmember : Text → ℤ → Store → Out (List Text) × Store
  srandmember key count s =
      if is_zero count
      then reply_with one_member (call_n (codes "SRANDMEMBER") (arg_text key ∷ []) s)
      else reply_with (members_or key_not_exist)
          (call_n (codes "SRANDMEMBER") (arg_text key ∷ arg_int count ∷ []) s)

  -- `SUNION`.
  unfoldable pub sunion : List Text → Store → Out (List Text) × Store
  sunion keys s = reply_with members_reply (call_n (codes "SUNION") (texts keys) s)

  -- `SUNIONSTORE`.
  unfoldable pub sunionstore : Text → List Text → Store → Out ℤ × Store
  sunionstore key keys s =
      reply_with int_reply (call_n (codes "SUNIONSTORE") (arg_text key ∷ texts keys) s)
