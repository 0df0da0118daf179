-- ===== src/Redis/Commands/Scripts.antt =====
-- utility/msgRedis/commands.go: HyperLogLog and scripts.
pub mod Slots
use pepperbus.Base.{
  ℕ, zero, suc, ◌+◌, ◌-◌, List, [], ◌∷◌, ◌++◌, length, ltb, Option, none, some, if◌then◌else◌,
}
use pepperbus.Base.Int.{ℤ, pos, negsuc}
use pepperbus.Base.Text.{Text, codes}
use pepperbus.Redis.Resp.{Arg, arg_int, arg_text, arg_nil, Value, Values}
use pepperbus.Redis.Commands.{
  Conn, Out, panics, reply_with, int_reply, bytes_reply, array_reply, any_reply, texts,
}

-- The arguments that are copied into a slice of a fixed length: a nil where none is left, a panic
-- (`none`) where one is too many.
abbrev placed : Arg → Option (List Arg) → Option (List Arg)
placed a none = none
placed a (some args) = some (a ∷ args)

unfoldable pub fill : ℕ → List Arg → Option (List Arg)
fill zero [] = some []
fill zero (a ∷ args) = none
fill (suc room) [] = placed arg_nil (fill room [])
fill (suc room) (a ∷ args) = placed a (fill room args)

-- The length of the slice behind the script and the number of keys; `none` is below 0, a panic.
abbrev room_for : ℤ → ℕ → Option ℕ
room_for (pos n) m = some (n + m)
room_for (negsuc n) m = if ltb n m then some (m - (n + 1)) else none

abbrev filled : Option ℕ → List Arg → Option (List Arg)
filled none args = none
filled (some room) args = fill room args

module _ (conn : Conn) where
  open conn use {Store, call, call_n}

  -- `PFADD`.
  unfoldable pub pfadd : Text → List Text → Store → Out ℤ × Store
  pfadd key elements s =
      reply_with int_reply (call_n (codes "PFADD") (arg_text key ∷ texts elements) s)

  -- `PFCOUNT`.
  unfoldable pub pfcount : List Text → Store → Out ℤ × Store
  pfcount keys s = reply_with int_reply (call_n (codes "PFCOUNT") (texts keys) s)

  -- `PFMERGE`.
  unfoldable pub pfmerge : Text → List Text → Store → Out (Option Text) × Store
  pfmerge dest_key source_keys s =
      reply_with bytes_reply (call_n (codes "PFMERGE") (arg_text dest_key ∷ texts source_keys) s)

  abbrev run : Text → Text → ℤ → Option (List Arg) → Store → Out Value × Store
  run command script numkeys none s = (panics, s)
  run command script numkeys (some args) s =
      reply_with any_reply (call_n command (arg_text script ∷ arg_int numkeys ∷ args) s)

  -- `EVAL`.
  unfoldable pub eval : Text → ℤ → List Text → List Text → Store → Out Value × Store
  eval script numkeys keys script_args s =
      run (codes "EVAL") script numkeys
        (filled (room_for numkeys (length script_args)) (texts (keys ++ script_args))) s

  -- `EVALSHA`.
  unfoldable pub evalsha : Text → ℤ → List Text → List Text → Store → Out Value × Store
  evalsha sha1 numkeys keys script_args s =
      run (codes "EVALSHA") sha1 numkeys
        (filled (room_for numkeys (length script_args)) (texts (keys ++ script_args))) s

  -- `SCRIPTEXISTS`.
  unfoldable pub scriptexists : List Text → Store → Out Values × Store
  scriptexists scripts s =
      reply_with array_reply (call_n (codes "SCRIPT") (arg_text (codes "EXISTS") ∷ texts scripts) s)

  -- `SCRIPTFLUSH`.
  unfoldable pub scriptflush : Store → Out (Option Text) × Store
  scriptflush s = reply_with bytes_reply (call_n (codes "SCRIPT") (arg_text (codes "FLUSH") ∷ []) s)

  -- `SCRIPTKILL`.
  unfoldable pub scriptkill : Store → Out (Option Text) × Store
  scriptkill s = reply_with bytes_reply (call_n (codes "SCRIPT") (arg_text (codes "KILL") ∷ []) s)

  -- `SCRIPTLOAD`.
  unfoldable pub scriptload : Text → Store → Out (Option Text) × Store
  scriptload script s =
      reply_with bytes_reply
        (call_n (codes "SCRIPT") (arg_text (codes "LOAD") ∷ arg_text script ∷ []) s)
