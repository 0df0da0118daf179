-- ===== src/Redis/Commands/Strings/Multi.antt =====
-- commands.go, MSET: the type of its reply.
use pepperbus.Base.{◌≡◌, refl, Bool, true, false, none, some}
use pepperbus.Base.Text.{Text}
use pepperbus.Base.Map.{Map}
use pepperbus.Redis.Call.{Outcome, answer, error}
use pepperbus.Redis.Resp.{v_int, v_bytes, v_nil, v_array}
use pepperbus.Redis.Commands.{Conn, Out, out, panics}
use pepperbus.Redis.Commands.Strings.{mset_reply, mset}

-- A value without an error.
abbrev pub succeeds {ℓ} : {A : Type ℓ} → Out A → Bool
succeeds (out a none) = true
succeeds (out a (some e)) = false
succeeds panics = false

reply_fails : (r : Outcome) → succeeds (mset_reply r) ≡ false
reply_fails (error e) = refl
reply_fails (answer (v_int n)) = refl
reply_fails (answer (v_bytes b)) = refl
reply_fails (answer v_nil) = refl
reply_fails (answer (v_array vs)) = refl

-- MSET never returns without an error, whatever the server answers; its "OK" is a type error.
pub mset_fails :
    (conn : Conn) (kv : Map Text) (s : conn.Store) → succeeds (mset conn kv s).0 ≡ false
unfolding mset
mset_fails conn kv s = reply_fails _
