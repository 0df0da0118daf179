-- ===== src/Redis/Transactions.antt =====
-- utility/msgRedis/conn.go: the commands of a transaction, over `Call`.
use pepperbus.Base.{List, [], ◌∷◌, Option, none, some, if◌then◌else◌}
use pepperbus.Base.Text.{Text, codes, text_eq}
use pepperbus.Redis.Call.{Outcome, answer, error}
use pepperbus.Redis.Resp.{Arg, arg_nil, v_bytes, v_nil, v_array, Values, none_left}
use pepperbus.Redis.Commands.{Conn}

-- An error of the call, `ErrBadType`, `ErrNil`, and "invalid return:" with the reply.
pub data TransError : Type 0 where
  not_called : Text → TransError
  bad_type nil_data : TransError
  invalid_return : Text → TransError

-- The array of EXEC and its error, or a panic.
pub data Executed : Type 0 where
  executed : Values → Option TransError → Executed
  panics : Executed

abbrev expected : Text → Outcome → Option TransError
expected word (error e) = some (not_called e)
expected word (answer (v_bytes b)) = if text_eq b word then none else some (invalid_return b)
expected word (answer v) = some bad_type

abbrev exec_reply : Option Text → Outcome → Executed
exec_reply (some e) r = executed none_left (some (not_called e))
exec_reply none (error e) = executed none_left (some nil_data)
exec_reply none (answer v_nil) = executed none_left (some nil_data)
exec_reply none (answer (v_array vs)) = executed vs none
exec_reply none (answer v) = panics

-- A nil for every key.
abbrev no_keys : List Text → List Arg
no_keys [] = []
no_keys (key ∷ keys) = arg_nil ∷ no_keys keys

module _ (conn : Conn) where
  open conn use {Store, call}

  -- `MULTI`.
  unfoldable pub multi : Store → Option TransError × Store
  multi s = let (r, s') = call (codes "MULTI") [] s in (expected (codes "OK") r, s')

  -- `TransSend`.
  unfoldable pub trans_send : Text → List Arg → Store → Option TransError × Store
  trans_send command args s = let (r, s') = call command args s in (expected (codes "QUEUED") r, s')

  -- `TransExec`; the first argument is the error of the flush behind the call.
  unfoldable pub trans_exec : Option Text → Store → Executed × Store
  trans_exec flushed s = let (r, s') = call (codes "EXEC") [] s in (exec_reply flushed r, s')

  -- `Discard`.
  unfoldable pub discard : Store → Option TransError × Store
  discard s = let (r, s') = call (codes "DISCARD") [] s in (expected (codes "OK") r, s')

  -- `Watch`, which copies nothing to its arguments.
  unfoldable pub watch : List Text → Store → Option TransError × Store
  watch keys s =
      let (r, s') = call (codes "WATCH") (no_keys keys) s in (expected (codes "OK") r, s')
