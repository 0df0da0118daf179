-- ===== src/Redis/Pipeline.antt =====
-- utility/msgRedis/conn.go, `PipeSend` and `PipeExec`: commands that are written one after the other,
-- and their replies, which are read together.
pub mod Replies
use pepperbus.Base.{ℕ, zero, suc, ◌+◌, List, [], ◌∷◌, ◌++◌, Option, none, some, if◌then◌else◌, ◌==◌}
use pepperbus.Base.Text.{Text}
use pepperbus.Redis.Resp.{
  Arg, write_request, Value, v_nil, ReadError, unexpected_end, bad_terminator, panics, out_of_fuel,
  common, Got, got, failed, read_response,
}

-- The fields of `Conn` that a pipeline uses: the count of its commands, and what was written.
pub record Pipe : Type 0 where
  pub pipe_count : ℕ
  pub written : Text

-- `PipeSend`, where the connection takes what is written.
unfoldable pub pipe_send : Text → List Arg → Pipe → Pipe
unfolding write_request
pipe_send command args p = record {
  pipe_count = p.pipe_count + 1;
  written = p.written ++ write_request command args;
}

-- What a reply leaves in its place: a value, or, where it could not be read, whatever stood there
-- when reading failed (nil, a zero, bytes of it).
pub data Slot : Type 0 where
  filled : Value → Slot
  leftover : Slot

-- The slots, the error, and the bytes that are still unread; `none` is a panic (or no fuel).
abbrev pub Read : Type 0
Read = Option (List Slot × Option ReadError × Text)

abbrev add_reply : Slot → Read → Read
add_reply v none = none
add_reply v (some (vs, e, rest)) = some (v ∷ vs, e, rest)

-- The slot of a reply that ends with an error: nil, if it is an error reply ('-').
abbrev failed_slot : Text → Slot
failed_slot [] = leftover
failed_slot (c ∷ s) = if c == b'-' then filled v_nil else leftover

-- `ret[i], e = c.readResponse()` on the unread bytes: an error replaces the error before.
abbrev store_reply : Text → Got Value → (Option ReadError → Text → Read) → Read
store_reply s (got v rest) next = add_reply (filled v) (next none rest)
store_reply s (failed unexpected_end rest) next =
    add_reply (failed_slot s) (next (some unexpected_end) rest)
store_reply s (failed bad_terminator rest) next =
    add_reply (failed_slot s) (next (some bad_terminator) rest)
store_reply s (failed (common e) rest) next =
    add_reply (failed_slot s) (next (some (common e)) rest)
store_reply s (failed panics rest) next = none
store_reply s (failed out_of_fuel rest) next = none

-- The loop of `PipeExec`; the fuel is that of `readResponse`.
unfoldable pub read_replies : ℕ → ℕ → Option ReadError → Text → Read
unfolding read_response
read_replies fuel zero e s = some ([], e, s)
read_replies fuel (suc n) e s = store_reply s (read_response fuel s) (read_replies fuel n)

pub data Piped : Type 0 where
  replies : Read → Piped
  not_flushed : Text → Piped

-- `PipeExec`: the commands of a flush that failed are still counted.
unfoldable pub pipe_exec : ℕ → Option Text → Text → Pipe → Piped × Pipe
unfolding read_replies
pipe_exec fuel (some e) s p = (not_flushed e, p)
pipe_exec fuel none s p =
    (replies (read_replies fuel p.pipe_count none s), record p { pipe_count = 0 })
