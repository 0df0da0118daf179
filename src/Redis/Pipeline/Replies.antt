-- ===== src/Redis/Pipeline/Replies.antt =====
-- conn.go, pipelines: every command gets the reply to it.
use pepperbus.Base.{
  ℕ, suc, ◌+◌, ◌<◌, ◌≡◌, refl, ap, sym, ◌∙◌, List, [], ◌∷◌, ◌++◌, append_assoc, append-nil, Option,
  none, some, length, All, arith,
}
use pepperbus.Base.Text.{Text}
use pepperbus.Redis.Resp.{Arg, write_request, Value, v_nil, ReadError, common, read_response}
use pepperbus.Redis.Resp.Encode.{NoFeed}
use pepperbus.Redis.Resp.Errors.{error_reply, read_error}
use pepperbus.Redis.Resp.RoundTrip.{encode, depth, Fits, read_response-encode}
use pepperbus.Redis.Pipeline.{
  Pipe, pipe_send, Slot, filled, Read, add_reply, store_reply, read_replies, Piped, replies,
  pipe_exec,
}

-- Commands that are sent one after the other, and the bytes of them.
unfoldable pub send_all : List (Text × List Arg) → Pipe → Pipe
send_all [] p = p
send_all ((command, args) ∷ rest) p = send_all rest (pipe_send command args p)

abbrev pub requests : List (Text × List Arg) → Text
requests [] = []
requests ((command, args) ∷ rest) = write_request command args ++ requests rest

-- What a server writes for a command.
pub data Served : Type 0 where
  served : Value → Served
  refused : Text → Served

abbrev pub bytes_of : List Served → Text
bytes_of [] = []
bytes_of (served v ∷ rs) = encode v ++ bytes_of rs
bytes_of (refused e ∷ rs) = error_reply e ++ bytes_of rs

-- The values that are returned, and the error that is.
abbrev pub values_of : List Served → List Slot
values_of [] = []
values_of (served v ∷ rs) = filled v ∷ values_of rs
values_of (refused e ∷ rs) = filled v_nil ∷ values_of rs

abbrev pub last_error : Option ReadError → List Served → Option ReadError
last_error e [] = e
last_error e (served v ∷ rs) = last_error none rs
last_error e (refused m ∷ rs) = last_error (some (common m)) rs

abbrev pub Readable : ℕ → Served → Type 0
Readable f (served v) = (depth v < suc f) × Fits v
Readable f (refused e) = NoFeed e

send_all-count :
    (cmds : List (Text × List Arg)) (p : Pipe)
    → (send_all cmds p).pipe_count ≡ p.pipe_count + length cmds
unfolding send_all pipe_send
send_all-count [] p = omega arith
send_all-count ((command, args) ∷ rest) p =
    send_all-count rest (pipe_send command args p) ∙ omega arith

send_all-written :
    (cmds : List (Text × List Arg)) (p : Pipe)
    → (send_all cmds p).written ≡ p.written ++ requests cmds
unfolding send_all pipe_send
send_all-written [] p = sym (append-nil p.written)
send_all-written ((command, args) ∷ rest) p =
    send_all-written rest (pipe_send command args p)
    ∙ append_assoc p.written (write_request command args) (requests rest)

replies_lem :
    (f : ℕ) (rs : List Served) (e : Option ReadError) (rest : Text)
    → All (Readable f) rs
    → read_replies (suc f) (length rs) e (bytes_of rs ++ rest)
      ≡ some (values_of rs, last_error e rs, rest)
unfolding read_replies
replies_lem f [] e rest h = refl
replies_lem f (served v ∷ rs) e rest ((deep, fits), h) =
    ap (λ w. store_reply w (read_response (suc f) w) (read_replies (suc f) (length rs)))
      (append_assoc (encode v) (bytes_of rs) rest)
    ∙ (ap
          (λ g.
            store_reply (encode v ++ (bytes_of rs ++ rest)) g (read_replies (suc f) (length rs)))
          (read_response-encode (suc f) v (bytes_of rs ++ rest) deep fits)
        ∙ ap (add_reply (filled v)) (replies_lem f rs none rest h))
replies_lem f (refused m ∷ rs) e rest (feedless, h) =
    ap (λ w. store_reply w (read_response (suc f) w) (read_replies (suc f) (length rs)))
      (append_assoc (error_reply m) (bytes_of rs) rest)
    ∙ (ap
          (λ g.
            store_reply (error_reply m ++ (bytes_of rs ++ rest)) g
              (read_replies (suc f) (length rs)))
          (read_error f m (bytes_of rs ++ rest) feedless)
        ∙ ap (add_reply (filled v_nil)) (replies_lem f rs (some (common m)) rest h))

abbrev executed : Pipe → Read → Piped × Pipe
executed p r = (replies r, record p { pipe_count = 0 })

-- A pipeline of commands, on a connection where none is pending: the requests are written in their
-- order, and PipeExec returns the values of the replies in that order, nil for a command that was
-- refused; what stands behind them is left unread. The error that is returned is that of the last
-- command alone. (The fuel exceeds the nesting of arrays; lengths are those that make takes, numbers
-- in the range of Go, error messages have no line feed.)
pub pipe_exec_lem :
    (f : ℕ) (cmds : List (Text × List Arg)) (rs : List Served) (written rest : Text)
    → length rs ≡ length cmds
    → All (Readable f) rs
    → let start : Pipe = record { pipe_count = 0; written = written } in
      let p = send_all cmds start in
      (p.written ≡ written ++ requests cmds)
      × (pipe_exec (suc f) none (bytes_of rs ++ rest) p
          ≡ (replies (some (values_of rs, last_error none rs, rest)), record p { pipe_count = 0 }))
unfolding pipe_exec
pipe_exec_lem f cmds rs written rest same h =
    let start : Pipe = record { pipe_count = 0; written = written } in
    let p = send_all cmds start in
    let count : p.pipe_count ≡ length rs = send_all-count cmds start ∙ omega (arith, same) in
    (
      send_all-written cmds start,
      ap (λ n. executed p (read_replies (suc f) n none (bytes_of rs ++ rest))) count
          ∙ ap (executed p) (replies_lem f rs none rest h),
    )
