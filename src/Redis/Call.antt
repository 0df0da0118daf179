-- ===== src/Redis/Call.antt =====
-- utility/msgRedis/conn.go and once.go: one command on a connection (`Call`), and `CallN`, which takes
-- another connection from the pool when the network failed.
pub mod Balance
use pepperbus.Base.{
  ℕ, zero, suc, List, [], ◌∷◌, ◌++◌, Bool, true, false, ◌&&◌, not, Option, none, some,
  if◌then◌else◌,
}
use pepperbus.Base.Text.{Text}
use pepperbus.Redis.Resp.{Value}

-- How the exchange of a request and a response ends: a value, an error with `CommonErrPrefix`, or an
-- error of the network, of a deadline or of the protocol.
pub data Exchange : Type 0 where
  replied : Value → Exchange
  refused broken : Text → Exchange

pub data Outcome : Type 0 where
  answer : Value → Outcome
  error : Text → Outcome

-- The fields of `Conn` that the calls read: its error, whether it goes back to the pool by itself,
-- and whether it has a pool.
pub record Client : Type 0 where
  pub err : Option Text
  pub is_once : Bool
  pub has_pool : Bool

unfoldable pub outcome : Exchange → Outcome
outcome (replied v) = answer v
outcome (refused e) = error e
outcome (broken e) = error e

abbrev marked : Exchange → Option Text
marked (replied v) = none
marked (refused e) = none
marked (broken e) = some e

-- What happens to connections, in order.
pub data Event : Type 0 where
  sent pushed popped : Event

abbrev push_back : Bool → List Event
push_back true = pushed ∷ []
push_back false = []

abbrev call_on : Option Text → Exchange → Client → Outcome × Client × List Event
call_on (some e) x c = (error e, c, [])
call_on none x c = (
  outcome x,
  record c { err = marked x; is_once = false },
  sent ∷ push_back (c.is_once && c.has_pool),
)

-- `Call`.
unfoldable pub call : Exchange → Client → Outcome × Client × List Event
unfolding outcome
call x c = call_on c.err x c

-- Whether `CallN` goes on after a call: the error mark of the connection, its pool, and a try left.
abbrev goes_on : Option Text → Bool → ℕ → Bool
goes_on none has_pool left = false
goes_on (some e) has_pool zero = false
goes_on (some e) has_pool (suc left) = has_pool

-- The loop of `CallN` with `left` tries after the next one. `exchange i` and `pop i` are what the
-- network and `Pop` give to try i.
unfoldable pub tries :
    (ℕ → Exchange) → (ℕ → Option Client) → Bool → ℕ → ℕ → Client → Outcome × List Event
unfolding call
tries exchange pop once zero i c = let (r, c', events) = call (exchange i) c in (r, events)
tries exchange pop once (suc left) i c =
    let (r, c', events) = call (exchange i) c in
    if goes_on c'.err c'.has_pool (suc left)
    then (let events' = events ++ push_back (not once) in
        elim (pop i) [
          | none ↦ (r, events')
          | some d ↦
              let (r', more) =
                tries exchange pop once left (suc i) (record d { err = none; is_once = once }) in
              (r', events' ++ popped ∷ more)
        ])
    else (r, events)

abbrev call_n_on :
    Option Text → (ℕ → Exchange) → (ℕ → Option Client) → ℕ → Client → Outcome × List Event
call_n_on (some e) exchange pop retry c = (error e, [])
call_n_on none exchange pop retry c = tries exchange pop c.is_once retry 0 c

-- `CallN` with one try and `retries` more.
unfoldable pub call_n : (ℕ → Exchange) → (ℕ → Option Client) → ℕ → Client → Outcome × List Event
unfolding tries
call_n exchange pop retries c = call_n_on c.err exchange pop retries c

-- `MultiPool.Call`: a connection that goes back by itself, or one that is marked with an error.
unfoldable pub once_conn : Option Client → Client
once_conn none = record { err = some []; is_once = false; has_pool = false }
once_conn (some c) = record c { is_once = true }
