-- ===== src/Redis/Wire.antt =====
-- utility/msgRedis: the requests that the bus sends and the values that `CallN` (conn.go) returns.
use pepperbus.Base.{ℕ, List, Option}
use pepperbus.Base.Int.{ℤ}
use pepperbus.Base.Text.{Text}

-- The requests that the bus sends through `CallN`.
pub data Command : Type 0 where
  lpush : Text → List Text → Command
  rpop : Text → Command
  rpoplpush : Text → Text → Command
  llen : Text → Command
  del : Text → Command
  lrange : Text → ℕ → ℕ → Command
  ltrim : Text → ℕ → ℕ → Command

-- The values of the `interface{}` that `CallN` returns: int64, []byte, nil, or an array whose
-- elements are []byte or something else.
pub data Reply : Type 0 where
  integer : ℤ → Reply
  bulk : Text → Reply
  nil : Reply
  array : List (Option Text) → Reply

-- `ErrKeyNotExist`, `ErrResponseType`, and an error of `CallN` itself.
pub data Error : Type 0 where
  key_not_exist : Error
  response_type : Error
  call_failed : Text → Error

pub data Result {ℓ} (A : Type ℓ) : Type ℓ where
  ok : A → Result A
  err : Error → Result A

-- The connection (`CallN`) and the server behind it.
pub record Server : Type 1 where
  pub Store : Type 0
  pub call_n : Command → Store → Result Reply × Store
