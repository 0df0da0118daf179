-- ===== src/Redis.antt =====
-- utility/msgRedis/commands.go: the list commands that the bus uses, as the client functions that
-- read the answer of `CallN`. The connection and the server below are the parameter `Server`.
pub mod Wire
pub mod Healthy
pub mod Laws
pub mod Memory
pub mod Resp
pub mod Pool
pub mod MultiPool
pub mod Call
pub mod Pipeline
pub mod Transactions
pub mod Commands
use pepperbus.Base.{ℕ, List, Option}
use pepperbus.Base.Int.{ℤ}
use pepperbus.Base.Text.{Text}
use Wire.{
  Command, Reply, Result, Server, integer, bulk, nil, array, key_not_exist, response_type, ok, err,
}

-- The type assertion `n.(int64)`.
abbrev pub int_of : Result Reply → Result ℤ
int_of (ok (integer n)) = ok n
int_of (ok (bulk b)) = err response_type
int_of (ok nil) = err response_type
int_of (ok (array xs)) = err response_type
int_of (err e) = err e

-- The test for nil and the type assertion `v.([]byte)`.
abbrev pub bulk_of : Result Reply → Result Text
bulk_of (ok (integer n)) = err response_type
bulk_of (ok (bulk b)) = ok b
bulk_of (ok nil) = err key_not_exist
bulk_of (ok (array xs)) = err response_type
bulk_of (err e) = err e

-- The type assertion `v.([]byte)` alone.
abbrev pub bytes_of : Result Reply → Result Text
bytes_of (ok (integer n)) = err response_type
bytes_of (ok (bulk b)) = ok b
bytes_of (ok nil) = err response_type
bytes_of (ok (array xs)) = err response_type
bytes_of (err e) = err e

-- The type assertion `v.([]interface{})`.
abbrev pub array_of : Result Reply → Result (List (Option Text))
array_of (ok (integer n)) = err response_type
array_of (ok (bulk b)) = err response_type
array_of (ok nil) = err response_type
array_of (ok (array xs)) = ok xs
array_of (err e) = err e

module _ (server : Server) where
  open server use {Store, call_n}

  unfoldable pub lpush : Text → List Text → Store → Result ℤ × Store
  lpush key values s = let (n, s') = call_n (Command.lpush key values) s in (int_of n, s')

  unfoldable pub rpop : Text → Store → Result Text × Store
  rpop key s = let (v, s') = call_n (Command.rpop key) s in (bulk_of v, s')

  unfoldable pub rpoplpush : Text → Text → Store → Result Text × Store
  rpoplpush source dest s =
      let (v, s') = call_n (Command.rpoplpush source dest) s in (bulk_of v, s')

  unfoldable pub llen : Text → Store → Result ℤ × Store
  llen key s = let (n, s') = call_n (Command.llen key) s in (int_of n, s')

  unfoldable pub del : Text → Store → Result ℤ × Store
  del key s = let (n, s') = call_n (Command.del key) s in (int_of n, s')

  unfoldable pub lrange : Text → ℕ → ℕ → Store → Result (List (Option Text)) × Store
  lrange key start end s = let (v, s') = call_n (Command.lrange key start end) s in (array_of v, s')

  unfoldable pub ltrim : Text → ℕ → ℕ → Store → Result Text × Store
  ltrim key start end s = let (v, s') = call_n (Command.ltrim key start end) s in (bytes_of v, s')
