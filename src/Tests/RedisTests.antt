-- ===== src/Tests/RedisTests.antt =====
-- The theorems of the Redis connections and pools at concrete inputs.
use pepperbus.Base.{
  ℕ, zero, suc, ◌+◌, ◌≤◌, ◌≡◌, refl, [], ◌∷◌, ◌++◌, ap, sym, Bool, true, false, Option, none, some,
  length, arith, ◌<◌, if◌then◌else◌,
}
use pepperbus.Base.Int.{pos, sub_ℕ, int64, ◌+ℤ◌}
use pepperbus.Base.Text.{Text, codes}
use pepperbus.Redis.Call.{Exchange, replied, broken, Client, call_n}
use pepperbus.Redis.Call.Balance.{pushes, pops, sends, call_n_balanced}
use pepperbus.Redis.MultiPool.{new_multi_pool, nth, pool_by_key}
use pepperbus.Redis.MultiPool.ByKey.{some_valid, pool_by_key_blank}
use pepperbus.Redis.Pool.{
  PoolConn, new_pool, is_full, count_created, idle, Users, Run, no_users, checks, dialed, done,
  then_step,
}
use pepperbus.Redis.Pool.Bounds.{idle_conns, active_conns, users_bounded}
use pepperbus.Redis.Pool.Exceeded.{limit_exceeded}
use pepperbus.Redis.Resp.{
  write_len, Value, v_int, v_bytes, v_nil, v_array, none_left, and_then, got, failed, common,
  read_response,
}
use pepperbus.Redis.Resp.Errors.{error_reply, array_error_leaves}
use pepperbus.Redis.Resp.RoundTrip.{encode, encode_all, count, depth, Fits, read_response-encode}
use pepperbus.Redis.Resp.Total.{Fine, read_response_total}

abbrev cut_short : Text
cut_short = codes "*2"

read_response_total_example : Fine 2 (read_response 3 cut_short)
read_response_total_example = read_response_total 3 cut_short (omega arith)

-- ["hello", nil, [7]]
abbrev nested : Value
nested = v_array (
    and_then (v_bytes (codes "hello"))
      (and_then v_nil (and_then (v_array (and_then (v_int (pos 7)) none_left)) none_left)))

read_response-encode_example :
    read_response 3 (encode nested ++ codes "+OK") ≡ got nested (codes "+OK")
read_response-encode_example =
    read_response-encode 3 nested (codes "+OK") (unfold depth in omega arith) (
      unfold Fits count in
      (omega arith, (omega arith, (tt, ((omega arith, ((omega arith, omega arith), tt)), tt)))))

-- The reply of EXEC after a command that failed: the second value is read by the next command.
array_error_leaves_example :
    read_response 2 (
      (write_len b'*' 2 ++ (encode_all none_left ++ error_reply (codes "ERR")))
      ++ encode (v_int (pos 1)))
    ≡ failed (common (codes "ERR")) (encode (v_int (pos 1)))
array_error_leaves_example =
    array_error_leaves 0 2 none_left (codes "ERR") (encode (v_int (pos 1)))
      (unfold count in omega arith) (omega arith) (unfold depth in omega arith) (unfold Fits in tt)
      (cc, (cc, (cc, tt)))

abbrev start : Users
start = no_users (new_pool (codes "h:1") [] (pos 1) (pos 1) (pos 28))

abbrev conn : PoolConn
conn = record { id = 3; last_active_time = pos 0; is_idle = true; has_err = false }

-- One caller looks at the limit and dials.
abbrev last : Users
last = record start { pool = count_created start.pool; pushing = idle conn ∷ [] }

run : Run 1 2 start last
unfolding is_full new_pool int64 ◌+ℤ◌
run =
    then_step (then_step (done start) (checks start refl (omega arith)))
      (dialed (record start { dialing = 1 }) 0 conn refl refl)

users_bounded_example :
    (last.pool.idle_num ≡ sub_ℕ (idle_conns last) last.sent)
    × (last.pool.active_num ≡ pos (active_conns last + last.sent))
    × (idle_conns last + active_conns last + last.dialing ≤ 1 + 0)
users_bounded_example = users_bounded (codes "h:1") [] 1 0 2 (pos 1) (pos 28) last (omega arith) run

limit_exceeded_example :
    (m : ℕ) × (w : Users) × Run 5 m
      (no_users (new_pool (codes "h:1") [] (pos 1) (pos 1) (pos 28)))
      w
    × (length w.lent ≡ 5)
limit_exceeded_example = limit_exceeded (codes "h:1") [] 1 5 1 (pos 28) (omega arith)

-- The first connection breaks, and the second one answers.
abbrev exchange : ℕ → Exchange
exchange zero = broken (codes "EOF")
exchange (suc i) = replied v_nil

abbrev pooled : Client
pooled = record { err = none; is_once = false; has_pool = true }

abbrev pop : ℕ → Option Client
pop i = some pooled

abbrev has_pool_of : Option Client → Bool
has_pool_of none = true
has_pool_of (some c) = c.has_pool

call_n_balanced_example :
    (let (r, events) = call_n exchange pop 1 (record pooled { is_once = true }) in
      (pushes events ≡ suc (pops events)) × (sends events ≤ 2) × (1 ≤ sends events))
call_n_balanced_example =
    call_n_balanced exchange pop 1 (record pooled { is_once = true }) refl refl refl
      (λ i d e. ap has_pool_of (sym e))

pool_by_key_blank_example :
    (let mp = new_multi_pool (codes "h:1" ∷ []) (pos 10) (pos 5) (pos 28) in
      (length mp.pools ≤ 1)
      × ((i : ℕ) → i < 1 → nth i mp.servers ≡ some [])
      × (pool_by_key (codes "k") mp ≡ (if some_valid (codes "h:1" ∷ []) then some none else none)))
pool_by_key_blank_example =
    pool_by_key_blank (codes "h:1" ∷ []) (pos 10) (pos 5) (pos 28) (codes "k")
