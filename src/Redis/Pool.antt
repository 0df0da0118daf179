-- ===== src/Redis/Pool.antt =====
-- utility/msgRedis/pool.go: the pool of connections to one Redis server. `Pop` and `Push` are taken
-- apart into the steps between which other callers may run: what is done under one lock, or one
-- operation on the channel, is one step.
pub mod Bounds
pub mod Exceeded
use pepperbus.Base.{
  ℕ, suc, ◌<◌, ◌≡◌, List, [], ◌∷◌, ◌++◌, Bool, true, false, ◌||◌, not, length, ltb, if◌then◌else◌,
  ◌⊎◌,
}
use pepperbus.Base.Int.{ℤ, pos, pos_part, ◌+ℤ◌, ◌-ℤ◌, int64, ltb_ℤ, leb_ℤ}
use pepperbus.Base.Text.{Text}

-- The fields of a connection that the pool reads; `has_err` is `err != nil`.
pub record PoolConn : Type 0 where
  pub id : ℕ
  pub last_active_time : ℤ
  pub is_idle : Bool
  pub has_err : Bool

pub record Pool : Type 0 where
  pub address : Text
  pub password : Text
  pub idle_num : ℤ
  pub active_num : ℤ
  pub max_conn_num : ℤ
  pub max_idle_num : ℤ
  pub create_num : ℤ
  pub create_failed_num : ℤ
  pub wait_timeout_num : ℤ
  pub max_idle_seconds : ℤ
  pub client_pool : List PoolConn

-- `NewPool`; the channel has room for `max_conn_num` connections.
unfoldable pub new_pool : Text → Text → ℤ → ℤ → ℤ → Pool
new_pool address password max_conn_num max_idle_num max_idle_seconds = record {
  address = address;
  password = password;
  idle_num = pos 0;
  active_num = pos 0;
  max_conn_num = max_conn_num;
  max_idle_num = max_idle_num;
  create_num = pos 0;
  create_failed_num = pos 0;
  wait_timeout_num = pos 0;
  max_idle_seconds = max_idle_seconds;
  client_pool = [];
}

abbrev pub inc : ℤ → ℤ
inc z = int64 (z +ℤ pos 1)

abbrev pub dec : ℤ → ℤ
dec z = int64 (z -ℤ pos 1)

-- `p.IdleNum+p.ActiveNum >= p.MaxConnNum`.
unfoldable pub is_full : Pool → Bool
is_full p = leb_ℤ p.max_conn_num (int64 (p.idle_num +ℤ p.active_num))

-- Idle for too long, so that it is pinged before it is used.
unfoldable pub is_old : ℤ → Pool → PoolConn → Bool
is_old now p c = ltb_ℤ p.max_idle_seconds (int64 (now -ℤ c.last_active_time))

-- A connection from the channel that is used, and one that is closed.
unfoldable pub count_used : Pool → Pool
count_used p = record p { idle_num = dec p.idle_num; active_num = inc p.active_num }

unfoldable pub count_dead : Pool → Pool
count_dead p = record p { idle_num = dec p.idle_num }

-- A connection that was dialed, and one that could not be.
unfoldable pub count_created : Pool → Pool
count_created p = record p { active_num = inc p.active_num; create_num = inc p.create_num }

unfoldable pub count_failed : Pool → Pool
count_failed p = record p { create_failed_num = inc p.create_failed_num }

unfoldable pub count_timeout : Pool → Pool
count_timeout p = record p { wait_timeout_num = inc p.wait_timeout_num }

-- A connection that went back to the channel, and one that is closed instead.
unfoldable pub count_pushed : Pool → Pool
count_pushed p = record p { idle_num = inc p.idle_num; active_num = dec p.active_num }

unfoldable pub count_closed : Pool → Pool
count_closed p = record p { active_num = dec p.active_num }

abbrev pub channel_has_room : Pool → Bool
channel_has_room p = ltb (length p.client_pool) (pos_part p.max_conn_num)

-- The pool and its callers: the connections taken from the channel and not yet counted, those in
-- use, those that `Push` looks at, those that it is about to send and those that it is about to
-- close, how many callers dial, and how many connections were sent and not yet counted.
pub record Users : Type 0 where
  pub pool : Pool
  pub taken : List PoolConn
  pub lent : List PoolConn
  pub pushing : List PoolConn
  pub cleared : List PoolConn
  pub closing : List PoolConn
  pub dialing : ℕ
  pub sent : ℕ

abbrev pub used : PoolConn → PoolConn
used c = record c { is_idle = false }

abbrev pub idle : PoolConn → PoolConn
idle c = record c { is_idle = true }

-- `err` of a connection whose call failed.
abbrev pub broken : PoolConn → PoolConn
broken c = record c { has_err = true }

-- The steps of any number of callers, of which at most `dials` dial at a time.
pub data Step (dials : ℕ) : Users → Users → Type 0 where
  takes :
      (w : Users) (c : PoolConn) (rest : List PoolConn)
      → w.pool.client_pool ≡ c ∷ rest
      → Step dials w (record w { pool = record w.pool { client_pool = rest }; taken = c ∷ w.taken })
  -- A connection that is not old, or that answers the ping.
  uses :
      (w : Users) (now : ℤ) (alive : Bool) (xs : List PoolConn) (c : PoolConn) (ys : List PoolConn)
      → w.taken ≡ xs ++ c ∷ ys
      → (not (is_old now w.pool c) || alive) ≡ true
      → Step dials w
          (record w { pool = count_used w.pool; taken = xs ++ ys; lent = used c ∷ w.lent })
  -- An old connection that does not.
  drops :
      (w : Users) (now : ℤ) (xs : List PoolConn) (c : PoolConn) (ys : List PoolConn)
      → w.taken ≡ xs ++ c ∷ ys
      → is_old now w.pool c ≡ true
      → Step dials w (record w { pool = count_dead w.pool; taken = xs ++ ys })
  -- The channel is empty, and the limit is not reached.
  checks :
      (w : Users)
      → is_full w.pool ≡ false
      → w.dialing < dials
      → Step dials w (record w { dialing = suc w.dialing })
  dial_failed :
      (w : Users) (n : ℕ)
      → w.dialing ≡ suc n
      → Step dials w (record w { pool = count_failed w.pool; dialing = n })
  -- `Pop` pushes the connection that it dialed, and goes on to the channel.
  dialed :
      (w : Users) (n : ℕ) (c : PoolConn)
      → w.dialing ≡ suc n
      → c.has_err ≡ false
      → Step dials w
          (record w { pool = count_created w.pool; dialing = n; pushing = idle c ∷ w.pushing })
  times_out :
      (w : Users) → is_full w.pool ≡ true → Step dials w (record w { pool = count_timeout w.pool })
  -- A call over a connection in use fails.
  breaks :
      (w : Users) (xs : List PoolConn) (c : PoolConn) (ys : List PoolConn)
      → w.lent ≡ xs ++ c ∷ ys
      → Step dials w (record w { lent = xs ++ broken c ∷ ys })
  -- `Push` of a connection that is not idle.
  pushes :
      (w : Users) (xs : List PoolConn) (c : PoolConn) (ys : List PoolConn)
      → w.lent ≡ xs ++ c ∷ ys
      → Step dials w (record w { lent = xs ++ ys; pushing = idle c ∷ w.pushing })
  -- A connection with an error, and one that finds too many idle ones.
  rejects :
      (w : Users) (xs : List PoolConn) (c : PoolConn) (ys : List PoolConn)
      → w.pushing ≡ xs ++ c ∷ ys
      → (c.has_err || ltb_ℤ w.pool.max_idle_num w.pool.idle_num) ≡ true
      → Step dials w (record w { pushing = xs ++ ys; closing = c ∷ w.closing })
  discards :
      (w : Users) (xs : List PoolConn) (c : PoolConn) (ys : List PoolConn)
      → w.closing ≡ xs ++ c ∷ ys
      → Step dials w (record w { pool = count_closed w.pool; closing = xs ++ ys })
  clears :
      (w : Users) (xs : List PoolConn) (c : PoolConn) (ys : List PoolConn)
      → w.pushing ≡ xs ++ c ∷ ys
      → (c.has_err || ltb_ℤ w.pool.max_idle_num w.pool.idle_num) ≡ false
      → Step dials w (record w { pushing = xs ++ ys; cleared = c ∷ w.cleared })
  sends :
      (w : Users) (xs : List PoolConn) (c : PoolConn) (ys : List PoolConn)
      → w.cleared ≡ xs ++ c ∷ ys
      → channel_has_room w.pool ≡ true
      → Step dials w (record w {
        pool = record w.pool { client_pool = w.pool.client_pool ++ c ∷ [] };
        cleared = xs ++ ys;
        sent = suc w.sent;
      })
  finds_full :
      (w : Users) (xs : List PoolConn) (c : PoolConn) (ys : List PoolConn)
      → w.cleared ≡ xs ++ c ∷ ys
      → channel_has_room w.pool ≡ false
      → Step dials w (record w { cleared = xs ++ ys; closing = c ∷ w.closing })
  counts :
      (w : Users) (n : ℕ)
      → w.sent ≡ suc n
      → Step dials w (record w { pool = count_pushed w.pool; sent = n })

abbrev pub no_users : Pool → Users
no_users p = record {
  pool = p;
  taken = [];
  lent = [];
  pushing = [];
  cleared = [];
  closing = [];
  dialing = 0;
  sent = 0;
}

pub data Run (dials : ℕ) : ℕ → Users → Users → Type 0 where
  done : (w : Users) → Run dials 0 w w
  then_step : {n : ℕ} {u v w : Users} → Run dials n u v → Step dials v w → Run dials (suc n) u w
