-- ===== src/CgiPool.antt =====
-- cgi_conn_pool.go: the pool of connections to one CGI address, and the steps that its callers take
-- on it. `dialing` and `rejecting` count the callers between the two atomic additions of
-- `newConnReal`, and `lent` are the connections that a caller holds.
pub mod Bounds
pub mod Manager
use pepperbus.Base.{
  ℕ, zero, suc, ◌<◌, List, [], ◌∷◌, ◌++◌, Bool, true, false, ◌&&◌, ◌||◌, ◌≡◌, length, ltb,
  if◌then◌else◌,
}
use pepperbus.Base.Int.{ℤ, pos, pos_part, ◌+ℤ◌, ◌-ℤ◌, int64, ltb_ℤ, leb_ℤ}

pub record CgiConn : Type 0 where
  pub id : ℕ
  pub used_counts : ℤ
  pub created : ℤ
  pub need_close : Bool

-- Times and durations are in nanoseconds; `store` is a channel with room for `max_conn_num`.
pub record CgiConnPool : Type 0 where
  pub store : List CgiConn
  pub conn_num : ℤ
  pub max_conn_num : ℤ
  pub reuse_counts : ℤ
  pub reuse_life : ℤ

-- `Send`: the use is counted, and a connection with an error is not used again.
unfoldable pub send : Bool → CgiConn → CgiConn
send had_error c = record c {
  used_counts = int64 (c.used_counts +ℤ pos 1);
  need_close = if had_error then true else c.need_close;
}

-- Used too often, or too old.
unfoldable pub is_spent : ℤ → CgiConnPool → CgiConn → Bool
is_spent now p c = ltb_ℤ p.reuse_counts c.used_counts || ltb_ℤ p.reuse_life (now -ℤ c.created)

-- Never used for 4.5 seconds: the server may have closed it.
unfoldable pub is_stale : ℤ → CgiConn → Bool
is_stale now c =
    leb_ℤ c.used_counts (pos 0)
    && leb_ℤ (pos 0) c.used_counts
    && leb_ℤ (pos 4500000000) (now -ℤ c.created)

-- `closeConn`.
unfoldable pub close_conn : CgiConnPool → CgiConnPool
close_conn p = record p { conn_num = int64 (p.conn_num -ℤ pos 1) }

abbrev pub has_room : CgiConnPool → Bool
has_room p = ltb (length p.store) (pos_part p.max_conn_num)

-- `put`: a full channel closes the connection.
unfoldable pub put : CgiConn → CgiConnPool → CgiConnPool
unfolding close_conn
put c p = if has_room p then record p { store = p.store ++ c ∷ [] } else close_conn p

-- `Close` of a connection.
unfoldable pub close : ℤ → CgiConn → CgiConnPool → CgiConnPool
unfolding put is_spent
close now c p =
    if c.need_close then close_conn p else if is_spent now p c then close_conn p else put c p

pub record Callers : Type 0 where
  pub pool : CgiConnPool
  pub lent : List CgiConn
  pub dialing : ℕ
  pub rejecting : ℕ

abbrev pub begun : ℤ → Bool → Callers → Callers
begun num true w = record w { pool = record w.pool { conn_num = num }; rejecting = suc w.rejecting }
begun num false w = record w { pool = record w.pool { conn_num = num }; dialing = suc w.dialing }

-- The first addition of `newConnReal` and its test.
unfoldable pub begin_conn : Callers → Callers
begin_conn w =
    let num = int64 (w.pool.conn_num +ℤ pos 1) in begun num (ltb_ℤ w.pool.max_conn_num num) w

abbrev pub taken : Bool → CgiConn → List CgiConn → Callers → Callers
taken true c rest w = record w { pool = close_conn (record w.pool { store = rest }) }
taken false c rest w = record w { pool = record w.pool { store = rest }; lent = c ∷ w.lent }

-- One round of `GetConn` on a channel with a connection: closed, or lent.
unfoldable pub take_conn : ℤ → CgiConn → List CgiConn → Callers → Callers
unfolding is_stale is_spent
take_conn now c rest w = taken (is_stale now c || is_spent now w.pool c) c rest w

-- What a caller does at a time, any callers interleaved.
pub data Step : Callers → Callers → Type 0 where
  begins : (w : Callers) → Step w (begin_conn w)
  -- The error label of `newConnReal`: too many connections, or no connection to the address.
  rejected :
      (w : Callers) (n : ℕ)
      → w.rejecting ≡ suc n
      → Step w (record w { pool = close_conn w.pool; rejecting = n })
  dial_failed :
      (w : Callers) (n : ℕ)
      → w.dialing ≡ suc n
      → Step w (record w { pool = close_conn w.pool; dialing = n })
  dialed :
      (w : Callers) (n : ℕ) (c : CgiConn)
      → w.dialing ≡ suc n
      → Step w (record w { lent = c ∷ w.lent; dialing = n })
  -- `newConn` sends its connection to the channel, which blocks while that is full.
  stored :
      (w : Callers) (xs : List CgiConn) (c : CgiConn) (ys : List CgiConn)
      → w.lent ≡ xs ++ c ∷ ys
      → has_room w.pool ≡ true
      → Step w (record w { pool = put c w.pool; lent = xs ++ ys })
  takes :
      (w : Callers) (now : ℤ) (c : CgiConn) (rest : List CgiConn)
      → w.pool.store ≡ c ∷ rest
      → Step w (take_conn now c rest w)
  sends :
      (w : Callers) (had_error : Bool) (xs : List CgiConn) (c : CgiConn) (ys : List CgiConn)
      → w.lent ≡ xs ++ c ∷ ys
      → Step w (record w { lent = xs ++ send had_error c ∷ ys })
  closes :
      (w : Callers) (now : ℤ) (xs : List CgiConn) (c : CgiConn) (ys : List CgiConn)
      → w.lent ≡ xs ++ c ∷ ys
      → Step w (record w { pool = close now c w.pool; lent = xs ++ ys })

-- A pool before its first connections, which `NewCgiConnPool` makes by `newConn`.
abbrev pub new_callers : ℤ → ℤ → ℤ → Callers
new_callers max_conn_num reuse_counts reuse_life = record {
  pool = record {
    store = [];
    conn_num = pos 0;
    max_conn_num = max_conn_num;
    reuse_counts = reuse_counts;
    reuse_life = reuse_life;
  };
  lent = [];
  dialing = 0;
  rejecting = 0;
}

-- The number of steps, and where they lead.
pub data Run : ℕ → Callers → Callers → Type 0 where
  done : (w : Callers) → Run 0 w w
  then_step : {n : ℕ} {u v w : Callers} → Run n u v → Step v w → Run (suc n) u w
