-- ===== src/CgiPool/Bounds.antt =====
-- cgi_conn_pool.go: the connections are counted right, and never more than the limit.
use pepperbus.Base.{
  ℕ, suc, ◌+◌, ◌≤◌, ◌<◌, ◌^◌, ◌≡◌, refl, sym, ap, ◌∙◌, List, [], ◌∷◌, ◌++◌, Bool, true, false,
  length, length-append, length-middle, arith, ◌⊎◌, inl, inr, Bool-cases, lt→ltb,
}
use pepperbus.Base.Int.{ℤ, pos, ltb_ℤ, int64, ◌+ℤ◌, ◌-ℤ◌}
use pepperbus.CgiPool.{
  CgiConn, CgiConnPool, Callers, Step, Run, begun, taken, begin_conn, take_conn, close_conn, put,
  close, send, has_room, is_spent, new_callers, begins, rejected, dial_failed, dialed, stored,
  takes, sends, closes, done, then_step,
}

-- The open connections, and those about to be opened.
abbrev pub open_conns : Callers → ℕ
open_conns w = length w.pool.store + length w.lent + w.dialing

pub record Inv (max steps : ℕ) (w : Callers) : Type 0 where
  pub limit : w.pool.max_conn_num ≡ pos max
  pub counted : w.pool.conn_num ≡ pos (open_conns w + w.rejecting)
  pub bounded : open_conns w ≤ max
  pub few : open_conns w + w.rejecting ≤ steps

int64_up : (n : ℕ) → n < 2 ^ 62 → int64 (pos n +ℤ pos 1) ≡ pos (suc n)
unfolding int64 ◌+ℤ◌
int64_up n h = ground arith

int64_down : (n : ℕ) → n < 2 ^ 62 → int64 (pos (suc n) -ℤ pos 1) ≡ pos n
unfolding int64 ◌-ℤ◌
int64_down n h = ground arith

begun-Inv :
    (max steps : ℕ) (num : ℤ) (full : Bool) (w : Callers)
    → Inv max steps w
    → num ≡ pos (suc (open_conns w + w.rejecting))
    → (full ≡ false → suc (open_conns w + w.rejecting) ≤ max)
    → Inv max (suc steps) (begun num full w)
begun-Inv max steps num true w inv e room = record {
  limit = inv.limit;
  counted = e ∙ ap pos (omega arith);
  bounded = inv.bounded;
  few = omega (arith, inv.few);
}
begun-Inv max steps num false w inv e room = record {
  limit = inv.limit;
  counted = e ∙ ap pos (omega arith);
  bounded = omega (arith, room refl);
  few = omega (arith, inv.few);
}

room_left : (max n : ℕ) → ltb_ℤ (pos max) (pos n) ≡ false → n ≤ max
room_left max n h = ground (arith, h)

begin-Inv :
    (max steps : ℕ) (w : Callers)
    → steps < 2 ^ 62
    → Inv max steps w
    → Inv max (suc steps) (begin_conn w)
unfolding begin_conn
begin-Inv max steps w h inv =
    let total = open_conns w + w.rejecting in
    let e : int64 (w.pool.conn_num +ℤ pos 1) ≡ pos (suc total) =
      ap (λ z. int64 (z +ℤ pos 1)) inv.counted ∙ int64_up total (omega (arith, h, inv.few)) in
    begun-Inv max steps (int64 (w.pool.conn_num +ℤ pos 1)) _ w inv e
      (λ free. room_left max (suc total) (rw (inv.limit, e) at free))

-- One connection less, open or about to be opened.
close-Inv :
    (max steps : ℕ) (v w : Callers)
    → steps < 2 ^ 62
    → Inv max steps v
    → w.pool.max_conn_num ≡ v.pool.max_conn_num
    → w.pool.conn_num ≡ int64 (v.pool.conn_num -ℤ pos 1)
    → suc (open_conns w + w.rejecting) ≡ open_conns v + v.rejecting
    → open_conns w ≤ open_conns v
    → Inv max (suc steps) w
close-Inv max steps v w h inv same less total fewer = record {
  limit = same ∙ inv.limit;
  counted =
      less
      ∙ (ap (λ z. int64 (z -ℤ pos 1)) (inv.counted ∙ ap pos (sym total))
          ∙ int64_down (open_conns w + w.rejecting) (omega (arith, h, inv.few, total)));
  bounded = omega (arith, inv.bounded, fewer);
  few = omega (arith, inv.few, total);
}

-- As many connections as before.
same-Inv :
    (max steps : ℕ) (v w : Callers)
    → Inv max steps v
    → w.pool.max_conn_num ≡ v.pool.max_conn_num
    → w.pool.conn_num ≡ v.pool.conn_num
    → open_conns w ≡ open_conns v
    → w.rejecting ≡ v.rejecting
    → Inv max (suc steps) w
same-Inv max steps v w inv same num total others = record {
  limit = same ∙ inv.limit;
  counted = num ∙ (inv.counted ∙ ap pos (omega (arith, total, others)));
  bounded = omega (arith, inv.bounded, total);
  few = omega (arith, inv.few, total, others);
}

close_cases :
    (now : ℤ) (c : CgiConn) (p : CgiConnPool)
    → (close now c p ≡ close_conn p) ⊎ (close now c p ≡ put c p)
unfolding close
close_cases now c p = elim (Bool-cases c.need_close) [
  | inl bad ↦ inl (rw bad refl)
  | inr good ↦ elim (Bool-cases (is_spent now p c)) [
    | inl spent ↦ inl (rw (good, spent) refl)
    | inr fresh ↦ inr (rw (good, fresh) refl)
  ]
]

-- While a caller holds a connection, the channel has room for it.
room-held :
    (max steps k : ℕ) (w : Callers)
    → Inv max steps w
    → length w.lent ≡ suc k
    → has_room w.pool ≡ true
room-held max steps k w inv held =
    rw inv.limit (lt→ltb (length w.pool.store) max (omega (arith, inv.bounded, held)))

put_stores :
    (c : CgiConn) (p : CgiConnPool)
    → has_room p ≡ true
    → put c p ≡ record p { store = p.store ++ c ∷ [] }
unfolding put
put_stores c p room = rw room refl

module _ (max steps : ℕ) (w : Callers) (h : steps < 2 ^ 62) (inv : Inv max steps w) where
  -- A connection that was lent is closed.
  closed-Inv :
      (xs : List CgiConn) (c : CgiConn) (ys : List CgiConn)
      → w.lent ≡ xs ++ c ∷ ys
      → Inv max (suc steps) (record w { pool = close_conn w.pool; lent = xs ++ ys })
  unfolding close_conn
  closed-Inv xs c ys e =
      let fewer = ap length e ∙ length-middle c xs ys in
      close-Inv max steps w _ h inv refl refl (omega (arith, fewer)) (omega (arith, fewer))

  -- A connection that was lent goes back to the channel.
  stored-Inv :
      (xs : List CgiConn) (c : CgiConn) (ys : List CgiConn)
      → w.lent ≡ xs ++ c ∷ ys
      → Inv max
          (suc steps)
          (record w { pool = record w.pool { store = w.pool.store ++ c ∷ [] }; lent = xs ++ ys })
  stored-Inv xs c ys e =
      let fewer = ap length e ∙ length-middle c xs ys in
      same-Inv max steps w _ inv refl refl
        (omega (arith, fewer, length-append w.pool.store (c ∷ []))) refl

  put-Inv :
      (xs : List CgiConn) (c : CgiConn) (ys : List CgiConn)
      → w.lent ≡ xs ++ c ∷ ys
      → Inv max (suc steps) (record w { pool = put c w.pool; lent = xs ++ ys })
  put-Inv xs c ys e =
      let room =
        room-held max steps (length (xs ++ ys)) w inv (ap length e ∙ length-middle c xs ys) in
      rw (put_stores c w.pool room) (stored-Inv xs c ys e)

  closes-Inv :
      (now : ℤ) (xs : List CgiConn) (c : CgiConn) (ys : List CgiConn)
      → w.lent ≡ xs ++ c ∷ ys
      → Inv max (suc steps) (record w { pool = close now c w.pool; lent = xs ++ ys })
  closes-Inv now xs c ys e = elim (close_cases now c w.pool) [
    | inl closing ↦ rw closing (closed-Inv xs c ys e)
    | inr back ↦ rw back (put-Inv xs c ys e)
  ]

  taken-Inv :
      (spent : Bool) (c : CgiConn) (rest : List CgiConn)
      → w.pool.store ≡ c ∷ rest
      → Inv max (suc steps) (taken spent c rest w)
  unfolding close_conn
  taken-Inv true c rest e =
      let fewer = ap length e in
      close-Inv max steps w _ h inv refl refl (omega (arith, fewer)) (omega (arith, fewer))
  taken-Inv false c rest e = same-Inv max steps w _ inv refl refl (omega (arith, ap length e)) refl

Step-Inv :
    (max steps : ℕ) (v w : Callers)
    → steps < 2 ^ 62
    → Inv max steps v
    → Step v w
    → Inv max (suc steps) w
unfolding take_conn close_conn
Step-Inv max steps v w h inv (begins _) = begin-Inv max steps v h inv
Step-Inv max steps v w h inv (rejected _ n e) =
    close-Inv max steps v _ h inv refl refl (omega (arith, e)) (omega (arith, e))
Step-Inv max steps v w h inv (dial_failed _ n e) =
    close-Inv max steps v _ h inv refl refl (omega (arith, e)) (omega (arith, e))
Step-Inv max steps v w h inv (dialed _ n c e) =
    same-Inv max steps v _ inv refl refl (omega (arith, e)) refl
Step-Inv max steps v w h inv (stored _ xs c ys e room) = put-Inv max steps v h inv xs c ys e
Step-Inv max steps v w h inv (takes _ now c rest e) = taken-Inv max steps v h inv _ c rest e
Step-Inv max steps v w h inv (sends _ had_error xs c ys e) =
    same-Inv max steps v _ inv refl refl
      (omega (arith, ap length e, length-middle c xs ys, length-middle (send had_error c) xs ys))
      refl
Step-Inv max steps v w h inv (closes _ now xs c ys e) = closes-Inv max steps v h inv now xs c ys e

Run-Inv : (max n : ℕ) (u w : Callers) → n < 2 ^ 62 → Inv max 0 u → Run n u w → Inv max n w
Run-Inv max _ _ _ h inv (done _) = inv
Run-Inv max _ u w h inv (then_step {n = n} {v = v} run step) =
    Step-Inv max n v w (omega (arith, h)) (Run-Inv max n u v (omega (arith, h)) inv run) step

-- In every run of fewer than 2 ^ 62 steps of any callers, the counter of the pool is the number of
-- the connections in the channel, held by a caller, being opened and being refused; those that are
-- open or being opened are never more than the limit; and while a caller holds a connection, the
-- channel has room, so that `put` keeps what it is given and never closes it.
pub conns_bounded :
    (max n : ℕ) (counts life : ℤ) (w : Callers)
    → n < 2 ^ 62
    → Run n (new_callers (pos max) counts life) w
    → (w.pool.conn_num ≡ pos (open_conns w + w.rejecting))
      × (open_conns w ≤ max)
      × ((c : CgiConn) (k : ℕ)
          → length w.lent ≡ suc k
          → put c w.pool ≡ record w.pool { store = w.pool.store ++ c ∷ [] })
conns_bounded max n counts life w h run =
    let start : Inv max 0 (new_callers (pos max) counts life) = record {
      limit = refl;
      counted = refl;
      bounded = omega arith;
      few = omega arith;
    } in
    let inv = Run-Inv max n _ w h start run in
    (inv.counted, inv.bounded, λ c k held. put_stores c w.pool (room-held max n k w inv held))
