-- ===== src/Redis/Pool/Exceeded.antt =====
-- pool.go: callers that look at the limit at the same time all dial.
use pepperbus.Base.{
  ℕ, zero, suc, ◌+◌, ◌≤◌, ◌≡◌, refl, false, ◌∷◌, length, arith, true, [], ◌++◌, ap, ◌∙◌, ltb,
}
use pepperbus.Base.Int.{ℤ, pos, pos_part, int64, ◌+ℤ◌, ◌-ℤ◌, ltb_ℤ}
use pepperbus.Base.Text.{Text}
use pepperbus.Redis.Pool.{
  PoolConn, Pool, new_pool, is_full, inc, dec, count_created, count_pushed, count_used, used, idle,
  Users, Run, no_users, checks, dialed, clears, sends, counts, takes, uses, done, then_step,
}

abbrev conn : PoolConn
conn = record { id = 0; last_active_time = pos 0; is_idle = false; has_err = false }

-- k callers have looked, and j of them have a connection.
abbrev looking : Pool → ℕ → Users
looking p k = record (no_users p) { dialing = k }

look :
    (dials k : ℕ) (p : Pool)
    → is_full p ≡ false
    → k ≤ dials
    → Run dials k (no_users p) (looking p k)
look dials zero p free h = done (no_users p)
look dials (suc k) p free h =
    then_step (look dials k p free (omega (arith, h)))
      (checks (looking p k) free (omega (arith, h)))

-- The channel is empty, no connection counts as idle, and one may.
record Ready (max max_idle : ℕ) (w : Users) : Type 0 where
  limit : w.pool.max_conn_num ≡ pos max
  idle_limit : w.pool.max_idle_num ≡ pos max_idle
  none_idle : w.pool.idle_num ≡ pos 0
  empty : w.pool.client_pool ≡ []

-- One connection from its dialing over the channel to its caller.
dial_one :
    (dials max max_idle n k : ℕ) (u w : Users)
    → 1 ≤ max
    → Ready max max_idle w
    → Run dials n u w
    → w.dialing ≡ suc k
    → (m : ℕ) × (v : Users) × Run dials m u v
      × Ready max max_idle v
      × (v.dialing ≡ k)
      × (length v.lent ≡ suc (length w.lent))
unfolding count_created count_pushed count_used
dial_one dials max max_idle n k u w h ready run e =
    let c = idle conn in
    let w1 : Users = record w {
      pool = count_created w.pool;
      dialing = k;
      pushing = c ∷ w.pushing;
    } in
    let w2 : Users = record w1 { pushing = w.pushing; cleared = c ∷ w.cleared } in
    let w3 : Users = record w2 {
      pool = record w2.pool { client_pool = w2.pool.client_pool ++ c ∷ [] };
      cleared = w.cleared;
      sent = suc w.sent;
    } in
    let w4 : Users = record w3 { pool = count_pushed w3.pool; sent = w.sent } in
    let w5 : Users = record w4 {
      pool = record w4.pool { client_pool = [] };
      taken = c ∷ w.taken;
    } in
    let w6 : Users = record w5 {
      pool = count_used w5.pool;
      taken = w.taken;
      lent = used c ∷ w.lent;
    } in
    let few_idle : ltb_ℤ w.pool.max_idle_num w.pool.idle_num ≡ false =
      rw (ready.idle_limit, ready.none_idle) (ground arith) in
    let room : ltb (length w.pool.client_pool) (pos_part w.pool.max_conn_num) ≡ true =
      rw (ready.empty, ready.limit) (ground (arith, h)) in
    let waiting : w4.pool.client_pool ≡ c ∷ [] = ap (λ l. l ++ c ∷ []) ready.empty in
    let back : w6.pool.idle_num ≡ pos 0 =
      ap (λ z. dec (inc z)) ready.none_idle ∙ (unfold int64 ◌+ℤ◌ ◌-ℤ◌ in refl) in
    (
      _,
      w6,
      then_step
          (then_step
            (then_step
              (then_step
                (then_step (then_step run (dialed w k conn e refl))
                  (clears w1 [] c w.pushing refl few_idle))
                (sends w2 [] c w.cleared refl room))
              (counts w3 w.sent refl))
            (takes w4 c [] waiting))
          (uses w5 (pos 0) true [] c w.taken refl (ground arith)),
      record { limit = ready.limit; idle_limit = ready.idle_limit; none_idle = back; empty = refl },
      refl,
      refl,
    )

dial :
    (dials max max_idle n k : ℕ) (u w : Users)
    → 1 ≤ max
    → Ready max max_idle w
    → Run dials n u w
    → w.dialing ≡ k
    → (m : ℕ) × (v : Users) × Run dials m u v × (length v.lent ≡ k + length w.lent)
dial dials max max_idle n zero u w h ready run e = (n, w, run, omega arith)
dial dials max max_idle n (suc k) u w h ready run e =
    let (m, v, run', ready', left, len) = dial_one dials max max_idle n k u w h ready run e in
    let (m', v', more, len') = dial dials max max_idle m k u v h ready' run' left in
    (m', v', more, omega (arith, len, len'))

-- For any number of callers that dial at a time there is a run of a new pool, with a limit of one
-- connection or more and a limit of idle ones that is not negative, in which they all have a
-- connection in the end: the limit does not hold.
pub limit_exceeded :
    (address password : Text) (max callers max_idle : ℕ) (seconds : ℤ)
    → 1 ≤ max
    → (m : ℕ) × (w : Users) × Run callers m
        (no_users (new_pool address password (pos max) (pos max_idle) seconds))
        w
      × (length w.lent ≡ callers)
unfolding new_pool
limit_exceeded address password max callers max_idle seconds h =
    let p = new_pool address password (pos max) (pos max_idle) seconds in
    let free : is_full p ≡ false = unfold is_full int64 ◌+ℤ◌ in ground (arith, h) in
    let ready : Ready max max_idle (looking p callers) = record {
      limit = refl;
      idle_limit = refl;
      none_idle = refl;
      empty = refl;
    } in
    let (m, w, run, len) =
      dial callers max max_idle callers callers (no_users p) (looking p callers) h ready
        (look callers callers p free (omega arith)) refl in
    (m, w, run, omega (arith, len))
