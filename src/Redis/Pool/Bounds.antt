-- ===== src/Redis/Pool/Bounds.antt =====
-- pool.go: the counters of the pool, and how far its limit holds.
use pepperbus.Base.{
  ℕ, suc, ◌+◌, ◌≤◌, ◌<◌, ◌^◌, ◌≡◌, refl, sym, ap, ◌∙◌, [], ◌∷◌, false, length, length-append,
  length-middle, arith,
}
use pepperbus.Base.Int.{ℤ, pos, sub_ℕ, int64, ◌+ℤ◌, ◌-ℤ◌, leb_ℤ}
use pepperbus.Base.Text.{Text}
use pepperbus.Redis.Pool.{
  new_pool, inc, dec, is_full, count_used, count_dead, count_created, count_failed, count_timeout,
  count_pushed, count_closed, Users, Step, Run, no_users, takes, uses, drops, checks, dial_failed,
  dialed, times_out, breaks, broken, pushes, rejects, discards, clears, sends, finds_full, counts,
  done, then_step,
}

-- The open connections that the counters know.
abbrev pub idle_conns : Users → ℕ
idle_conns w = length w.pool.client_pool + length w.taken

abbrev pub active_conns : Users → ℕ
active_conns w = length w.lent + length w.pushing + length w.cleared + length w.closing

pub record Inv (max extra steps : ℕ) (w : Users) : Type 0 where
  pub limit : w.pool.max_conn_num ≡ pos max
  pub idle_counted : w.pool.idle_num ≡ sub_ℕ (idle_conns w) w.sent
  pub active_counted : w.pool.active_num ≡ pos (active_conns w + w.sent)
  pub bounded : idle_conns w + active_conns w + w.dialing ≤ max + extra
  pub few : idle_conns w + active_conns w + w.dialing + w.sent ≤ steps

inc_sub : (a b : ℕ) → a < 2 ^ 62 → b < 2 ^ 62 → inc (sub_ℕ a b) ≡ sub_ℕ (suc a) b
unfolding int64 ◌+ℤ◌
inc_sub a b ha hb = ground arith

dec_sub : (a b : ℕ) → a < 2 ^ 62 → b < 2 ^ 62 → dec (sub_ℕ a b) ≡ sub_ℕ a (suc b)
unfolding int64 ◌-ℤ◌
dec_sub a b ha hb = ground arith

inc_pos : (a : ℕ) → a < 2 ^ 62 → inc (pos a) ≡ pos (suc a)
unfolding int64 ◌+ℤ◌
inc_pos a h = ground arith

dec_pos : (a : ℕ) → a < 2 ^ 62 → dec (pos (suc a)) ≡ pos a
unfolding int64 ◌-ℤ◌
dec_pos a h = ground arith

sub_shift : (a b c d : ℕ) → a + d ≡ c + b → sub_ℕ a b ≡ sub_ℕ c d
sub_shift a b c d e = ground (arith, e)

sum_known :
    (a b c : ℕ)
    → a < 2 ^ 62
    → b < 2 ^ 62
    → c < 2 ^ 62
    → int64 (sub_ℕ a b +ℤ pos (c + b)) ≡ pos (a + c)
unfolding int64 ◌+ℤ◌
sum_known a b c ha hb hc = ground arith

below : (max n : ℕ) → leb_ℤ (pos max) (pos n) ≡ false → n < max
below max n h = ground (arith, h)

module _ (max extra steps : ℕ) (v : Users) (h : steps < 2 ^ 62) (inv : Inv max extra steps v) where
  -- Where the limit is not reached, the open connections are fewer.
  room_left : is_full v.pool ≡ false → idle_conns v + active_conns v < max
  unfolding is_full
  room_left free =
      let sum : int64 (v.pool.idle_num +ℤ v.pool.active_num) ≡ pos (idle_conns v + active_conns v) =
        rw (inv.idle_counted, inv.active_counted)
          (sum_known (idle_conns v) v.sent (active_conns v) (omega (arith, h, inv.few))
            (omega (arith, h, inv.few)) (omega (arith, h, inv.few))) in
      below max (idle_conns v + active_conns v) (rw (inv.limit, sum) at free)

  -- Both counters as they were.
  kept-Inv :
      (w : Users)
      → w.pool.max_conn_num ≡ v.pool.max_conn_num
      → w.pool.idle_num ≡ v.pool.idle_num
      → w.pool.active_num ≡ v.pool.active_num
      → idle_conns w + v.sent ≡ idle_conns v + w.sent
      → active_conns w + w.sent ≡ active_conns v + v.sent
      → idle_conns w + active_conns w + w.dialing ≤ max + extra
      → idle_conns w + active_conns w + w.dialing + w.sent ≤ suc steps
      → Inv max extra (suc steps) w
  kept-Inv w same idle active hi ha bound few = record {
    limit = same ∙ inv.limit;
    idle_counted =
        idle ∙ (inv.idle_counted ∙ sub_shift (idle_conns v) v.sent (idle_conns w) w.sent (sym hi));
    active_counted = active ∙ (inv.active_counted ∙ ap pos (sym ha));
    bounded = bound;
    few = few;
  }

  -- One active connection less.
  closed-Inv :
      (w : Users)
      → w.pool.max_conn_num ≡ v.pool.max_conn_num
      → w.pool.idle_num ≡ v.pool.idle_num
      → w.pool.active_num ≡ dec v.pool.active_num
      → idle_conns w ≡ idle_conns v
      → w.sent ≡ v.sent
      → w.dialing ≡ v.dialing
      → suc (active_conns w) ≡ active_conns v
      → Inv max extra (suc steps) w
  closed-Inv w same idle active hi hs hd ha = record {
    limit = same ∙ inv.limit;
    idle_counted =
        idle
        ∙ (inv.idle_counted
            ∙ sub_shift (idle_conns v) v.sent (idle_conns w) w.sent (omega (arith, hi, hs)));
    active_counted =
        active
        ∙ (ap dec (inv.active_counted ∙ ap pos (omega (arith, ha, hs)))
            ∙ dec_pos (active_conns w + w.sent) (omega (arith, h, inv.few, ha, hs)));
    bounded = omega (arith, inv.bounded, hi, ha, hd);
    few = omega (arith, inv.few, hi, ha, hs, hd);
  }

  idle_less :
      (w : Users)
      → suc (idle_conns w) ≡ idle_conns v
      → w.sent ≡ v.sent
      → dec v.pool.idle_num ≡ sub_ℕ (idle_conns w) w.sent
  idle_less w hi hs =
      ap dec inv.idle_counted
      ∙ (dec_sub (idle_conns v) v.sent (omega (arith, h, inv.few)) (omega (arith, h, inv.few))
          ∙ sub_shift (idle_conns v) (suc v.sent) (idle_conns w) w.sent (omega (arith, hi, hs)))

  active_more :
      (w : Users)
      → active_conns w + w.sent ≡ suc (active_conns v + v.sent)
      → inc v.pool.active_num ≡ pos (active_conns w + w.sent)
  active_more w ha =
      ap inc inv.active_counted
      ∙ (inc_pos (active_conns v + v.sent) (omega (arith, h, inv.few)) ∙ ap pos (sym ha))

-- Every step keeps the counters right.
Step-Inv :
    (max extra steps : ℕ) (v w : Users)
    → steps < 2 ^ 62
    → Inv max extra steps v
    → Step (suc extra) v w
    → Inv max extra (suc steps) w
unfolding count_used count_dead count_created count_failed count_timeout count_pushed count_closed
Step-Inv max extra steps v w h inv (takes _ c rest e) =
    let len = ap length e in
    kept-Inv max extra steps v h inv w refl refl refl (omega (arith, len)) refl
      (omega (arith, len, inv.bounded)) (omega (arith, len, inv.few))
Step-Inv max extra steps v w h inv (uses _ now alive xs c ys e fine) =
    let len = ap length e ∙ length-middle c xs ys in
    record {
      limit = inv.limit;
      idle_counted = idle_less max extra steps v h inv w (omega (arith, len)) refl;
      active_counted = active_more max extra steps v h inv w (omega arith);
      bounded = omega (arith, len, inv.bounded);
      few = omega (arith, len, inv.few);
    }
Step-Inv max extra steps v w h inv (drops _ now xs c ys e old) =
    let len = ap length e ∙ length-middle c xs ys in
    record {
      limit = inv.limit;
      idle_counted = idle_less max extra steps v h inv w (omega (arith, len)) refl;
      active_counted = inv.active_counted;
      bounded = omega (arith, len, inv.bounded);
      few = omega (arith, len, inv.few);
    }
Step-Inv max extra steps v w h inv (checks _ free few_dial) =
    let room = room_left max extra steps v h inv free in
    kept-Inv max extra steps v h inv w refl refl refl refl refl (omega (arith, room, few_dial))
      (omega (arith, inv.few))
Step-Inv max extra steps v w h inv (dial_failed _ n e) =
    kept-Inv max extra steps v h inv w refl refl refl refl refl (omega (arith, e, inv.bounded))
      (omega (arith, e, inv.few))
Step-Inv max extra steps v w h inv (dialed _ n c e sound) = record {
  limit = inv.limit;
  idle_counted = inv.idle_counted;
  active_counted = active_more max extra steps v h inv w (omega arith);
  bounded = omega (arith, e, inv.bounded);
  few = omega (arith, e, inv.few);
}
Step-Inv max extra steps v w h inv (times_out _ full) =
    kept-Inv max extra steps v h inv w refl refl refl refl refl inv.bounded (omega (arith, inv.few))
Step-Inv max extra steps v w h inv (breaks _ xs c ys e) =
    let before = ap length e ∙ length-middle c xs ys in
    let after = length-middle (broken c) xs ys in
    kept-Inv max extra steps v h inv w refl refl refl refl (omega (arith, before, after))
      (omega (arith, before, after, inv.bounded)) (omega (arith, before, after, inv.few))
Step-Inv max extra steps v w h inv (pushes _ xs c ys e) =
    let len = ap length e ∙ length-middle c xs ys in
    kept-Inv max extra steps v h inv w refl refl refl refl (omega (arith, len))
      (omega (arith, len, inv.bounded)) (omega (arith, len, inv.few))
Step-Inv max extra steps v w h inv (rejects _ xs c ys e why) =
    let len = ap length e ∙ length-middle c xs ys in
    kept-Inv max extra steps v h inv w refl refl refl refl (omega (arith, len))
      (omega (arith, len, inv.bounded)) (omega (arith, len, inv.few))
Step-Inv max extra steps v w h inv (discards _ xs c ys e) =
    let len = ap length e ∙ length-middle c xs ys in
    closed-Inv max extra steps v h inv w refl refl refl refl refl refl (omega (arith, len))
Step-Inv max extra steps v w h inv (clears _ xs c ys e why) =
    let len = ap length e ∙ length-middle c xs ys in
    kept-Inv max extra steps v h inv w refl refl refl refl (omega (arith, len))
      (omega (arith, len, inv.bounded)) (omega (arith, len, inv.few))
Step-Inv max extra steps v w h inv (sends _ xs c ys e room) =
    let len = ap length e ∙ length-middle c xs ys in
    let longer = length-append v.pool.client_pool (c ∷ []) in
    kept-Inv max extra steps v h inv w refl refl refl (omega (arith, longer)) (omega (arith, len))
      (omega (arith, len, longer, inv.bounded)) (omega (arith, len, longer, inv.few))
Step-Inv max extra steps v w h inv (finds_full _ xs c ys e full) =
    let len = ap length e ∙ length-middle c xs ys in
    kept-Inv max extra steps v h inv w refl refl refl refl (omega (arith, len))
      (omega (arith, len, inv.bounded)) (omega (arith, len, inv.few))
Step-Inv max extra steps v w h inv (counts _ n e) = record {
  limit = inv.limit;
  idle_counted =
      ap inc inv.idle_counted
      ∙ (inc_sub (idle_conns v) v.sent (omega (arith, h, inv.few)) (omega (arith, h, inv.few))
          ∙ sub_shift (suc (idle_conns v)) v.sent (idle_conns v) n (omega (arith, e)));
  active_counted =
      ap dec (inv.active_counted ∙ ap pos (omega (arith, e)))
      ∙ dec_pos (active_conns v + n) (omega (arith, h, inv.few, e));
  bounded = inv.bounded;
  few = omega (arith, inv.few, e);
}

Run-Inv :
    (max extra n : ℕ) (u w : Users)
    → n < 2 ^ 62
    → Inv max extra 0 u
    → Run (suc extra) n u w
    → Inv max extra n w
Run-Inv max extra _ _ _ h inv (done _) = inv
Run-Inv max extra _ u w h inv (then_step {n = n} {v = v} run step) =
    Step-Inv max extra n v w (omega (arith, h)) (Run-Inv max extra n u v (omega (arith, h)) inv run)
      step

-- In every run of fewer than 2 ^ 62 steps in which at most `extra` + 1 callers dial at a time, the
-- idle counter is the number of connections in the channel or just taken from it, less those that
-- were sent and are not counted yet, the active counter that of the connections in use, being pushed,
-- about to be closed or not counted yet, and the connections are never more than the limit and
-- `extra`: with one dialing caller at a time, never more than the limit.
pub users_bounded :
    (address password : Text) (max extra n : ℕ) (max_idle seconds : ℤ) (w : Users)
    → n < 2 ^ 62
    → Run (suc extra) n (no_users (new_pool address password (pos max) max_idle seconds)) w
    → (w.pool.idle_num ≡ sub_ℕ (idle_conns w) w.sent)
      × (w.pool.active_num ≡ pos (active_conns w + w.sent))
      × (idle_conns w + active_conns w + w.dialing ≤ max + extra)
unfolding new_pool
users_bounded address password max extra n max_idle seconds w h run =
    let p = new_pool address password (pos max) max_idle seconds in
    let start : Inv max extra 0 (no_users p) = record {
      limit = refl;
      idle_counted = refl;
      active_counted = refl;
      bounded = omega arith;
      few = omega arith;
    } in
    let inv = Run-Inv max extra n (no_users p) w h start run in
    (inv.idle_counted, inv.active_counted, inv.bounded)
