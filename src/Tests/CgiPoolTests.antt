-- ===== src/Tests/CgiPoolTests.antt =====
-- The theorem of the CGI connection pool on a run of three callers.
use pepperbus.Base.{ℕ, suc, ◌+◌, ◌≤◌, ◌≡◌, refl, [], ◌∷◌, ◌++◌, false, length, arith}
use pepperbus.Base.Int.{pos, ◌+ℤ◌, int64}
use pepperbus.CgiPool.{
  CgiConn, Callers, Run, begin_conn, put, new_callers, begins, dialed, done, then_step,
}
use pepperbus.CgiPool.Bounds.{open_conns, conns_bounded}

abbrev start : Callers
start = new_callers (pos 1) (pos 100) (pos 1000)

abbrev conn : CgiConn
conn = record { id = 7; used_counts = pos 0; created = pos 0; need_close = false }

-- Two callers want a connection, where one is allowed: one dials, and the other is refused.
abbrev both : Callers
both = begin_conn (begin_conn start)

abbrev last : Callers
last = record both { lent = conn ∷ []; dialing = 0 }

run : Run 3 start last
unfolding begin_conn int64 ◌+ℤ◌
run = then_step (then_step (then_step (done start) (begins _)) (begins _)) (dialed both 0 conn refl)

conns_bounded_example :
    (last.pool.conn_num ≡ pos (open_conns last + last.rejecting))
    × (open_conns last ≤ 1)
    × ((c : CgiConn) (k : ℕ)
        → length last.lent ≡ suc k
        → put c last.pool ≡ record last.pool { store = last.pool.store ++ c ∷ [] })
conns_bounded_example = conns_bounded 1 3 (pos 100) (pos 1000) last (omega arith) run
