-- ===== src/Tests/WorkerTests.antt =====
-- The theorems of the transports at concrete inputs.
use pepperbus.Base.{ℕ, zero, suc, ◌<◌, ◌≤◌, ◌≡◌, refl, List, [], Bool, true, false}
use pepperbus.Base.Text.{Text, codes, contains, has_prefix}
use pepperbus.Response.{WorkerResponse}
use pepperbus.Response.Request.{
  Tried, replied, end_of_file, broke, is_transient, request, request_from, conn_of, request_lem,
}

abbrev answer : WorkerResponse
answer = record { code = codes "200"; error_code = []; consume_topics = []; msg = codes "a/b,q/t" }

abbrev show : List Text → Text
show topics = []

-- The first connection is closed by the other side, the second breaks, the third works.
abbrev network : ℕ → Bool → Tried
network zero new_conn = end_of_file
network (suc zero) new_conn = broke (codes "write: broken pipe")
network (suc (suc k)) new_conn = replied answer

request_runs : request network false ≡ (replied answer, 3)
unfolding request request_from is_transient contains has_prefix
request_runs = refl

request_lem_example :
    (m : ℕ) × (request network false ≡ (network m (conn_of false m), suc m))
    × (suc m ≤ 6)
    × ((i : ℕ) → i < m → is_transient (network i (conn_of false i)) ≡ true)
    × (suc m < 6 → is_transient (network m (conn_of false m)) ≡ false)
request_lem_example = request_lem network false
