-- ===== src/Tests/StatusTests.antt =====
-- The theorem of the status page at a concrete page.
use pepperbus.Base.{ℕ, ◌≡◌, none}
use pepperbus.Base.Text.{Text, codes}
use pepperbus.Response.Status.{CgiStatus, no_status, status, send_status}
use pepperbus.Response.Status.Page.{entries, page, kept, map_status, send_status-page}

abbrev idle : CgiStatus
idle = record no_status { pool = codes "w w"; start_time = codes "7:2" }

abbrev wide : Text → ℕ
wide name = 2

send_status-page_example :
    send_status none (page wide (entries idle)) ≡ status (map_status kept idle)
unfolding no_status
send_status-page_example = send_status-page wide idle (
  (cc, (cc, (cc, tt))),
  (
    tt,
    ((cc, (cc, (cc, tt))), (tt, (tt, (tt, (tt, (tt, (tt, (tt, (tt, (tt, (tt, (tt, tt)))))))))))),
  ),
)
