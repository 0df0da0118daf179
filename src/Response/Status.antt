-- ===== src/Response/Status.antt =====
-- cgi.go, `SendStatus`: the status page of the FastCGI process manager.
pub mod Page
use pepperbus.Base.{
  ℕ, List, [], ◌∷◌, Bool, ◌&&◌, ◌||◌, Option, none, some, ◌==◌, leb, is_nil, if◌then◌else◌,
}
use pepperbus.Base.Text.{Text, codes, text_eq, split}

pub record CgiStatus : Type 0 where
  pub pool : Text
  pub process_manager : Text
  pub start_time : Text
  pub start_since : Text
  pub accepted_conn : Text
  pub listen_queue : Text
  pub max_listen_queue : Text
  pub listen_queue_len : Text
  pub idle_processes : Text
  pub active_processes : Text
  pub total_processes : Text
  pub max_active_processes : Text
  pub max_children_reached : Text
  pub slow_requests : Text

unfoldable pub no_status : CgiStatus
no_status = record {
  pool = [];
  process_manager = [];
  start_time = [];
  start_since = [];
  accepted_conn = [];
  listen_queue = [];
  max_listen_queue = [];
  listen_queue_len = [];
  idle_processes = [];
  active_processes = [];
  total_processes = [];
  max_active_processes = [];
  max_children_reached = [];
  slow_requests = [];
}

-- `strings.TrimSpace`, for the spaces of ASCII.
abbrev pub is_space : ℕ → Bool
is_space c = c == 32 || leb 9 c && leb c 13

unfoldable pub trim_left : Text → Text
trim_left [] = []
trim_left (c ∷ s) = let rest = trim_left s in if is_space c then rest else c ∷ s

unfoldable pub trim_right : Text → Text
trim_right [] = []
trim_right (c ∷ s) = let rest = trim_right s in if is_space c && is_nil rest then [] else c ∷ rest

unfoldable pub trim_space : Text → Text
unfolding trim_left trim_right
trim_space s = trim_right (trim_left s)

-- The switch on the key of a line.
unfoldable pub set_field : Text → Text → CgiStatus → CgiStatus
set_field key v st =
    if text_eq key (codes "pool")
    then record st { pool = v }
    else if text_eq key (codes "process manager")
    then record st { process_manager = v }
    else if text_eq key (codes "start time")
    then record st { start_time = v }
    else if text_eq key (codes "start since")
    then record st { start_since = v }
    else if text_eq key (codes "accepted conn")
    then record st { accepted_conn = v }
    else if text_eq key (codes "listen queue")
    then record st { listen_queue = v }
    else if text_eq key (codes "max listen queue")
    then record st { max_listen_queue = v }
    else if text_eq key (codes "listen queue len")
    then record st { listen_queue_len = v }
    else if text_eq key (codes "idle processes")
    then record st { idle_processes = v }
    else if text_eq key (codes "active processes")
    then record st { active_processes = v }
    else if text_eq key (codes "total processes")
    then record st { total_processes = v }
    else if text_eq key (codes "max active processes")
    then record st { max_active_processes = v }
    else if text_eq key (codes "max children reached")
    then record st { max_children_reached = v }
    else if text_eq key (codes "slow requests")
    then record st { slow_requests = v }
    else st

-- The parts of a line at ':'; a line without one is a panic (`tmp[1]`).
abbrev line_fields : List Text → CgiStatus → Option CgiStatus
line_fields (key ∷ v ∷ more) st = some (set_field (trim_space key) (trim_space v) st)
line_fields parts st = none

unfoldable pub read_line : Text → CgiStatus → Option CgiStatus
unfolding set_field trim_space
read_line [] st = some st
read_line (c ∷ line) st = line_fields (split b':' (c ∷ line)) st

abbrev read_rest : (CgiStatus → Option CgiStatus) → Option CgiStatus → Option CgiStatus
read_rest next none = none
read_rest next (some st) = next st

-- The loop over the lines.
unfoldable pub read_lines : List Text → CgiStatus → Option CgiStatus
unfolding read_line
read_lines [] st = some st
read_lines (line ∷ lines) st = read_rest (read_lines lines) (read_line line st)

-- What `SendStatus` returns: a status, an error, or a panic.
pub data Status : Type 0 where
  status : CgiStatus → Status
  status_failed : Text → Status
  status_panics : Status

abbrev status_of : Option CgiStatus → Status
status_of none = status_panics
status_of (some st) = status st

-- `SendStatus`, from the body that was read, or an error before that.
unfoldable pub send_status : Option Text → Text → Status
unfolding read_lines no_status
send_status (some e) body = status_failed e
send_status none body = status_of (read_lines (split b'\n' body) no_status)
