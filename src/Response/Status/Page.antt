-- ===== src/Response/Status/Page.antt =====
-- cgi.go, `SendStatus`: what is read from the page that the process manager prints.
use pepperbus.Base.{
  ℕ, zero, suc, ◌≡◌, refl, ap, ◌∙◌, List, [], ◌∷◌, ◌++◌, map, Bool, true, false, ◌&&◌, not, none,
  some, ◌==◌, is_nil, All, arith,
}
use pepperbus.Base.Text.{Text, codes, text_eq, text_eq_iff, split, add_front}
use pepperbus.Base.Split.{Without, Without-append, split-append}
use pepperbus.Response.Status.{
  CgiStatus, no_status, trim_left, trim_right, trim_space, set_field, line_fields, read_line,
  read_lines, status, send_status,
}

-- The names and values of a page.
abbrev pub entries : CgiStatus → List (Text × Text)
entries st =
    (codes "pool", st.pool)
    ∷ (codes "process manager", st.process_manager)
    ∷ (codes "start time", st.start_time)
    ∷ (codes "start since", st.start_since)
    ∷ (codes "accepted conn", st.accepted_conn)
    ∷ (codes "listen queue", st.listen_queue)
    ∷ (codes "max listen queue", st.max_listen_queue)
    ∷ (codes "listen queue len", st.listen_queue_len)
    ∷ (codes "idle processes", st.idle_processes)
    ∷ (codes "active processes", st.active_processes)
    ∷ (codes "total processes", st.total_processes)
    ∷ (codes "max active processes", st.max_active_processes)
    ∷ (codes "max children reached", st.max_children_reached)
    ∷ (codes "slow requests", st.slow_requests)
    ∷ []

abbrev pub spaces : ℕ → Text
spaces zero = []
spaces (suc n) = 32 ∷ spaces n

-- A line has a name, a colon, as many spaces as the layout wants, and the value.
abbrev pub line : (Text → ℕ) → Text × Text → Text
line pad (k, v) = k ++ b':' ∷ (spaces (pad k) ++ v)

abbrev pub page : (Text → ℕ) → List (Text × Text) → Text
page pad [] = []
page pad (e ∷ es) = line pad e ++ b'\n' ∷ page pad es

abbrev first_of : List Text → Text
first_of [] = []
first_of (part ∷ parts) = part

-- What is read of a value: the part before its first colon, without outer spaces.
abbrev pub kept : Text → Text
kept v = trim_space (first_of (split b':' v))

abbrev pub map_status : (Text → Text) → CgiStatus → CgiStatus
map_status f st = record {
  pool = f st.pool;
  process_manager = f st.process_manager;
  start_time = f st.start_time;
  start_since = f st.start_since;
  accepted_conn = f st.accepted_conn;
  listen_queue = f st.listen_queue;
  max_listen_queue = f st.max_listen_queue;
  listen_queue_len = f st.listen_queue_len;
  idle_processes = f st.idle_processes;
  active_processes = f st.active_processes;
  total_processes = f st.total_processes;
  max_active_processes = f st.max_active_processes;
  max_children_reached = f st.max_children_reached;
  slow_requests = f st.slow_requests;
}

abbrev lacks : ℕ → Text → Bool
lacks c [] = true
lacks c (d ∷ s) = not (d == c) && lacks c s

lacks-Without : (c : ℕ) (s : Text) → lacks c s ≡ true → Without c s
lacks-Without c [] h = tt
lacks-Without c (d ∷ s) h = (ground (arith, h), lacks-Without c s (ground (arith, h)))

-- A name that is read as it is printed.
abbrev Name : Text → Type 0
Name k = (lacks b':' k ≡ true) × (lacks b'\n' k ≡ true) × (trim_space k ≡ k) × (is_nil k ≡ false)

abbrev Fit : Text × Text → Type 0
Fit (k, v) = Name k × Without b'\n' v

Without-spaces : (n : ℕ) → Without b'\n' (spaces n)
Without-spaces zero = tt
Without-spaces (suc n) = (cc, Without-spaces n)

split-page :
    (pad : Text → ℕ) (es : List (Text × Text))
    → All Fit es
    → split b'\n' (page pad es) ≡ map (line pad) es ++ ([] ∷ [])
split-page pad [] h = unfold split in refl
split-page pad ((k, v) ∷ es) (((colonless, whole, trimmed, named), flat), h) =
    split-append b'\n' (line pad (k, v)) (page pad es) (
      Without-append b'\n' k _ (lacks-Without b'\n' k whole)
        (cc, Without-append b'\n' (spaces (pad k)) v (Without-spaces (pad k)) flat))
    ∙ ap (λ ls. line pad (k, v) ∷ ls) (split-page pad es h)

first_of-add_front : (c : ℕ) (parts : List Text) → first_of (add_front c parts) ≡ c ∷ first_of parts
first_of-add_front c [] = refl
first_of-add_front c (part ∷ parts) = refl

is_nil-add_front : (c : ℕ) (parts : List Text) → is_nil (add_front c parts) ≡ false
is_nil-add_front c [] = refl
is_nil-add_front c (part ∷ parts) = refl

is_nil-split : (c : ℕ) (s : Text) → is_nil (split c s) ≡ false
unfolding split
is_nil-split c [] = refl
is_nil-split c (d ∷ s) = ground (arith, is_nil-add_front d (split c s))

first_of-spaces :
    (n : ℕ) (v : Text) → first_of (split b':' (spaces n ++ v)) ≡ spaces n ++ first_of (split b':' v)
unfolding split
first_of-spaces zero v = refl
first_of-spaces (suc n) v =
    first_of-add_front 32 (split b':' (spaces n ++ v)) ∙ ap (λ w. 32 ∷ w) (first_of-spaces n v)

trim_space-spaces : (n : ℕ) (v : Text) → trim_space (spaces n ++ v) ≡ trim_space v
unfolding trim_space trim_left
trim_space-spaces zero v = refl
trim_space-spaces (suc n) v = trim_space-spaces n v

two_fields :
    (k : Text) (parts : List Text) (st : CgiStatus)
    → is_nil parts ≡ false
    → line_fields (k ∷ parts) st ≡ some (set_field (trim_space k) (trim_space (first_of parts)) st)
two_fields k [] st h = cc
two_fields k (v ∷ more) st h = refl

kept-spaces : (n : ℕ) (v : Text) → kept (spaces n ++ v) ≡ kept v
kept-spaces n v =
    ap trim_space (first_of-spaces n v) ∙ trim_space-spaces n (first_of (split b':' v))

read_line-line :
    (pad : Text → ℕ) (k v : Text) (st : CgiStatus)
    → Name k
    → read_line (line pad (k, v)) st ≡ some (set_field k (kept v) st)
unfolding read_line
read_line-line pad [] v st (colonless, whole, trimmed, named) = cc
read_line-line pad (c ∷ k) v st (colonless, whole, trimmed, named) =
    let rest = spaces (pad (c ∷ k)) ++ v in
    ap (λ parts. line_fields parts st)
      (split-append b':' (c ∷ k) rest (lacks-Without b':' (c ∷ k) colonless))
    ∙ (two_fields (c ∷ k) (split b':' rest) st (is_nil-split b':' rest)
        ∙ (rw (trimmed, kept-spaces (pad (c ∷ k)) v) refl))

abbrev apply : List (Text × Text) → CgiStatus → CgiStatus
apply [] st = st
apply ((k, v) ∷ es) st = apply es (set_field k (kept v) st)

read_lines-page :
    (pad : Text → ℕ) (es : List (Text × Text)) (st : CgiStatus)
    → All Fit es
    → read_lines (map (line pad) es ++ ([] ∷ [])) st ≡ some (apply es st)
unfolding read_lines read_line
read_lines-page pad [] st h = refl
read_lines-page pad ((k, v) ∷ es) st ((named, flat), h) =
    rw (read_line-line pad k v st named) (read_lines-page pad es (set_field k (kept v) st) h)

apply-entries : (st : CgiStatus) → apply (entries st) no_status ≡ map_status kept st
unfolding no_status set_field text_eq
apply-entries st = refl

abbrev is_name : Text → Bool
is_name k = (lacks b':' k && lacks b'\n' k) && (text_eq (trim_space k) k && not (is_nil k))

is_name-Name : (k : Text) → is_name k ≡ true → Name k
is_name-Name k h = (
  ground (arith, h),
  ground (arith, h),
  (text_eq_iff (trim_space k) k).0 (ground (arith, h)),
  ground (arith, h),
)

abbrev all_names : List (Text × Text) → Bool
all_names [] = true
all_names ((k, v) ∷ es) = is_name k && all_names es

entries-Fit :
    (es : List (Text × Text))
    → all_names es ≡ true
    → All (λ (e : Text × Text). Without b'\n' e.1) es
    → All Fit es
entries-Fit [] named h = tt
entries-Fit ((k, v) ∷ es) named (flat, h) =
    ((is_name-Name k (ground (arith, named)), flat), entries-Fit es (ground (arith, named)) h)

-- From a page that prints a status, whose values have no line feed, SendStatus reads every value up
-- to its first colon, without outer spaces, whatever the spaces behind the names. (So a start time
-- with hours and minutes is cut at the hours.)
pub send_status-page :
    (pad : Text → ℕ) (st : CgiStatus)
    → All (λ (e : Text × Text). Without b'\n' e.1) (entries st)
    → send_status none (page pad (entries st)) ≡ status (map_status kept st)
unfolding send_status trim_space trim_left trim_right text_eq
send_status-page pad st flat =
    let fit = entries-Fit (entries st) refl flat in
    rw
      (
        split-page pad (entries st) fit,
        read_lines-page pad (entries st) no_status fit,
        apply-entries st,
      )
      refl
