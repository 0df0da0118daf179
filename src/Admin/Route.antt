-- ===== src/Admin/Route.antt =====
-- admin.go, `ServiceHandler`: the path of a request names its action.
use pepperbus.Base.{
  ℕ, ◌≡◌, refl, ap, List, [], ◌∷◌, ◌++◌, append-nil, Bool, true, false, ◌&&◌, ◌||◌, Option, none,
  some, ◌==◌, ◌-◌, leb, is_nil, if◌then◌else◌, All, arith, Bool-cases, inl, inr, subst,
}
use pepperbus.Base.Text.{Text, codes, text_eq, text_eq_sound, split}
use pepperbus.Base.Split.{Without, Without-append, split-append, split_single}
use pepperbus.Job.Parse.{slash}

-- `strings.Trim` at one byte.
unfoldable pub trim_front : ℕ → Text → Text
trim_front sep [] = []
trim_front sep (c ∷ s) = let rest = trim_front sep s in if c == sep then rest else c ∷ s

unfoldable pub trim_back : ℕ → Text → Text
trim_back sep [] = []
trim_back sep (c ∷ s) =
    let rest = trim_back sep s in if (c == sep) && is_nil rest then [] else c ∷ rest

abbrev pub is_small : ℕ → Bool
is_small c = leb b'a' c && leb c b'z'

-- `strings.Title` (for ASCII): a letter behind a separator becomes a capital.
abbrev pub upper : ℕ → ℕ
upper c = if is_small c then c - 32 else c

abbrev pub in_word : ℕ → Bool
in_word c =
    is_small c
    || ((leb b'A' c && leb c b'Z') || ((leb b'0' c && leb c b'9') || ((c == b'_') || leb 128 c)))

unfoldable pub title_from : Bool → Text → Text
title_from inside [] = []
title_from inside (c ∷ s) = (if inside then c else upper c) ∷ title_from (in_word c) s

abbrev pub title : Text → Text
title s = title_from false s

abbrev pub joined_titles : List Text → Text
joined_titles [] = []
joined_titles (part ∷ parts) = title part ++ joined_titles parts

-- The name that is looked for.
unfoldable pub action_name : Text → Text
unfolding trim_front trim_back title_from
action_name path = joined_titles (split slash (trim_back slash (trim_front slash path)))

-- The methods of the controller whose names end in "Action", without that.
abbrev pub actions : List Text
actions =
    codes "HelloWorld"
    ∷ codes "QueueConfig"
    ∷ codes "GetCGIError"
    ∷ codes "GetCGITaskDebug"
    ∷ codes "Recover"
    ∷ codes "CleanStatistics"
    ∷ codes "CleanFailedJobs"
    ∷ codes "GetQueueLength"
    ∷ codes "SendToCgi"
    ∷ codes "GetMuxStats"
    ∷ codes "GetGatewayStats"
    ∷ codes "GetMachineStats"
    ∷ codes "CGIStatus"
    ∷ codes "GetPid"
    ∷ codes "ManageService"
    ∷ []

unfoldable pub among : Text → List Text → Bool
among v [] = false
among v (w ∷ ws) = text_eq v w || among v ws

-- The action that is called; `none` for the icon, which gets no answer.
unfoldable pub service_action : Text → Option Text
unfolding action_name among
service_action path =
    if text_eq (trim_back slash (trim_front slash path)) (codes "favicon.ico")
    then none
    else if among (action_name path) actions
    then some (action_name path)
    else some (codes "HelloWorld")

-- A word of small letters, and the same with a capital.
abbrev pub Word : Text → Type 0
Word [] = ⊥
Word (c ∷ s) = (is_small c ≡ true) × All (λ d. is_small d ≡ true) s

abbrev pub capital : Text → Text
capital [] = []
capital (c ∷ s) = upper c ∷ s

-- A path of words, with a slash before each of them.
abbrev pub path_of : List Text → Text
path_of [] = []
path_of (w ∷ ws) = slash ∷ (w ++ path_of ws)

abbrev pub name_of : List Text → Text
name_of [] = []
name_of (w ∷ ws) = capital w ++ name_of ws

small_kept : (s : Text) → All (λ d. is_small d ≡ true) s → title_from true s ≡ s
unfolding title_from
small_kept [] h = refl
small_kept (c ∷ s) (hc, h) = rw hc (ap (λ r. c ∷ r) (small_kept s h))

title-Word : (w : Text) → Word w → title w ≡ capital w
unfolding title_from
title-Word [] h = absurd h
title-Word (c ∷ s) (hc, h) = rw hc (ap (λ r. (c - 32) ∷ r) (small_kept s h))

small-Without :
    (sep : ℕ) (s : Text) → is_small sep ≡ false → All (λ d. is_small d ≡ true) s → Without sep s
small-Without sep [] hs h = tt
small-Without sep (c ∷ s) hs (hc, h) = ((λ e. ground (arith, hs, hc, e)), small-Without sep s hs h)

Word-Without : (sep : ℕ) (w : Text) → is_small sep ≡ false → Word w → Without sep w
Word-Without sep [] hs h = tt
Word-Without sep (c ∷ s) hs (hc, h) = small-Without sep (c ∷ s) hs (hc, h)

back-append :
    (s t : Text) → Without slash s → trim_back slash t ≡ t → trim_back slash (s ++ t) ≡ s ++ t
unfolding trim_back
back-append [] t h e = e
back-append (c ∷ s) t (hc, h) e = rw (back-append s t h e) (ground (arith, hc))

back-path : (ws : List Text) → All Word ws → trim_back slash (path_of ws) ≡ path_of ws
unfolding trim_back
back-path [] h = refl
back-path ([] ∷ ws) (h, hs) = absurd h
back-path ((c ∷ w) ∷ ws) (h, hs) =
    rw (back-append (c ∷ w) (path_of ws) (Word-Without slash (c ∷ w) refl h) (back-path ws hs)) refl

trimmed-path :
    (w : Text) (ws : List Text)
    → All Word (w ∷ ws)
    → trim_back slash (trim_front slash (path_of (w ∷ ws))) ≡ w ++ path_of ws
unfolding trim_front
trimmed-path [] ws (h, hs) = absurd h
trimmed-path (c ∷ w) ws (h, hs) =
    let first : (c == slash) ≡ false = ground (arith, h.0) in
    rw first
      (back-append (c ∷ w) (path_of ws) (Word-Without slash (c ∷ w) refl h) (back-path ws hs))

titles-path :
    (w : Text) (ws : List Text)
    → All Word (w ∷ ws)
    → joined_titles (split slash (w ++ path_of ws)) ≡ name_of (w ∷ ws)
titles-path w [] (h, hs) =
    rw (append-nil w, split_single slash w (Word-Without slash w refl h), title-Word w h) refl
titles-path w (v ∷ ws) (h, hs) =
    rw (split-append slash w (v ++ path_of ws) (Word-Without slash w refl h), title-Word w h)
      (ap (λ r. capital w ++ r) (titles-path v ws hs))

path-Without : (ws : List Text) → All Word ws → Without b'.' (path_of ws)
path-Without [] h = tt
path-Without (w ∷ ws) (h, hs) =
    let plain = Word-Without b'.' w refl h in
    (λ e. omega (arith, e), Without-append b'.' w (path_of ws) plain (path-Without ws hs))

no_icon :
    (w : Text) (ws : List Text)
    → All Word (w ∷ ws)
    → text_eq (w ++ path_of ws) (codes "favicon.ico") ≡ false
no_icon w ws (h, hs) = elim (Bool-cases (text_eq (w ++ path_of ws) (codes "favicon.ico"))) [
  | inr miss ↦ miss
  | inl hit ↦
      let same = text_eq_sound (w ++ path_of ws) (codes "favicon.ico") hit in
      let plain : Without b'.' (w ++ path_of ws) =
        Without-append b'.' w (path_of ws) (Word-Without b'.' w refl h) (path-Without ws hs) in
      let (f, (a, (v, (i, (c, (o, (n, (dot, more)))))))) = subst (Without b'.') same plain in
      absurd (dot refl)
]

-- A path of words of small letters calls the action whose name is made of these words, each with a
-- capital, if there is one, and otherwise says hello.
pub service_action-path :
    (w : Text) (ws : List Text)
    → All Word (w ∷ ws)
    → service_action (path_of (w ∷ ws)) ≡ (
        let name = name_of (w ∷ ws) in
        if among name actions then some name else some (codes "HelloWorld"))
unfolding service_action action_name
service_action-path w ws h = rw (trimmed-path w ws h, no_icon w ws h, titles-path w ws h) refl
