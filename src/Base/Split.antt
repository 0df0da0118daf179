-- ===== src/Base/Split.antt =====
-- `strings.Split` and `strings.SplitN` at a byte: what they make of texts that were joined by it.
use Prim.Native.Nat.{ℕ}
use mathlib.Core.Path.{◌≡◌, refl}
use mathlib.Core.Logic.{◌≢◌}
use mathlib.Core.List.{[], ◌∷◌, ◌++◌}
use mathlib.Core.Option.{none, some}
use native.Mathlib.Omega.{arith}
use pepperbus.Base.Lists.{All}
use pepperbus.Base.Text.{Text, split, split_once}

-- The byte is not part of the text.
abbrev pub Without : ℕ → Text → Type 0
Without c s = All (λ d. d ≢ c) s

pub Without-append : (c : ℕ) (s t : Text) → Without c s → Without c t → Without c (s ++ t)
Without-append c [] t hs ht = ht
Without-append c (d ∷ s) t (h, hs) ht = (h, Without-append c s t hs ht)

pub split-append :
    (sep : ℕ) (s t : Text) → Without sep s → split sep (s ++ sep ∷ t) ≡ s ∷ split sep t
unfolding split
split-append sep [] t h = ground arith
split-append sep (c ∷ s) t (hc, hs) = rw (split-append sep s t hs) (ground (arith, hc))

pub split_single : (sep : ℕ) (s : Text) → Without sep s → split sep s ≡ s ∷ []
unfolding split
split_single sep [] h = refl
split_single sep (c ∷ s) (hc, hs) = rw (split_single sep s hs) (ground (arith, hc))

pub split_once-append :
    (sep : ℕ) (s t : Text) → Without sep s → split_once sep (s ++ sep ∷ t) ≡ some (s, t)
unfolding split_once
split_once-append sep [] t h = ground arith
split_once-append sep (c ∷ s) t (hc, hs) = rw (split_once-append sep s t hs) (ground (arith, hc))

pub split_once-none : (sep : ℕ) (s : Text) → Without sep s → split_once sep s ≡ none
unfolding split_once
split_once-none sep [] h = refl
split_once-none sep (c ∷ s) (hc, hs) = rw (split_once-none sep s hs) (ground (arith, hc))
