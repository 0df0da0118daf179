-- ===== src/Base/Map.antt =====
-- Go maps with string keys: association lists. An update keeps the place of a key, a new key goes to
-- the end, and reads and writes are those of the first entry with the key.
use mathlib.Core.Path.{◌≡◌, refl, sym, subst, ◌∙◌}
use mathlib.Core.Logic.{inl, inr}
use mathlib.Core.Bool.{Bool, true, false}
use mathlib.Core.List.{List, [], ◌∷◌}
use mathlib.Core.Option.{Option, none, some}
use native.Mathlib.Omega.{arith}
use pepperbus.Base.Tests.{if◌then◌else◌, Bool-cases}
use pepperbus.Base.Lists.{All}
use pepperbus.Base.Text.{Text, text_eq, text_eq_iff, text_eq_sound}

abbrev pub Map {ℓ} : Type ℓ → Type ℓ
Map V = List (Text × V)

module _ {ℓ} {V : Type ℓ} where
  unfoldable pub lookup : Text → Map V → Option V
  lookup k [] = none
  lookup k ((j, v) ∷ m) = if text_eq j k then some v else lookup k m

  unfoldable pub insert : Text → V → Map V → Map V
  insert k v [] = (k, v) ∷ []
  insert k v ((j, w) ∷ m) = if text_eq j k then (j, v) ∷ m else (j, w) ∷ insert k v m

  unfoldable pub delete : Text → Map V → Map V
  delete k [] = []
  delete k ((j, w) ∷ m) = let rest = delete k m in if text_eq j k then rest else (j, w) ∷ rest

  abbrev pub is_some : Option V → Bool
  is_some none = false
  is_some (some v) = true

  pub lookup-insert :
      (k j : Text) (v : V) (m : Map V)
      → lookup j (insert k v m) ≡ (if text_eq k j then some v else lookup j m)
  unfolding lookup insert
  lookup-insert k j v [] = refl
  lookup-insert k j v ((i, w) ∷ m) =
      ground (arith, text_eq_iff k j, text_eq_iff i k, text_eq_iff i j, lookup-insert k j v m)

  pub lookup-delete :
      (k j : Text) (m : Map V) → lookup j (delete k m) ≡ (if text_eq k j then none else lookup j m)
  unfolding lookup delete
  lookup-delete k j [] = ground arith
  lookup-delete k j ((i, w) ∷ m) =
      ground (arith, text_eq_iff k j, text_eq_iff i k, text_eq_iff i j, lookup-delete k j m)

  -- No key stands twice, as in a Go map.
  abbrev pub Distinct : Map V → Type ℓ
  Distinct [] = Unit
  Distinct ((k, v) ∷ m) = (lookup k m ≡ none) × Distinct m

  pub insert-Distinct : (k : Text) (v : V) (m : Map V) → Distinct m → Distinct (insert k v m)
  unfolding insert lookup
  insert-Distinct k v [] d = (refl, tt)
  insert-Distinct k v ((j, w) ∷ m) (fresh, d) = elim (Bool-cases (text_eq j k)) [
    | inl hit ↦ rw hit (fresh, d)
    | inr miss ↦ rw miss (
      lookup-insert k j v m ∙ ground (arith, text_eq_iff k j, text_eq_iff j k),
      insert-Distinct k v m d,
    )
  ]

  -- A predicate of the entries.
  pub insert-All {κ} :
      (P : Text × V → Type κ) (k : Text) (v : V) (m : Map V)
      → P (k, v)
      → All P m
      → All P (insert k v m)
  unfolding insert
  insert-All P k v [] here h = (here, tt)
  insert-All P k v ((j, w) ∷ m) here (first, h) = elim (Bool-cases (text_eq j k)) [
    | inl hit ↦ rw hit (subst (λ i. P (i, v)) (sym (text_eq_sound j k hit)) here, h)
    | inr miss ↦ rw miss (first, insert-All P k v m here h)
  ]

  pub lookup-All {κ} :
      (P : Text × V → Type κ) (k : Text) (v : V) (m : Map V)
      → All P m
      → lookup k m ≡ some v
      → P (k, v)
  unfolding lookup
  lookup-All P k v [] h e = ground (arith, e)
  lookup-All P k v ((j, w) ∷ m) (first, h) e = elim (Bool-cases (text_eq j k)) [
    | inl hit ↦
        let same : w ≡ v = ground (arith, hit, e) in
        subst (λ u. P (k, u)) same (subst (λ i. P (i, w)) (text_eq_sound j k hit) first)
    | inr miss ↦ lookup-All P k v m h (rw miss at e)
  ]
