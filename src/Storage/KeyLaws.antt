-- ===== src/Storage/KeyLaws.antt =====
-- storage.go, `GetKey`: when the names of two lists are the same.
use pepperbus.Base.{
  ℕ, zero, suc, ◌≡◌, ◌≢◌, refl, ap, sym, ◌∙◌, [], ◌∷◌, ◌++◌, reverse, reverse-append,
  reverse-reverse, append_assoc, drop, Option, some, arith, All, false, inl, inr, Bool-cases,
}
use pepperbus.Base.Text.{Text, codes, text_eq, text_eq_iff, split_once}
use pepperbus.Storage.Key.{
  QueueTyp, common_queue, retry_queue, timeout_queue, list_name, get_key, append_cancel,
}

abbrev tail_of : QueueTyp → Text
tail_of a = codes "::" ++ list_name a

reverse-injective : (s t : Text) → reverse s ≡ reverse t → s ≡ t
reverse-injective s t e = sym (reverse-reverse s) ∙ ap reverse e ∙ reverse-reverse t

abbrev byte_at : ℕ → Text → ℕ
byte_at n [] = 0
byte_at zero (c ∷ s) = c
byte_at (suc n) (c ∷ s) = byte_at n s

kinds :
    (s t : Text) (a b : QueueTyp)
    → reverse (tail_of a) ++ s ≡ reverse (tail_of b) ++ t
    → (s ≡ t) × (a ≡ b)
kinds s t common_queue common_queue e = (cc, refl)
kinds s t retry_queue retry_queue e = (cc, refl)
kinds s t timeout_queue timeout_queue e = (cc, refl)
kinds s t common_queue retry_queue e = absurd (omega (arith, ap (byte_at 0) e))
kinds s t common_queue timeout_queue e = absurd (omega (arith, ap (byte_at 1) e))
kinds s t retry_queue common_queue e = absurd (omega (arith, ap (byte_at 0) e))
kinds s t retry_queue timeout_queue e = absurd (omega (arith, ap (byte_at 0) e))
kinds s t timeout_queue common_queue e = absurd (omega (arith, ap (byte_at 1) e))
kinds s t timeout_queue retry_queue e = absurd (omega (arith, ap (byte_at 0) e))

topics : (t u : Text) (a b : QueueTyp) → t ++ tail_of a ≡ u ++ tail_of b → (t ≡ u) × (a ≡ b)
topics t u a b e =
    let flipped =
      sym (reverse-append t (tail_of a)) ∙ ap reverse e ∙ reverse-append u (tail_of b) in
    let (same, kind) = kinds (reverse t) (reverse u) a b flipped in
    (reverse-injective t u same, kind)

text_eq-false : (s t : Text) → s ≢ t → text_eq s t ≡ false
text_eq-false s t h = elim (Bool-cases (text_eq s t)) [
  | inl same ↦ absurd (h ((text_eq_iff s t).0 same))
  | inr other ↦ other
]

-- Within a queue, two lists are the same only for the same topic and the same kind.
pub get_key_topic :
    (q t u : Text) (a b : QueueTyp) → get_key q t a ≡ get_key q u b → (t ≡ u) × (a ≡ b)
unfolding get_key
get_key_topic q t u a b e = topics t u a b (
    (text_eq_iff _ _).0 (
      sym (append_cancel (codes "::") (t ++ tail_of a) (u ++ tail_of b))
      ∙ sym (append_cancel q _ _)
      ∙ (text_eq_iff _ _).1 e))

pub get_key_other_topic :
    (q t u : Text) (a b : QueueTyp) → t ≢ u → text_eq (get_key q t a) (get_key q u b) ≡ false
get_key_other_topic q t u a b h = text_eq-false _ _ (λ e. h (get_key_topic q t u a b e).0)

-- No byte of the name is a colon.
abbrev pub Colonless : Text → Type 0
Colonless = All (λ c. c ≢ b':')

split_colon : (q rest : Text) → Colonless q → split_once b':' (q ++ b':' ∷ rest) ≡ some (q, rest)
unfolding split_once
split_colon [] rest h = refl
split_colon (c ∷ q) rest (hc, h) = ground (arith, split_colon q rest h)

some_pair :
    {A B : Type 0} (a c : A) (b d : B)
    → ◌≡◌ {A = Option (A × B)} (some (a, b)) (some (c, d))
    → (a ≡ c) × (b ≡ d)
some_pair a c b d e = (cc, cc)

-- For queue names without a colon, two lists are the same only for the same queue, topic and kind.
pub get_key-injective :
    (q r t u : Text) (a b : QueueTyp)
    → Colonless q
    → Colonless r
    → get_key q t a ≡ get_key r u b
    → (q ≡ r) × (t ≡ u) × (a ≡ b)
unfolding get_key
get_key-injective q r t u a b hq hr e =
    let whole =
      sym (split_colon q (b':' ∷ (t ++ tail_of a)) hq)
      ∙ ap (split_once b':') e
      ∙ split_colon r (b':' ∷ (u ++ tail_of b)) hr in
    let (same, rest) = some_pair _ _ _ _ whole in
    let (topic, kind) = topics t u a b (ap (drop 1) rest) in (same, topic, kind)

-- A queue or topic name with "::" inside names the list of another queue: the topic "b::c" of the
-- queue "a" shares its lists with the topic "c" of the queue "a::b".
pub get_key_ambiguous :
    (a b c : Text) (typ : QueueTyp)
    → get_key a (b ++ codes "::" ++ c) typ ≡ get_key (a ++ codes "::" ++ b) c typ
unfolding get_key
get_key_ambiguous a b c typ = simp append_assoc
