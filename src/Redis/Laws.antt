-- ===== src/Redis/Laws.antt =====
-- The laws of a healthy server, read through the client functions.
use mathlib.Core.List.{reverse-cons}
use pepperbus.Base.{
  ◌≡◌, refl, List, [], ◌∷◌, ◌++◌, length, unsnoc-append, if◌then◌else◌, false, reverse,
  reverse-reverse,
}
use pepperbus.Base.Int.{pos}
use pepperbus.Base.Text.{Text, text_eq, text_eq_refl}
use pepperbus.Redis
use pepperbus.Redis.Wire.{Server, key_not_exist, ok, err}
use pepperbus.Redis.Healthy.{Healthy, present}

module _ (server : Server) (h : Healthy server) where
  open server use {Store}

  pub rpop_last :
      (k : Text) (s : Store) (xs : List Text) (v : Text)
      → h.items s k ≡ xs ++ v ∷ []
      → ((Redis.rpop server k s).0 ≡ ok v) × (h.items (Redis.rpop server k s).1 k ≡ xs)
  unfolding Redis.rpop
  rpop_last k s xs v e = (
    rw (h.rpop_reply k s, e, unsnoc-append xs v) refl,
    rw (h.rpop_items k s k, text_eq_refl k, e, unsnoc-append xs v) refl,
  )

  pub rpop_empty :
      (k : Text) (s : Store)
      → h.items s k ≡ []
      → ((Redis.rpop server k s).0 ≡ err key_not_exist) × (h.items (Redis.rpop server k s).1 k ≡ [])
  unfolding Redis.rpop
  rpop_empty k s e =
      (rw (h.rpop_reply k s, e) refl, rw (h.rpop_items k s k, text_eq_refl k, e) refl)

  pub rpop_other :
      (k j : Text) (s : Store)
      → text_eq k j ≡ false
      → h.items (Redis.rpop server k s).1 j ≡ h.items s j
  unfolding Redis.rpop
  rpop_other k j s e = rw (h.rpop_items k s j, e) refl

  pub llen_answer :
      (k : Text) (s : Store)
      → ((Redis.llen server k s).0 ≡ ok (pos (length (h.items s k))))
        × ((j : Text) → h.items (Redis.llen server k s).1 j ≡ h.items s j)
  unfolding Redis.llen
  llen_answer k s = (rw (h.llen_reply k s) refl, h.llen_items k s)

  pub del_answer :
      (k : Text) (s : Store)
      → ((Redis.del server k s).0 ≡ ok (pos (present (h.items s k))))
        × ((j : Text)
            → h.items (Redis.del server k s).1 j ≡ (if text_eq k j then [] else h.items s j))
  unfolding Redis.del
  del_answer k s = (rw (h.del_reply k s) refl, h.del_items k s)

  -- The values of a list, oldest first.
  unfoldable pub values : Text → Store → List Text
  values k s = reverse (h.items s k)

  pub values_last :
      (k : Text) (s : Store) (v : Text) (rest : List Text)
      → values k s ≡ v ∷ rest
      → h.items s k ≡ reverse rest ++ v ∷ []
  unfolding values
  values_last k s v rest e = rw (← reverse-reverse (h.items s k), e) (reverse-cons v rest)

  pub values-nil : (k : Text) (s : Store) → values k s ≡ [] → h.items s k ≡ []
  unfolding values
  values-nil k s e = rw (← reverse-reverse (h.items s k), e) refl

  -- RPOPLPUSH moves the oldest value behind the newest one of another list.
  pub rpoplpush_oldest :
      (k d : Text) (s : Store) (v : Text) (rest : List Text)
      → text_eq k d ≡ false
      → values k s ≡ v ∷ rest
      → ((Redis.rpoplpush server k d s).0 ≡ ok v)
        × (values k (Redis.rpoplpush server k d s).1 ≡ rest)
        × (values d (Redis.rpoplpush server k d s).1 ≡ values d s ++ v ∷ [])
  unfolding Redis.rpoplpush
  rpoplpush_oldest k d s v rest apart e =
      let last = values_last k s v rest e in
      (
        rw (h.rpoplpush_reply k d s, last, unsnoc-append (reverse rest) v) refl,
        unfold values in
            rw
              (
                h.rpoplpush_items k d s k apart,
                text_eq_refl k,
                last,
                unsnoc-append (reverse rest) v,
              )
              (reverse-reverse rest),
        unfold values in
            rw
              (
                h.rpoplpush_items k d s d apart,
                apart,
                text_eq_refl d,
                last,
                unsnoc-append (reverse rest) v,
              )
              (reverse-cons v (h.items s d)),
      )

  pub rpoplpush_empty :
      (k d : Text) (s : Store)
      → text_eq k d ≡ false
      → values k s ≡ []
      → ((Redis.rpoplpush server k d s).0 ≡ err key_not_exist)
        × (values k (Redis.rpoplpush server k d s).1 ≡ [])
        × (values d (Redis.rpoplpush server k d s).1 ≡ values d s)
  unfolding Redis.rpoplpush
  rpoplpush_empty k d s apart e =
      let none_left = values-nil k s e in
      (
        rw (h.rpoplpush_reply k d s, none_left) refl,
        unfold values in rw (h.rpoplpush_items k d s k apart, text_eq_refl k, none_left) refl,
        unfold values in
            rw (h.rpoplpush_items k d s d apart, apart, text_eq_refl d, none_left) refl,
      )
