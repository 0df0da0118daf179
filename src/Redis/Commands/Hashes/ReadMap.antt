-- ===== src/Redis/Commands/Hashes/ReadMap.antt =====
-- commands.go, HMSET and HGETALLMAP: the map that is read is the map that was written.
use pepperbus.Base.{
  ℕ, zero, suc, ◌<◌, ◌≡◌, refl, ap, sym, ◌∙◌, [], ◌∷◌, true, Option, none, some, length, arith,
  Bool-cases, inl, inr,
}
use pepperbus.Base.Int.{ℤ}
use pepperbus.Base.Text.{Text, codes, text_eq, text_eq_iff, text_eq_refl}
use pepperbus.Base.Map.{Map, lookup, insert, lookup-insert, Distinct, is_some}
use pepperbus.Redis.Call.{answer}
use pepperbus.Redis.Resp.{
  Arg, arg_text, arg_bytes, v_int, v_bytes, v_array, Values, none_left, and_then,
}
use pepperbus.Redis.Commands.{Conn, Out, out, fields_of, key_not_exist}
use pepperbus.Redis.Commands.Hashes.{map_loop, is_even, map_of, hgetall, hgetallmap, hmset}

-- A map written into another, entry by entry, and as the elements of a reply.
unfoldable pub insert_all : Map Text → Map Text → Map Text
insert_all [] m = m
insert_all ((k, v) ∷ kv) m = insert_all kv (insert k v m)

unfoldable pub flat : Map Text → Values
flat [] = none_left
flat ((k, v) ∷ kv) = and_then (v_bytes k) (and_then (v_bytes v) (flat kv))

-- The texts of the values.
abbrev pub printed : Map Arg → Map Text
printed [] = []
printed ((k, v) ∷ kv) = (k, arg_bytes v) ∷ printed kv

flat-even : (kv : Map Text) → is_even (flat kv) ≡ true
unfolding flat
flat-even [] = refl
flat-even ((k, v) ∷ kv) = rw (flat-even kv) refl

map_loop-flat :
    (fuel : ℕ) (kv m : Map Text)
    → length kv < fuel
    → map_loop fuel (flat kv) m ≡ some (out (insert_all kv m) none)
unfolding map_loop flat insert_all
map_loop-flat zero kv m h = absurd (omega (arith, h))
map_loop-flat (suc fuel) [] m h = refl
map_loop-flat (suc fuel) ((k, v) ∷ kv) m h = map_loop-flat fuel kv (insert k v m) (omega (arith, h))

-- What the loop makes of the fields of a hash.
abbrev pub hash_of : Map Text → Out (Map Text)
hash_of [] = out [] (some key_not_exist)
hash_of (field ∷ kv) = out (insert_all (field ∷ kv) []) none

map_of-flat :
    (fuel : ℕ) (kv : Map Text)
    → length kv < fuel
    → map_of fuel (out (flat kv) none) ≡ some (hash_of kv)
map_of-flat fuel [] h = unfold flat in refl
map_of-flat fuel ((k, v) ∷ kv) h =
    let even : is_even (and_then (v_bytes k) (and_then (v_bytes v) (flat kv))) ≡ true =
      rw (flat-even kv) refl in
    unfold flat in rw even (unfold flat in map_loop-flat fuel ((k, v) ∷ kv) [] h)

-- The entries of a map without a repeated key are found among the others.
pub lookup-insert_all :
    (j : Text) (kv m : Map Text)
    → Distinct kv
    → lookup j (insert_all kv m) ≡ (elim (lookup j kv) [ none ↦ lookup j m | some v ↦ some v ])
unfolding insert_all lookup
lookup-insert_all j [] m h = refl
lookup-insert_all j ((k, v) ∷ kv) m (new, h) = elim (Bool-cases (text_eq k j)) [
  | inl same ↦
      let gone : lookup j kv ≡ none =
        ap (λ i. lookup i kv) (sym ((text_eq_iff k j).0 same)) ∙ new in
      lookup-insert_all j kv (insert k v m) h ∙ rw (gone, lookup-insert k j v m, same) refl
  | inr other ↦
      let below : lookup j (insert k v m) ≡ lookup j m = lookup-insert k j v m ∙ rw other refl in
      lookup-insert_all j kv (insert k v m) h
      ∙ (ap (λ x. elim (lookup j kv) [ none ↦ x | some w ↦ some w ]) below ∙ rw other refl)
]

spin :
    (fuel : ℕ) (n : ℤ) (vs : Values) (m : Map Text) → map_loop fuel (and_then (v_int n) vs) m ≡ none
unfolding map_loop
spin zero n vs m = refl
spin (suc fuel) n vs m = spin fuel n vs m

insert_all-has :
    (j : Text) (kv m : Map Text)
    → is_some (lookup j m) ≡ true
    → is_some (lookup j (insert_all kv m)) ≡ true
unfolding insert_all
insert_all-has j [] m h = h
insert_all-has j ((k, v) ∷ kv) m h = insert_all-has j kv (insert k v m) (
    rw (lookup-insert k j v m)
      (elim (Bool-cases (text_eq k j)) [ inl same ↦ rw same refl | inr other ↦ rw other h ]))

written-has :
    (k : Text) (v : Text) (kv m : Map Text) → is_some (lookup k (insert_all ((k, v) ∷ kv) m)) ≡ true
unfolding insert_all
written-has k v kv m =
    insert_all-has k kv (insert k v m) (rw (lookup-insert k k v m, text_eq_refl k) refl)

pub found_again : (o : Option Text) → (elim o [ none ↦ none | some v ↦ some v ]) ≡ o
found_again none = refl
found_again (some v) = refl

-- The fields of a hash that has one are read as a map with the same entries.
read_hash :
    (fuel : ℕ) (j : Text) (fs : Map Text)
    → Distinct fs
    → is_some (lookup j fs) ≡ true
    → length fs < fuel
    → (m : Map Text) × (map_of fuel (out (flat fs) none) ≡ some (out m none))
      × ((i : Text) → lookup i m ≡ lookup i fs)
read_hash fuel j [] d h few = unfold lookup in ground (arith, h)
read_hash fuel j (field ∷ fs) d h few = (
  insert_all (field ∷ fs) [],
  map_of-flat fuel (field ∷ fs) few,
  λ i.
      lookup-insert_all i (field ∷ fs) [] d
      ∙ (unfold lookup in found_again (lookup i (field ∷ fs))),
)

-- What Redis documents of its hashes: a view of every key's fields, none of them twice, what
-- HGETALL answers, and the fields after HMSET (in no particular order).
pub record HashLaws (conn : Conn) : Type 0 where
  pub fields : conn.Store → Text → Map Text
  pub distinct : (s : conn.Store) (key : Text) → Distinct (fields s key)
  pub hgetall_reply :
      (key : Text) (s : conn.Store)
      → (conn.call_n (codes "HGETALL") (arg_text key ∷ []) s).0
        ≡ answer (v_array (flat (fields s key)))
  pub hmset_fields :
      (key : Text) (kv : Map Arg) (s : conn.Store) (j : Text)
      → lookup j (fields (conn.call_n (codes "HMSET") (arg_text key ∷ fields_of kv) s).1 key)
        ≡ lookup j (insert_all (printed kv) (fields s key))

module _ (conn : Conn) (laws : HashLaws conn) where
  open conn use {Store}

  -- HGETALLMAP after an HMSET of at least one field returns, without an error, a map with the
  -- fields that were there and the new ones, whose values are the printed ones. (For a server that
  -- keeps hashes; fuel beyond the number of fields suffices.)
  pub hgetallmap-hmset :
      (fuel : ℕ) (key field : Text) (value : Arg) (kv : Map Arg) (s : Store)
      → let s' = (hmset conn key ((field, value) ∷ kv) s).1 in
        length (laws.fields s' key) < fuel
        → (m : Map Text) × ((hgetallmap conn fuel key s').0 ≡ some (out m none))
          × ((j : Text)
              → lookup j m
                ≡ lookup j (insert_all (printed ((field, value) ∷ kv)) (laws.fields s key)))
  unfolding hgetallmap hgetall hmset
  hgetallmap-hmset fuel key field value kv s few =
      let s' = (hmset conn key ((field, value) ∷ kv) s).1 in
      let there = laws.hmset_fields key ((field, value) ∷ kv) s in
      let (m, read, same) =
        read_hash fuel field (laws.fields s' key) (laws.distinct s' key)
          (ap is_some (there field)
            ∙ written-has field (arg_bytes value) (printed kv) (laws.fields s key))
          few in
      (m, rw (laws.hgetall_reply key s') read, λ j. same j ∙ there j)

-- A reply of an even number of elements, the first of which is no text: HGETALLMAP does not return,
-- whatever the fuel.
pub hgetallmap_spins :
    (conn : Conn) (fuel : ℕ) (key : Text) (n : ℤ) (vs : Values) (s : conn.Store)
    → (conn.call_n (codes "HGETALL") (arg_text key ∷ []) s).0
      ≡ answer (v_array (and_then (v_int n) vs))
    → is_even (and_then (v_int n) vs) ≡ true
    → (hgetallmap conn fuel key s).0 ≡ none
unfolding hgetallmap hgetall
hgetallmap_spins conn fuel key n vs s reply even = rw (reply) (rw even (spin fuel n vs []))
