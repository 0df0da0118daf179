-- ===== src/Redis/MultiPool/ByKey.antt =====
-- pool.go, `NewMultiPool` and `PopByKey`: the servers by key.
use pepperbus.Base.{
  ℕ, zero, suc, ◌+◌, ◌≤◌, ◌<◌, ◌%◌, ◌≡◌, ◌≢◌, refl, ap, sym, ◌∙◌, List, [], ◌∷◌, ◌++◌, Option, none,
  some, length, arith, inl, inr, Bool-cases, append_assoc, append-nil, Bool, true, false, ◌&&◌,
  ◌||◌, not, is_nil, Option-cases, if◌then◌else◌,
}
use pepperbus.Base.Int.{ℤ}
use pepperbus.Base.Text.{Text, text_eq, split}
use pepperbus.Base.Map.{Map, lookup, insert, lookup-insert, is_some}
use pepperbus.Redis.Pool.{Pool}
use pepperbus.Redis.MultiPool.{
  MultiPool, parse_address, add_new, add_unless, add_pool, add_pools, blanks, new_multi_pool, sum,
  nth, pool_by_key, pool_of_count, pool_at,
}

length-insert {ℓ} :
    {V : Type ℓ} (k : Text) (v : V) (m : Map V) → length (insert k v m) ≤ suc (length m)
unfolding insert
length-insert k v [] = omega arith
length-insert k v ((j, w) ∷ m) = elim (Bool-cases (text_eq j k)) [
  | inl hit ↦ rw hit (omega arith)
  | inr miss ↦ rw miss (omega (arith, length-insert k v m))
]

-- The blanks stand in front, the pools are no more than the addresses so far, and no pool has the
-- blank as its address.
record Blank (n : ℕ) (front : List Text) (mp : MultiPool) : Type 0 where
  behind : List Text
  servers : mp.servers ≡ front ++ behind
  few : length mp.pools ≤ n
  unnamed : lookup [] mp.pools ≡ none

unnamed_still :
    (address : Text) (pool : Pool) (m : Map Pool)
    → address ≢ []
    → lookup [] m ≡ none
    → lookup [] (insert address pool m) ≡ none
unfolding text_eq
unnamed_still [] pool m named e = absurd (named refl)
unnamed_still (c ∷ s) pool m named e = lookup-insert (c ∷ s) [] pool m ∙ e

add_new-Blank :
    (n : ℕ) (blank : List Text) (address : Text) (o : Option (Text × Text)) (mp : MultiPool)
    → (address ≡ [] → o ≡ none)
    → Blank n blank mp
    → Blank (suc n) blank (add_new address o mp).1
add_new-Blank n blank address none mp valid b = record {
  behind = b.behind;
  servers = b.servers;
  few = omega (arith, b.few);
  unnamed = b.unnamed;
}
add_new-Blank n blank address (some (server, password)) mp valid b = record {
  behind = b.behind ++ address ∷ [];
  servers = ap (λ s. s ++ address ∷ []) b.servers ∙ append_assoc blank b.behind (address ∷ []);
  few = omega (arith, b.few, length-insert address _ mp.pools);
  unnamed = unnamed_still address _ mp.pools (λ e. cc (valid e)) b.unnamed;
}

blank_invalid : (address : Text) → address ≡ [] → parse_address address ≡ none
blank_invalid address e = rw e (unfold parse_address split in refl)

add_unless-Blank :
    (n : ℕ) (blank : List Text) (address : Text) (o : Option Pool) (mp : MultiPool)
    → Blank n blank mp
    → Blank (suc n) blank (add_unless address o mp).1
add_unless-Blank n blank address (some pool) mp b = record {
  behind = b.behind;
  servers = b.servers;
  few = omega (arith, b.few);
  unnamed = b.unnamed;
}
add_unless-Blank n blank address none mp b =
    add_new-Blank n blank address (parse_address address) mp (blank_invalid address) b

add_pools-Blank :
    (n : ℕ) (blank addresses : List Text) (mp : MultiPool)
    → Blank n blank mp
    → Blank (length addresses + n) blank (add_pools addresses mp)
unfolding add_pools add_pool
add_pools-Blank n blank [] mp b = record {
  behind = b.behind;
  servers = b.servers;
  few = omega (arith, b.few);
  unnamed = b.unnamed;
}
add_pools-Blank n blank (a ∷ addresses) mp b =
    let mp' = (add_pool a mp).1 in
    let b' = add_unless-Blank n blank a (lookup a mp.pools) mp b in
    let all = add_pools-Blank (suc n) blank addresses mp' b' in
    record {
      behind = all.behind;
      servers = all.servers;
      few = omega (arith, all.few);
      unnamed = all.unnamed;
    }

nth_blank :
    (addresses : List Text) (behind : List Text) (i : ℕ)
    → i < length addresses
    → nth i (blanks addresses ++ behind) ≡ some []
unfolding nth
nth_blank [] behind i h = absurd (omega (arith, h))
nth_blank (a ∷ addresses) behind zero h = refl
nth_blank (a ∷ addresses) behind (suc i) h = nth_blank addresses behind i (omega (arith, h))

-- Whether an address among these has two or three fields.
abbrev pub some_valid : List Text → Bool
some_valid [] = false
some_valid (a ∷ addresses) = is_some (parse_address a) || some_valid addresses

is_nil-insert : (k : Text) (p : Pool) (m : Map Pool) → is_nil (insert k p m) ≡ false
unfolding insert
is_nil-insert k p [] = refl
is_nil-insert k p ((j, q) ∷ m) = elim (Bool-cases (text_eq j k)) [
  | inl hit ↦ rw hit refl
  | inr miss ↦ rw miss refl
]

found_nonempty : (a : Text) (p : Pool) (m : Map Pool) → lookup a m ≡ some p → is_nil m ≡ false
unfolding lookup
found_nonempty a p [] e = cc
found_nonempty a p (e' ∷ m) e = refl

add_new-empty :
    (a : Text) (o : Option (Text × Text)) (mp : MultiPool)
    → is_nil (add_new a o mp).1.pools ≡ (is_nil mp.pools && not (is_some o))
add_new-empty a none mp = ground arith
add_new-empty a (some (server, password)) mp = is_nil-insert a _ mp.pools ∙ ground arith

-- The pools stay empty as long as no address is valid.
add_pool-empty :
    (a : Text) (mp : MultiPool)
    → is_nil (add_pool a mp).1.pools ≡ (is_nil mp.pools && not (is_some (parse_address a)))
unfolding add_pool
add_pool-empty a mp = elim (Option-cases (lookup a mp.pools)) [
  | inl missing ↦ rw missing (add_new-empty a (parse_address a) mp)
  | inr (p, found) ↦
      let there = found_nonempty a p mp.pools found in rw found (ground (arith, there))
]

add_pools-empty :
    (addresses : List Text) (mp : MultiPool)
    → is_nil (add_pools addresses mp).pools ≡ (is_nil mp.pools && not (some_valid addresses))
unfolding add_pools
add_pools-empty [] mp = ground arith
add_pools-empty (a ∷ addresses) mp =
    add_pools-empty addresses (add_pool a mp).1 ∙ (rw (add_pool-empty a mp) (ground arith))

abbrev no_pools : ℕ → Bool
no_pools zero = true
no_pools (suc n) = false

count-Blank :
    (addresses : List Text) (n k : ℕ) (key : Text) (mp : MultiPool)
    → Blank k (blanks addresses) mp
    → n ≤ length addresses
    → pool_of_count n key mp ≡ (if no_pools n then none else some none)
count-Blank addresses zero k key mp b h = refl
count-Blank addresses (suc n) k key mp b h =
    let small : sum key % suc n < length addresses = omega (arith, h) in
    let first =
      ap (nth (sum key % suc n)) b.servers ∙ nth_blank addresses b.behind (sum key % suc n) small in
    ap (λ o. pool_at o mp.pools) first ∙ ap some b.unnamed

length-is_nil : (m : Map Pool) → no_pools (length m) ≡ is_nil m
length-is_nil [] = refl
length-is_nil (e ∷ m) = refl

-- A `MultiPool` that was made with a list of addresses: wherever `PopByKey` may look with a key,
-- among as many servers as there are addresses, stands a blank; and whatever the key, no pool is
-- found if one of the addresses was valid, and otherwise the search panics.
pub pool_by_key_blank :
    (addresses : List Text) (max_conn max_idle seconds : ℤ) (key : Text)
    → (let mp = new_multi_pool addresses max_conn max_idle seconds in
        (length mp.pools ≤ length addresses)
        × ((i : ℕ) → i < length addresses → nth i mp.servers ≡ some [])
        × (pool_by_key key mp ≡ (if some_valid addresses then some none else none)))
unfolding new_multi_pool pool_by_key lookup
pool_by_key_blank addresses max_conn max_idle seconds key =
    let mp = new_multi_pool addresses max_conn max_idle seconds in
    let empty : MultiPool = record {
      pools = [];
      servers = blanks addresses;
      max_conn_num = max_conn;
      max_idle_num = max_idle;
      max_idle_seconds = seconds;
    } in
    let start : Blank 0 (blanks addresses) empty = record {
      behind = [];
      servers = sym (append-nil (blanks addresses));
      few = omega arith;
      unnamed = refl;
    } in
    let made = add_pools-Blank 0 (blanks addresses) addresses empty start in
    let few : length mp.pools ≤ length addresses = omega (arith, made.few) in
    (
      few,
      (λ i h. ap (nth i) made.servers ∙ nth_blank addresses made.behind i h),
      count-Blank addresses (length mp.pools) _ key mp made few
          ∙ (rw (length-is_nil mp.pools, add_pools-empty addresses empty) (ground arith)),
    )
