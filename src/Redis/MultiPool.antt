-- ===== src/Redis/MultiPool.antt =====
-- utility/msgRedis/pool.go: the pools of several servers, by their addresses. A connection is popped
-- from the pool that is found here.
pub mod ByKey
use Prim.Native.Nat.{bit_xor}
use pepperbus.Base.{
  ℕ, zero, suc, ◌+◌, ◌*◌, ◌/◌, ◌%◌, ◌^◌, List, [], ◌∷◌, ◌++◌, Bool, true, false, Option, none, some,
  length, if◌then◌else◌,
}
use pepperbus.Base.Int.{ℤ}
use pepperbus.Base.Text.{Text, text_eq, split}
use pepperbus.Base.Map.{Map, lookup, insert, delete, is_some}
use pepperbus.Redis.Pool.{Pool, new_pool}

pub record MultiPool : Type 0 where
  pub pools : Map Pool
  pub servers : List Text
  pub max_conn_num : ℤ
  pub max_idle_num : ℤ
  pub max_idle_seconds : ℤ

-- "host:port" or "host:port:password": the address to dial and the password.
abbrev address_parts : Text → List Text → Option (Text × Text)
address_parts address (host ∷ port ∷ password ∷ []) = some (host ++ b':' ∷ port, password)
address_parts address (host ∷ port ∷ []) = some (address, [])
address_parts address _ = none

unfoldable pub parse_address : Text → Option (Text × Text)
parse_address address = address_parts address (split b':' address)

abbrev add_new : Text → Option (Text × Text) → MultiPool → Option Pool × MultiPool
add_new address none mp = (none, mp)
add_new address (some (server, password)) mp =
    let pool = new_pool server password mp.max_conn_num mp.max_idle_num mp.max_idle_seconds in
    (
      some pool,
      record mp { pools = insert address pool mp.pools; servers = mp.servers ++ address ∷ [] },
    )

abbrev add_unless : Text → Option Pool → MultiPool → Option Pool × MultiPool
add_unless address (some pool) mp = (some pool, mp)
add_unless address none mp = add_new address (parse_address address) mp

-- `AddPool`: `none` is an invalid address.
unfoldable pub add_pool : Text → MultiPool → Option Pool × MultiPool
unfolding parse_address
add_pool address mp = add_unless address (lookup address mp.pools) mp

unfoldable pub add_pools : List Text → MultiPool → MultiPool
unfolding add_pool
add_pools [] mp = mp
add_pools (address ∷ addresses) mp = add_pools addresses (add_pool address mp).1

-- The zero values of a slice of strings.
abbrev pub blanks : List Text → List Text
blanks [] = []
blanks (a ∷ addresses) = [] ∷ blanks addresses

-- `NewMultiPool`: `servers` is made with one blank for each address, and the addresses come behind.
unfoldable pub new_multi_pool : List Text → ℤ → ℤ → ℤ → MultiPool
unfolding add_pools
new_multi_pool addresses max_conn_num max_idle_num max_idle_seconds = add_pools addresses (record {
  pools = [];
  servers = blanks addresses;
  max_conn_num = max_conn_num;
  max_idle_num = max_idle_num;
  max_idle_seconds = max_idle_seconds;
})

-- The slice without its first element of that name.
unfoldable pub remove_first : Text → List Text → List Text
remove_first a [] = []
remove_first a (b ∷ bs) = let rest = remove_first a bs in if text_eq b a then bs else b ∷ rest

-- `DelPool`.
unfoldable pub del_pool : Text → MultiPool → MultiPool
unfolding remove_first
del_pool address mp = record mp {
  pools = delete address mp.pools;
  servers = remove_first address mp.servers;
}

abbrev put_new : Text → Option (Text × Text) → ℤ → ℤ → ℤ → MultiPool → Bool × MultiPool
put_new dst none max_conn_num max_idle_num max_idle_seconds mp = (false, mp)
put_new dst (some (server, password)) max_conn_num max_idle_num max_idle_seconds mp = (
  true,
  record mp {
    pools =
        insert dst (new_pool server password max_conn_num max_idle_num max_idle_seconds) mp.pools;
  },
)

-- `ReplacePool`: its last loop assigns to the loop's variable, which leaves `servers` as it is.
unfoldable pub replace_pool : Text → Text → ℤ → ℤ → ℤ → MultiPool → Bool × MultiPool
unfolding parse_address
replace_pool src dst max_conn_num max_idle_num max_idle_seconds mp =
    let mp' = record mp { pools = delete src mp.pools } in
    let replaced = put_new dst (parse_address dst) max_conn_num max_idle_num max_idle_seconds mp' in
    if is_some (lookup src mp.pools) then replaced else (false, mp')

-- The pool of `PopByAddr`, which adds it where it is missing.
unfoldable pub pool_by_addr : Text → MultiPool → Option Pool × MultiPool
unfolding add_pool
pool_by_addr address mp = add_pool address mp

abbrev pub word : ℕ → ℕ
word n = n % 2 ^ 32

unfoldable pub mix : ℕ → Text → ℕ
mix hash [] = hash
mix hash (c ∷ key) =
    let added = word (hash + c) in
    let spread = word (added + word (added * 2 ^ 10)) in mix (bit_xor spread (spread / 2 ^ 6)) key

-- `Sum`, on uint32.
unfoldable pub sum : Text → ℕ
unfolding mix
sum key =
    let hash = mix 0 key in
    let spread = word (hash + word (hash * 2 ^ 3)) in
    let mixed = bit_xor spread (spread / 2 ^ 11) in word (mixed + word (mixed * 2 ^ 15))

unfoldable pub nth : ℕ → List Text → Option Text
nth n [] = none
nth zero (x ∷ xs) = some x
nth (suc n) (x ∷ xs) = nth n xs

abbrev pool_at : Option Text → Map Pool → Option (Option Pool)
pool_at none pools = none
pool_at (some address) pools = some (lookup address pools)

abbrev pub pool_of_count : ℕ → Text → MultiPool → Option (Option Pool)
pool_of_count zero key mp = none
pool_of_count (suc n) key mp = pool_at (nth (sum key % suc n) mp.servers) mp.pools

-- The pool of `PopByKey`; `none` is a panic, for an index out of range or no pool at all.
unfoldable pub pool_by_key : Text → MultiPool → Option (Option Pool)
unfolding sum nth
pool_by_key key mp = pool_of_count (length mp.pools) key mp
