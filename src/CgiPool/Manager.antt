-- ===== src/CgiPool/Manager.antt =====
-- cgi_conn_pool.go, `CgiConnPoolManager`: the pools by the keys of their configurations.
use pepperbus.Base.{◌≡◌, refl, sym, ap, ◌∙◌, [], ◌∷◌, Option, none, some, inl, inr, Bool-cases}
use pepperbus.Base.Int.{ℤ}
use pepperbus.Base.Text.{Text, text_eq, text_eq_iff}
use pepperbus.Base.Map.{Map, lookup, insert, lookup-insert, Distinct}
use pepperbus.CgiPool.{Callers, new_callers}

-- The fields of `CgiConfig` that the pools read, but for the times of a connection's client.
pub record CgiConfig : Type 0 where
  pub address : Text
  pub max_conn_num : ℤ
  pub reuse_counts : ℤ
  pub reuse_life : ℤ

-- `NewCgiConnPool`, before it dials its first connections.
abbrev pub fresh_pool : CgiConfig → Callers
fresh_pool conf = new_callers conf.max_conn_num conf.reuse_counts conf.reuse_life

-- `Init`: the pool of a key that is there already is replaced.
unfoldable pub init_pools : Map CgiConfig → Map Callers → Map Callers
init_pools [] pools = pools
init_pools ((key, conf) ∷ confs) pools = init_pools confs (insert key (fresh_pool conf) pools)

-- `Get`; `none` is the error "pool not found".
abbrev pub get_pool : Text → Map Callers → Option Callers
get_pool key pools = lookup key pools

abbrev fresh_or : Option CgiConfig → Option Callers → Option Callers
fresh_or none o = o
fresh_or (some conf) o = some (fresh_pool conf)

-- After `Init`, a key that is configured has a fresh pool of its configuration, and another key has
-- what it had before.
pub get_pool-init_pools :
    (key : Text) (confs : Map CgiConfig) (pools : Map Callers)
    → Distinct confs
    → get_pool key (init_pools confs pools) ≡ fresh_or (lookup key confs) (get_pool key pools)
unfolding init_pools lookup
get_pool-init_pools key [] pools d = refl
get_pool-init_pools key ((k, conf) ∷ confs) pools (new, d) = elim (Bool-cases (text_eq k key)) [
  | inl same ↦
      let gone : lookup key confs ≡ none =
        ap (λ i. lookup i confs) (sym ((text_eq_iff k key).0 same)) ∙ new in
      get_pool-init_pools key confs (insert k (fresh_pool conf) pools) d
      ∙ rw (gone, lookup-insert k key (fresh_pool conf) pools, same) refl
  | inr other ↦
      let below : lookup key (insert k (fresh_pool conf) pools) ≡ lookup key pools =
        lookup-insert k key (fresh_pool conf) pools ∙ rw other refl in
      get_pool-init_pools key confs (insert k (fresh_pool conf) pools) d
      ∙ (ap (fresh_or (lookup key confs)) below ∙ rw other refl)
]
