-- ===== src/Redis/Call/Balance.antt =====
-- conn.go, `CallN`: no connection of the pool is lost, and no command is tried too often.
use pepperbus.Base.{
  ℕ, zero, suc, ◌≤◌, ◌≡◌, refl, ap, List, [], ◌∷◌, true, Option, none, some, arith, inl, inr,
  Option-cases,
}
use pepperbus.Redis.Call.{
  Exchange, Outcome, outcome, Client, marked, Event, sent, pushed, popped, call, tries, call_n,
}

-- How often each event stands in a list.
abbrev pub pushes : List Event → ℕ
pushes [] = 0
pushes (sent ∷ es) = pushes es
pushes (pushed ∷ es) = suc (pushes es)
pushes (popped ∷ es) = pushes es

abbrev pub pops : List Event → ℕ
pops [] = 0
pops (sent ∷ es) = pops es
pops (pushed ∷ es) = pops es
pops (popped ∷ es) = suc (pops es)

abbrev pub sends : List Event → ℕ
sends [] = 0
sends (sent ∷ es) = suc (sends es)
sends (pushed ∷ es) = sends es
sends (popped ∷ es) = sends es

abbrev Balanced : ℕ → Outcome × List Event → Type 0
Balanced limit (r, es) = (pushes es ≡ suc (pops es)) × (sends es ≤ limit) × (1 ≤ sends es)

-- A connection of the pool that goes back by itself.
abbrev fresh : Client → Client
fresh d = record d { err = none; is_once = true }

abbrev next_try :
    (ℕ → Exchange) → (ℕ → Option Client) → ℕ → ℕ → Outcome → Option Client → Outcome × List Event
next_try exchange pop left i r none = (r, sent ∷ pushed ∷ [])
next_try exchange pop left i r (some d) =
    let (r', more) = tries exchange pop true left (suc i) (fresh d) in
    (r', sent ∷ pushed ∷ popped ∷ more)

module _ (exchange : ℕ → Exchange) (pop : ℕ → Option Client) where
  -- A try that is not the last one, on such a connection.
  tries_lem :
      (left i : ℕ) (d : Client)
      → d.has_pool ≡ true
      → tries exchange pop true (suc left) i (fresh d) ≡ (elim (marked (exchange i)) [
        | none ↦ (outcome (exchange i), sent ∷ pushed ∷ [])
        | some e ↦ next_try exchange pop left i (outcome (exchange i)) (pop i)
      ])
  unfolding tries call
  tries_lem left i d e = elim (Option-cases (marked (exchange i))) [
    | inl fine ↦ rw fine (rw (e, call) refl)
    | inr (message, failed) ↦ elim (Option-cases (pop i)) [
      | inl empty ↦ rw (failed, empty) (rw (e, call) refl)
      | inr (c, there) ↦ rw (failed, there) (rw (e, call) refl)
    ]
  ]

  -- The last try.
  last_lem :
      (i : ℕ) (d : Client)
      → d.has_pool ≡ true
      → tries exchange pop true zero i (fresh d) ≡ (outcome (exchange i), sent ∷ pushed ∷ [])
  unfolding tries call
  last_lem i d e = rw e refl

  abbrev Pooled : Type 0
  Pooled = (i : ℕ) (d : Client) → pop i ≡ some d → d.has_pool ≡ true

  more-Balanced :
      (limit : ℕ) (r r' : Outcome) (es : List Event)
      → Balanced limit (r, es)
      → Balanced (suc limit) (r', sent ∷ pushed ∷ popped ∷ es)
  more-Balanced limit r r' es (even, few, some_call) =
      (ap suc even, omega (arith, few), omega arith)

  tries-Balanced :
      (left i : ℕ) (d : Client)
      → Pooled
      → d.has_pool ≡ true
      → Balanced (suc left) (tries exchange pop true left i (fresh d))
  tries-Balanced zero i d pooled e = rw (last_lem i d e) (refl, omega arith, omega arith)
  tries-Balanced (suc left) i d pooled e = elim (Option-cases (marked (exchange i))) [
    | inl fine ↦ rw (tries_lem left i d e, fine) (refl, omega arith, omega arith)
    | inr (message, failed) ↦ elim (Option-cases (pop i)) [
      | inl empty ↦ rw (tries_lem left i d e, failed, empty) (refl, omega arith, omega arith)
      | inr (c, there) ↦
          let later = tries-Balanced left (suc i) c pooled (pooled i c there) in
          rw (tries_lem left i d e, failed, there)
            (more-Balanced (suc left) (tries exchange pop true left (suc i) (fresh c)).0
              (outcome (exchange i)) (tries exchange pop true left (suc i) (fresh c)).1 later)
    ]
  ]

  -- `CallN` on a connection that came from `MultiPool.Call`, over a pool whose connections know it,
  -- sends the command at least once and at most `retries` + 1 times, and puts exactly as many
  -- connections back as it had, the first one and every one that it took, whatever the network and
  -- the pool do.
  pub call_n_balanced :
      (retries : ℕ) (c : Client)
      → c.err ≡ none
      → c.is_once ≡ true
      → c.has_pool ≡ true
      → ((i : ℕ) (d : Client) → pop i ≡ some d → d.has_pool ≡ true)
      → (let (r, events) = call_n exchange pop retries c in
          (pushes events ≡ suc (pops events)) × (sends events ≤ suc retries) × (1 ≤ sends events))
  unfolding call_n
  call_n_balanced retries c good once pool pooled =
      rw (good, once) (tries-Balanced retries 0 c pooled pool)
