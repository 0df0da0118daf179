-- ===== src/Process/Stop.antt =====
-- proc.go, `StopProcess`: which signals a process gets, and what is returned.
use pepperbus.Base.{
  ℕ, zero, suc, ◌+◌, ◌<◌, ◌≤◌, ◌≡◌, refl, ap, sym, ◌==◌, ==_iff, ◌∙◌, Bool, true, false, List, [],
  ◌∷◌, Option, none, if◌then◌else◌, Bool-cases, inl, inr, arith,
}
use pepperbus.Base.Int.{ℤ, pos, ltb_ℤ}
use pepperbus.Process.{
  Errno, Signal, interrupt, probe, force, is_gone, Stopped, unless_gone, wait_for, stop_process,
}

abbrev probes : ℕ → List Signal
probes zero = force ∷ probe ∷ []
probes (suc left) = probe ∷ probes left

-- SIGINT, ten questions, SIGKILL and a last question.
abbrev pub plan : List Signal
plan = interrupt ∷ probes 10

-- Whether SIGKILL is among the signals.
abbrev pub forced : List Signal → Bool
forced [] = false
forced (interrupt ∷ rest) = forced rest
forced (probe ∷ rest) = forced rest
forced (force ∷ rest) = true

module _ (kill : ℕ → Option Errno) where
  -- The part of a plan up to the signal that found no process, the first being signal i, and what
  -- is returned: nothing in that case, and the last answer otherwise.
  abbrev pub up_to_gone : ℕ → List Signal → List Signal
  up_to_gone i [] = []
  up_to_gone i (signal ∷ rest) =
      let more = up_to_gone (suc i) rest in if is_gone (kill i) then signal ∷ [] else signal ∷ more

  abbrev pub last_answer : ℕ → Option Errno → List Signal → Option Errno
  last_answer i e [] = e
  last_answer i e (signal ∷ rest) =
      let more = last_answer (suc i) (kill i) rest in if is_gone (kill i) then none else more

  abbrev Follows : ℕ → Option Errno → List Signal → Stopped → Type 0
  Follows i e signals r = (r.sent ≡ up_to_gone i signals) × (r.error ≡ last_answer i e signals)

  -- One signal in front of a plan that is followed.
  unless_gone-Follows :
      (signal : Signal) (i : ℕ) (e : Option Errno) (rest : List Signal) (next : Stopped)
      → Follows (suc i) (kill i) rest next
      → Follows i e (signal ∷ rest) (unless_gone signal (kill i) next)
  unless_gone-Follows signal i e rest next (sent, error) = elim (Bool-cases (is_gone (kill i))) [
    | inl gone ↦ rw gone (refl, refl)
    | inr there ↦ rw there (ap (◌∷◌ signal) sent, error)
  ]

  wait_for-Follows :
      (left i : ℕ) (e : Option Errno) → Follows i e (probes left) (wait_for kill left i)
  unfolding wait_for
  wait_for-Follows zero i e = unless_gone-Follows force i e (probe ∷ []) _ (
      unless_gone-Follows probe (suc i) (kill i) [] (record { error = kill (suc i); sent = [] })
        (refl, refl))
  wait_for-Follows (suc left) i e =
      unless_gone-Follows probe i e (probes left) (wait_for kill left (suc i))
        (wait_for-Follows left (suc i) (kill i))

  -- Every signal from i on, and before n, found the process.
  abbrev Found : ℕ → ℕ → Type 0
  Found i n = (k : ℕ) → i ≤ k → k < n → is_gone (kill k) ≡ false

  -- A plan that gets to SIGKILL found the process with every signal before.
  Found-first :
      (signal : Signal) (rest : List Signal) (i n : ℕ)
      → ((s : List Signal) → forced (signal ∷ s) ≡ forced s)
      → (forced (up_to_gone (suc i) rest) ≡ true → Found (suc i) n)
      → forced (up_to_gone i (signal ∷ rest)) ≡ true
      → Found i n
  Found-first signal rest i n plain later h k low high = elim (Bool-cases (is_gone (kill i))) [
    | inl gone ↦ ground (arith, rw gone at h, plain [])
    | inr there ↦ elim (Bool-cases (k == i)) [
      | inl same ↦ rw ((==_iff k i).0 same) there
      | inr other ↦
          later (sym (plain (up_to_gone (suc i) rest)) ∙ rw there at h) k
            (ground (arith, low, other)) high
    ]
  ]

  Found-probes : (left i : ℕ) → forced (up_to_gone i (probes left)) ≡ true → Found i (i + left)
  Found-probes zero i h k low high = absurd (omega (arith, low, high))
  Found-probes (suc left) i h k low high =
      Found-first probe (probes left) i (suc i + left) (λ s. refl) (Found-probes left (suc i)) h k
        low (omega (arith, high))

  -- For a process (its number is not negative) `StopProcess` sends SIGINT, ten times the signal 0,
  -- SIGKILL and the signal 0, up to the first that finds no process; so SIGKILL is sent only where
  -- the eleven signals before it found the process. It returns no error if a signal found no
  -- process, and the answer to the last signal otherwise: no error as well, if the process is
  -- still there.
  pub stop_process_lem :
      (pid : ℤ)
      → ltb_ℤ pid (pos 0) ≡ false
      → let r = stop_process kill pid in
        (r.sent ≡ up_to_gone 0 plan)
        × (r.error ≡ last_answer 0 none plan)
        × (forced r.sent ≡ true → (k : ℕ) → k < 11 → is_gone (kill k) ≡ false)
  unfolding stop_process
  stop_process_lem pid h =
      let (sent, error) =
        unless_gone-Follows interrupt 0 none (probes 10) (wait_for kill 10 1)
          (wait_for-Follows 10 1 (kill 0)) in
      rw h (
        sent,
        error,
        λ f k small.
            Found-first interrupt (probes 10) 0 11 (λ s. refl) (Found-probes 10 1)
              (sym (ap forced sent) ∙ f) k (omega arith) small,
      )
