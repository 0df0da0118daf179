-- ===== src/Response/Request.antt =====
-- cgi.go, `CgiManager.Request`: the retries of a request whose connection breaks.
use pepperbus.Base.{
  ℕ, zero, suc, ◌+◌, ◌≤◌, ◌<◌, ◌≡◌, refl, Bool, true, false, ◌||◌, arith, if◌then◌else◌, inl, inr,
  Bool-cases, subst, ◌⊎◌,
}
use pepperbus.Base.Text.{Text, codes, contains}
use pepperbus.Response.{WorkerResponse}

-- What one call of `request` returns: `io.EOF` apart from the other errors, which have a message.
pub data Tried : Type 0 where
  replied : WorkerResponse → Tried
  end_of_file : Tried
  broke : Text → Tried

-- Whether `Request` tries again, as long as it may.
unfoldable pub is_transient : Tried → Bool
is_transient (replied r) = false
is_transient end_of_file = true
is_transient (broke e) = contains e (codes "reset by peer") || contains e (codes "broken pipe")

-- `attempt k new_conn` is the call number k; a retry wants a new connection. The result comes with
-- the number of calls that were made.
unfoldable pub request_from : (ℕ → Bool → Tried) → ℕ → ℕ → Bool → Tried × ℕ
unfolding is_transient
request_from attempt zero k new_conn = (attempt k new_conn, suc k)
request_from attempt (suc left) k new_conn =
    let again = request_from attempt left (suc k) true in
    if is_transient (attempt k new_conn) then again else (attempt k new_conn, suc k)

-- `Request`: at most five retries.
unfoldable pub request : (ℕ → Bool → Tried) → Bool → Tried × ℕ
unfolding request_from
request attempt new_conn = request_from attempt 5 0 new_conn

-- Whether call k was made with a new connection.
abbrev pub conn_of : Bool → ℕ → Bool
conn_of new_conn zero = new_conn
conn_of new_conn (suc k) = true

module _ (attempt : ℕ → Bool → Tried) (new_conn : Bool) where
  abbrev call : ℕ → Tried
  call k = attempt k (conn_of new_conn k)

  abbrev Answers : ℕ → ℕ → Type 0
  Answers left k =
      (m : ℕ) × (request_from attempt left k (conn_of new_conn k) ≡ (call m, suc m))
      × (m ≤ k + left)
      × ((i : ℕ) → k ≤ i → i < m → is_transient (call i) ≡ true)
      × (m < k + left → is_transient (call m) ≡ false)

  here_or_later : (k i : ℕ) → k ≤ i → (k ≡ i) ⊎ (suc k ≤ i)
  here_or_later k i h = omega (arith, h)

  request_from-Answers : (left k : ℕ) → Answers left k
  unfolding request_from
  request_from-Answers zero k = (
    k,
    refl,
    omega arith,
    λ i low high. absurd (omega (arith, low, high)),
    λ high. absurd (omega (arith, high)),
  )
  request_from-Answers (suc left) k = elim (Bool-cases (is_transient (call k))) [
    | inr final ↦ (
      k,
      rw final refl,
      omega arith,
      λ i low high. absurd (omega (arith, low, high)),
      λ high. final,
    )
    | inl broken ↦
        let (m, r, bound, before, after) = request_from-Answers left (suc k) in
        (
          m,
          rw broken r,
          omega (arith, bound),
          λ i low high. elim (here_or_later k i low) [
            | inl same ↦ subst (λ j. is_transient (call j) ≡ true) same broken
            | inr later ↦ before i later high
          ],
          λ high. after (omega (arith, high)),
        )
  ]

  -- `Request` makes at most six calls, all but the first on a new connection. Every call but the last
  -- one ended in an EOF, "reset by peer" or "broken pipe"; the answer is that of the last call, and
  -- where fewer than six were made, that call did not end in such an error.
  pub request_lem :
      (m : ℕ) × (request attempt new_conn ≡ (attempt m (conn_of new_conn m), suc m))
      × (suc m ≤ 6)
      × ((i : ℕ) → i < m → is_transient (attempt i (conn_of new_conn i)) ≡ true)
      × (suc m < 6 → is_transient (attempt m (conn_of new_conn m)) ≡ false)
  unfolding request
  request_lem =
      let (m, r, bound, before, after) = request_from-Answers 5 0 in
      (
        m,
        r,
        omega (arith, bound),
        λ i high. before i (omega arith) high,
        λ high. after (omega (arith, high)),
      )
