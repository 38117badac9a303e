-- ===== src/Ledger/Retry/Attempts.antt =====
-- What a retried operation keeps, and how long it waits.
use dbank.Prelude.{ℕ, zero, suc, String, ◌≡◌, refl, inl, inr, true, List, [], ◌∷◌, Bool-cases}
use dbank.Status.{⊤, Error, Result, ok, err, Exec}
use dbank.Ledger.Retry.{
  Failures, Outcome, is_retriable, next_backoff, after_attempt, first_backoff, attempts,
  retry_mongo_operation,
}

module _ {S : Type 0} (fs : Failures) (operation : String) (fn : Exec S ⊤) (P : S → Type 0) where
  -- If the operation returns, one attempt returned, and began where the attempts before it, which
  -- failed, had led.
  abbrev pub Attempted : Result ⊤ → S → Type 0
  Attempted (ok _) s' = (s : S) × P s × (fn s ≡ (ok tt, s'))
  Attempted (err _) s' = P s'

  abbrev Ends : Outcome S → Type 0
  Ends o = Attempted o.result o.state

  module _ (keeps : (s s' : S) (e : Error) → P s → fn s ≡ (err e, s') → P s') where
    after_attempt-Ends :
        (n backoff : ℕ) (r : Result ⊤) (s s' : S) (rest : Error → Outcome S)
        → P s
        → fn s ≡ (r, s')
        → ((e : Error) → P s' → Ends (rest e))
        → Ends (after_attempt fs n backoff r s' rest)
    unfolding after_attempt
    after_attempt-Ends n backoff (ok _) s s' rest h e next = (s, h, e)
    after_attempt-Ends n backoff (err x) s s' rest h e next =
        elim (Bool-cases (is_retriable fs x)) [
          | inl again ↦ elim (Bool-cases (fs.done n)) [
            | inl over ↦ rw (again, over) (keeps s s' x h e)
            | inr more ↦ rw (again, more) (next x (keeps s s' x h e))
          ]
          | inr final ↦ rw final (keeps s s' x h e)
        ]

    attempts-Ends :
        (left n backoff : ℕ) (last : Error) (s : S)
        → P s
        → Ends (attempts fs operation fn left n backoff last s)
    unfolding attempts
    attempts-Ends zero n backoff last s h = h
    attempts-Ends (suc left) n backoff last s h =
        after_attempt-Ends n backoff (fn s).0 s (fn s).1 _ h refl
          λ e. attempts-Ends left (suc n) (next_backoff backoff) e (fn s).1

    -- What every failing attempt keeps holds at the end of a retried operation that fails; one that
    -- returns ends with an attempt that returned, begun where this still held.
    pub retry_mongo_operation-Attempted :
        (max_retries : ℕ) (s : S)
        → P s
        → Attempted
            (retry_mongo_operation fs operation fn max_retries s).result
            (retry_mongo_operation fs operation fn max_retries s).state
    unfolding retry_mongo_operation
    retry_mongo_operation-Attempted max_retries s h =
        attempts-Ends max_retries 0 first_backoff _ s h

-- The waits of a loop that begins with this one.
abbrev pub backoffs : ℕ → ℕ → List ℕ
backoffs zero b = []
backoffs (suc n) b = b ∷ backoffs n (next_backoff b)

module _ {S : Type 0} (fs : Failures) (operation : String) (fn : Exec S ⊤) where
  -- The operation fails that many times with a retriable error, each time from where the failure
  -- before had led, and then returns.
  abbrev pub Recovers : ℕ → S → S → Type 0
  Recovers zero s s' = fn s ≡ (ok tt, s')
  Recovers (suc k) s s' =
      (e : Error) × (u : S) × (fn s ≡ (err e, u)) × (is_retriable fs e ≡ true) × Recovers k u s'
