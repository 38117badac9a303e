-- ===== src/Ledger/Retry.antt =====
-- RetryMongoOperation of app/consumer/mongo_ledger.go, over any state of the operation.
pub mod Attempts
use dbank.Prelude.{
  ℕ, zero, suc, ◌*◌, ◌/◌, String, Bool, true, false, ◌||◌, Option, none, some, List, [], ◌∷◌, eqb,
  if◌then◌else◌,
}
use dbank.Status.{⊤, Error, message, annotated, Result, ok, err, Exec}

-- What the driver says of an error, and whether the context ends during the n-th wait.
pub record Failures : Type 0 where
  pub is_network_error : Error → Bool
  pub is_timeout : Error → Bool
  pub command_code : Error → Option ℕ
  pub done : ℕ → Bool

unfoldable pub is_mongo_duplicate_key_error : Failures → Error → Bool
is_mongo_duplicate_key_error fs e = elim (fs.command_code e) [
  | none ↦ false
  | some code ↦ eqb code 11000
]

unfoldable pub is_retriable : Failures → Error → Bool
is_retriable fs e = fs.is_network_error e || fs.is_timeout e || is_mongo_duplicate_key_error fs e

-- 100 milliseconds, in nanoseconds.
abbrev pub first_backoff : ℕ
first_backoff = 100_000_000

-- `time.Duration(float64(backoff) * 1.5)`
abbrev pub next_backoff : ℕ → ℕ
next_backoff b = b * 3 / 2

-- How a retried operation ends: its result, the state, and the waits that were begun, in order.
pub record Outcome (S : Type 0) : Type 0 where
  pub result : Result ⊤
  pub state : S
  pub waits : List ℕ

abbrev pub waited : {S : Type 0} → ℕ → Outcome S → Outcome S
waited b o = record o { waits = b ∷ o.waits }

module _ {S : Type 0} (fs : Failures) where
  -- What one attempt leads to; `rest` is the loop from the next attempt on. A wait is begun after
  -- every retriable error, and the context may end during it.
  unfoldable pub after_attempt : ℕ → ℕ → Result ⊤ → S → (Error → Outcome S) → Outcome S
  after_attempt n backoff (ok _) s rest = record { result = ok tt; state = s; waits = [] }
  after_attempt n backoff (err e) s rest =
      if is_retriable fs e
      then waited backoff (
          if fs.done n
          then record {
            result = err (annotated "context cancelled during retry" (message "context"));
            state = s;
            waits = [];
          }
          else rest e)
      else record { result = err e; state = s; waits = [] }

module _ {S : Type 0} (fs : Failures) (operation : String) (fn : Exec S ⊤) where
  -- The loop: the attempts that are left, the number of waits so far, and the last error.
  unfoldable pub attempts : ℕ → ℕ → ℕ → Error → S → Outcome S
  attempts zero n backoff last s = record {
    result = err (annotated operation last);
    state = s;
    waits = [];
  }
  attempts (suc left) n backoff last s =
      let (r, s') = fn s in
      after_attempt fs n backoff r s' (λ e. attempts left (suc n) (next_backoff backoff) e s')

  unfoldable pub retry_mongo_operation : ℕ → S → Outcome S
  retry_mongo_operation max_retries = attempts max_retries 0 first_backoff (message "%!w(<nil>)")
