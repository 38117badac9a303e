-- ===== src/Ledger/Balance.antt =====
-- The double entry of app/consumer/mongo_ledger.go: the balances of a collection sum to what they
-- were, whatever happens to a message.
use dbank.Prelude.{ℕ, String, ◌≡◌, refl, ap, sym, ◌∙◌, ◌⊎◌, inl, inr, List, [], ◌∷◌, ◌++◌, arith}
use dbank.Prelude.Int.{ℤ, ◌+ℤ◌, neg, +ℤ_assoc, int_laws}
use dbank.Status.{⊤, Result, ok, err, continue}
use dbank.Ledger.Retry.Attempts.{Attempted, retry_mongo_operation-Attempted}
use dbank.Ledger.Entries.{
  MongoLedgerEntry, Mongo, Collection, written, commit_entries, in_session, create_ledger_entries,
  write_entries, entries_of, ledger_handler, sum_balances,
}
use dbank.Ledger.Sums.{appended}

pub sum-append :
    (xs ys : List MongoLedgerEntry) → sum_balances (xs ++ ys) ≡ sum_balances xs +ℤ sum_balances ys
sum-append [] ys = omega int_laws
sum-append (x ∷ xs) ys =
    ap (λ t. x.balance +ℤ t) (sum-append xs ys)
    ∙ sym (+ℤ_assoc x.balance (sum_balances xs) (sum_balances ys))

module _ (m : Mongo) where
  -- A decimal is read back as it was written.
  abbrev pub KeepsDecimals : Type 0
  KeepsDecimals = (v : ℤ) → m.bson v ≡ v

  module _ (debit credit : MongoLedgerEntry) where
    attempt-cases :
        (c : Collection)
        → ((create_ledger_entries m debit credit c).1.entries ≡ c.entries)
          ⊎ ((create_ledger_entries m debit credit c).1.entries
              ≡ appended m c.entries (debit, credit))
    unfolding create_ledger_entries in_session commit_entries
    attempt-cases c = ground arith

    appended-balanced :
        (es : List MongoLedgerEntry)
        → KeepsDecimals
        → debit.balance ≡ neg credit.balance
        → sum_balances (appended m es (debit, credit)) ≡ sum_balances es
    appended-balanced es keep e =
        sum-append es (written m debit ∷ written m credit ∷ [])
        ∙ rw (keep debit.balance, keep credit.balance, e) (omega int_laws)

    attempt-balanced :
        (c c' : Collection) (r : Result ⊤)
        → KeepsDecimals
        → debit.balance ≡ neg credit.balance
        → create_ledger_entries m debit credit c ≡ (r, c')
        → sum_balances c'.entries ≡ sum_balances c.entries
    attempt-balanced c c' r keep e h = elim (attempt-cases c) [
      | inl same ↦ ap (λ p. sum_balances p.1.entries) (sym h) ∙ ap sum_balances same
      | inr more ↦
          ap (λ p. sum_balances p.1.entries) (sym h)
          ∙ ap sum_balances more
          ∙ appended-balanced c.entries keep e
    ]

  entries_of-opposite :
      (body : String) (n : ℕ) (debit credit : MongoLedgerEntry)
      → entries_of m body n ≡ ok (debit, credit)
      → debit.balance ≡ neg credit.balance
  unfolding entries_of
  entries_of-opposite body n debit credit h = ground arith

  module _ (keep : KeepsDecimals) (body : String) (c : Collection) where
    by_attempt :
        (debit credit : MongoLedgerEntry) (r : Result ⊤) (c' : Collection)
        → debit.balance ≡ neg credit.balance
        → Attempted m.failures ""
            (create_ledger_entries m debit credit)
            (λ s. sum_balances s.entries ≡ sum_balances c.entries)
            r
            c'
        → sum_balances c'.entries ≡ sum_balances c.entries
    by_attempt debit credit (ok _) c' e (s, same, last) =
        attempt-balanced debit credit s c' (ok tt) keep e last ∙ same
    by_attempt debit credit (err _) c' e same = same

    by_entries :
        (r : Result (MongoLedgerEntry × MongoLedgerEntry))
        → entries_of m body c.calls ≡ r
        → sum_balances (continue r (write_entries m) c).1.entries ≡ sum_balances c.entries
    unfolding write_entries
    by_entries (err _) e = refl
    by_entries (ok (debit, credit)) e =
        let opposite = entries_of-opposite body c.calls debit credit e in
        by_attempt debit credit _ _ opposite (
          retry_mongo_operation-Attempted m.failures _ (create_ledger_entries m debit credit)
            (λ s. sum_balances s.entries ≡ sum_balances c.entries)
            (λ s s' x same failed.
              attempt-balanced debit credit s s' (err x) keep opposite failed ∙ same)
            3 c refl)

    -- The handler keeps the sum of the balances of all entries, whether it returns or fails, whatever
    -- calls fail, and whether or not a reply to a commit is lost. The condition is that a decimal is
    -- read back as it was written.
    pub ledger_handler-balanced :
        sum_balances (ledger_handler m body c).1.entries ≡ sum_balances c.entries
    unfolding ledger_handler
    ledger_handler-balanced = by_entries (entries_of m body c.calls) refl
