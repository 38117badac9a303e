-- ===== src/Ledger/Sums.antt =====
-- What the handler of app/consumer/mongo_ledger.go does to the collection.
use dbank.Prelude.{ℕ, ◌+◌, String, ◌≡◌, refl, ap, ◌∙◌, ◌≢◌, List, [], ◌∷◌, ◌++◌, arith}
use dbank.Status.{⊤, Error, Result, ok, err, continue, annotate}
use dbank.Sql.{lost}
use dbank.Ledger.Retry.Attempts.{Attempted, retry_mongo_operation-Attempted}
use dbank.Ledger.Entries.{
  MongoLedgerEntry, Mongo, Collection, written, commit_entries, in_session, create_ledger_entries,
  write_entries, entries_of, ledger_handler,
}

module _ (m : Mongo) where
  -- No commit takes place without its reply.
  abbrev pub RepliesArrive : Type 0
  RepliesArrive = (n : ℕ) → m.commit n ≢ lost

  -- Appends the pair once.
  abbrev pub appended :
      List MongoLedgerEntry → MongoLedgerEntry × MongoLedgerEntry → List MongoLedgerEntry
  appended es (debit, credit) = es ++ written m debit ∷ written m credit ∷ []

  module _ (debit credit : MongoLedgerEntry) where
    attempt-ok :
        (c c' : Collection)
        → create_ledger_entries m debit credit c ≡ (ok tt, c')
        → c'.entries ≡ appended c.entries (debit, credit)
    unfolding create_ledger_entries in_session commit_entries
    attempt-ok c c' h = ground arith

    attempt-err :
        (c c' : Collection) (e : Error)
        → RepliesArrive
        → create_ledger_entries m debit credit c ≡ (err e, c')
        → c'.entries ≡ c.entries
    unfolding create_ledger_entries in_session commit_entries
    attempt-err c c' e arrive h = ground (arith, arrive (c.calls + 1 + 1 + 1 + 1))

  -- What the handler has done to the collection, by its result.
  abbrev pub Handled : String → Collection → Result ⊤ × Collection → Type 0
  Handled body c (ok _, c') =
      (pair : MongoLedgerEntry × MongoLedgerEntry) × (entries_of m body c.calls ≡ ok pair)
      × (c'.entries ≡ appended c.entries pair)
  Handled body c (err _, c') = c'.entries ≡ c.entries

  module _ (arrive : RepliesArrive) (body : String) (c : Collection) where
    by_attempt :
        (debit credit : MongoLedgerEntry) (r : Result ⊤) (c' : Collection)
        → entries_of m body c.calls ≡ ok (debit, credit)
        → Attempted m.failures ""
            (create_ledger_entries m debit credit)
            (λ s. s.entries ≡ c.entries)
            r
            c'
        → Handled body c (annotate "failed to process transaction for ledger entry" r, c')
    by_attempt debit credit (ok _) c' e (s, same, last) = (
      (debit, credit),
      e,
      attempt-ok debit credit s c' last ∙ ap (λ es. appended es (debit, credit)) same,
    )
    by_attempt debit credit (err _) c' e same = same

    by_entries :
        (r : Result (MongoLedgerEntry × MongoLedgerEntry))
        → entries_of m body c.calls ≡ r
        → Handled body c (continue r (write_entries m) c)
    unfolding write_entries
    by_entries (err _) e = refl
    by_entries (ok (debit, credit)) e = by_attempt debit credit _ _ e (
        retry_mongo_operation-Attempted m.failures _ (create_ledger_entries m debit credit)
          (λ s. s.entries ≡ c.entries)
          (λ s s' x same failed. attempt-err debit credit s s' x arrive failed ∙ same) 3 c refl)

    -- If no commit loses its reply, the handler appends the debit and the credit of its event once
    -- when it returns, whatever attempts failed before, and leaves the collection as it was when it
    -- fails.
    pub ledger_handler-Handled : Handled body c (ledger_handler m body c)
    unfolding ledger_handler
    ledger_handler-Handled = by_entries (entries_of m body c.calls) refl
