-- ===== src/Ledger/Copies.antt =====
-- How often the handler of app/consumer/mongo_ledger.go appends the entries of its event, however the
-- commits of its attempts fare.
use dbank.Prelude.{
  ℕ, zero, suc, ◌≤◌, String, ◌≡◌, refl, ap, ◌∙◌, ◌⊎◌, inl, inr, List, Bool-cases, arith,
}
use dbank.Status.{⊤, Error, Result, ok, err, continue, annotate}
use dbank.Ledger.Retry.{
  Outcome, is_retriable, next_backoff, after_attempt, first_backoff, attempts,
  retry_mongo_operation,
}
use dbank.Ledger.Entries.{
  MongoLedgerEntry, Mongo, Collection, commit_entries, in_session, create_ledger_entries,
  write_entries, entries_of, ledger_handler,
}
use dbank.Ledger.Sums.{appended}

module _ (m : Mongo) where
  -- The list with the pair appended `k` times.
  abbrev pub copies :
      MongoLedgerEntry × MongoLedgerEntry → ℕ → List MongoLedgerEntry → List MongoLedgerEntry
  copies pair zero es = es
  copies pair (suc k) es = copies pair k (appended m es pair)

  -- The pair was appended at most `most` times; at least once where the call returned.
  abbrev pub CopiedUpTo :
      ℕ → MongoLedgerEntry × MongoLedgerEntry → Collection → Result ⊤ × Collection → Type 0
  CopiedUpTo most pair c (ok _, c') =
      (k : ℕ) × (1 ≤ k) × (k ≤ most) × (c'.entries ≡ copies pair k c.entries)
  CopiedUpTo most pair c (err _, c') = (k : ℕ) × (k ≤ most) × (c'.entries ≡ copies pair k c.entries)

  module _ (debit credit : MongoLedgerEntry) where
    attempt_returned :
        (c c' : Collection)
        → create_ledger_entries m debit credit c ≡ (ok tt, c')
        → c'.entries ≡ appended m c.entries (debit, credit)
    unfolding create_ledger_entries in_session commit_entries
    attempt_returned c c' h = ground arith

    attempt_failed :
        (c c' : Collection) (e : Error)
        → create_ledger_entries m debit credit c ≡ (err e, c')
        → (c'.entries ≡ c.entries) ⊎ (c'.entries ≡ appended m c.entries (debit, credit))
    unfolding create_ledger_entries in_session commit_entries
    attempt_failed c c' e h = ground arith

    -- An attempt that failed, before what the rest of the loop appended.
    CopiedUpTo-suc :
        (left : ℕ) (c c' : Collection) (o : Result ⊤ × Collection)
        → (c'.entries ≡ c.entries) ⊎ (c'.entries ≡ appended m c.entries (debit, credit))
        → CopiedUpTo left (debit, credit) c' o
        → CopiedUpTo (suc left) (debit, credit) c o
    CopiedUpTo-suc left c c' (ok _, last) (inl same) (k, some, most, e) =
        (k, some, omega arith, e ∙ ap (copies (debit, credit) k) same)
    CopiedUpTo-suc left c c' (ok _, last) (inr more) (k, some, most, e) =
        (suc k, omega arith, omega arith, e ∙ ap (copies (debit, credit) k) more)
    CopiedUpTo-suc left c c' (err _, last) (inl same) (k, most, e) =
        (k, omega arith, e ∙ ap (copies (debit, credit) k) same)
    CopiedUpTo-suc left c c' (err _, last) (inr more) (k, most, e) =
        (suc k, omega arith, e ∙ ap (copies (debit, credit) k) more)

    abbrev Copied : ℕ → Collection → Outcome Collection → Type 0
    Copied left c o = CopiedUpTo left (debit, credit) c (o.result, o.state)

    after_attempt-Copied :
        (left n backoff : ℕ) (r : Result ⊤) (c c' : Collection) (rest : Error → Outcome Collection)
        → create_ledger_entries m debit credit c ≡ (r, c')
        → ((e : Error) → Copied left c' (rest e))
        → Copied (suc left) c (after_attempt m.failures n backoff r c' rest)
    unfolding after_attempt
    after_attempt-Copied left n backoff (ok _) c c' rest h next =
        (1, omega arith, omega arith, attempt_returned c c' h)
    after_attempt-Copied left n backoff (err x) c c' rest h next =
        let failed = attempt_failed c c' x h in
        let stops : CopiedUpTo left (debit, credit) c' (err x, c') = (0, omega arith, refl) in
        elim (Bool-cases (is_retriable m.failures x)) [
          | inl again ↦ elim (Bool-cases (m.failures.done n)) [
            | inl over ↦ rw (again, over) (CopiedUpTo-suc left c c' (err x, c') failed stops)
            | inr more ↦
                rw (again, more)
                  (CopiedUpTo-suc left c c' ((rest x).result, (rest x).state) failed (next x))
          ]
          | inr final ↦ rw final (CopiedUpTo-suc left c c' (err x, c') failed stops)
        ]

    attempts-Copied :
        (operation : String) (left n backoff : ℕ) (last : Error) (c : Collection)
        → Copied left c (
            attempts m.failures operation
              (create_ledger_entries m debit credit)
              left
              n
              backoff
              last
              c)
    unfolding attempts
    attempts-Copied operation zero n backoff last c = (0, omega arith, refl)
    attempts-Copied operation (suc left) n backoff last c =
        let (r, c') = create_ledger_entries m debit credit c in
        after_attempt-Copied left n backoff r c c' _ refl
          λ e. attempts-Copied operation left (suc n) (next_backoff backoff) e c'

    annotate-Copied :
        (text : String) (most : ℕ) (r : Result ⊤) (c c' : Collection)
        → CopiedUpTo most (debit, credit) c (r, c')
        → CopiedUpTo most (debit, credit) c (annotate text r, c')
    annotate-Copied text most (ok _) c c' h = h
    annotate-Copied text most (err _) c c' h = h

  -- What the handler of a message did: nothing where it has no entries.
  abbrev pub Booked :
      Result (MongoLedgerEntry × MongoLedgerEntry) → Collection → Result ⊤ × Collection → Type 0
  Booked (ok pair) c o = CopiedUpTo 3 pair c o
  Booked (err e) c o = o ≡ (err e, c)

  continue-Booked :
      (r : Result (MongoLedgerEntry × MongoLedgerEntry)) (c : Collection)
      → Booked r c (continue r (write_entries m) c)
  unfolding write_entries retry_mongo_operation
  continue-Booked (err _) c = refl
  continue-Booked (ok (debit, credit)) c =
      annotate-Copied debit credit _ 3 _ c _ (attempts-Copied debit credit _ 3 0 first_backoff _ c)

  -- However the commits fare, also where their replies are lost, the handler appends the entries of
  -- its event at most three times, and at least once when it returns; a message without entries is
  -- answered with its error and changes nothing.
  pub ledger_handler-Booked :
      (body : String) (c : Collection)
      → Booked (entries_of m body c.calls) c (ledger_handler m body c)
  unfolding ledger_handler
  ledger_handler-Booked body c = continue-Booked (entries_of m body c.calls) c
