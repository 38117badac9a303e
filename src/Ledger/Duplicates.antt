-- ===== src/Ledger/Duplicates.antt =====
-- A commit whose reply is lost, under the retries of app/consumer/mongo_ledger.go.
use dbank.Prelude.{ℕ, ◌+◌, String, ◌≡◌, refl, false, true, arith}
use dbank.Status.{ok, err, driver, annotated}
use dbank.Sql.{lost, committed}
use dbank.Ledger.Retry.{is_retriable, after_attempt, attempts, retry_mongo_operation}
use dbank.Ledger.Entries.{
  MongoLedgerEntry, Mongo, Collection, commit_entries, in_session, create_ledger_entries,
  write_entries, entries_of, ledger_handler,
}
use dbank.Ledger.Sums.{appended}

-- The collection with the pair appended, after that many calls.
abbrev pub after_calls : Mongo → MongoLedgerEntry × MongoLedgerEntry → ℕ → Collection → Collection
after_calls m pair n c = record { entries = appended m c.entries pair; calls = c.calls + n }

module _ (m : Mongo) (sound : (n : ℕ) → m.fault n ≡ false) (debit credit : MongoLedgerEntry) where
  attempt_lost :
      (c : Collection)
      → m.commit (c.calls + 4) ≡ lost
      → create_ledger_entries m debit credit c ≡ (
        err (annotated "failed to commit MongoDB transaction" (driver (c.calls + 4))),
        after_calls m (debit, credit) 6 c,
      )
  unfolding create_ledger_entries in_session commit_entries
  attempt_lost c h =
      ground
        (arith, h, sound c.calls, sound (c.calls + 1), sound (c.calls + 2), sound (c.calls + 3))

  attempt_committed :
      (c : Collection)
      → m.commit (c.calls + 4) ≡ committed
      → create_ledger_entries m debit credit c ≡ (ok tt, after_calls m (debit, credit) 5 c)
  unfolding create_ledger_entries in_session commit_entries
  attempt_committed c h =
      ground
        (arith, h, sound c.calls, sound (c.calls + 1), sound (c.calls + 2), sound (c.calls + 3))

  -- Where no call of the driver fails but for the commit of the first attempt, which takes place and
  -- loses its reply, with an error that is retried under a context that goes on, the handler returns
  -- with the debit and the credit of one event appended twice.
  pub ledger_handler-duplicates :
      (body : String) (c : Collection)
      → entries_of m body c.calls ≡ ok (debit, credit)
      → m.commit (c.calls + 4) ≡ lost
      → m.commit (c.calls + 6 + 4) ≡ committed
      → is_retriable m.failures
          (annotated "failed to commit MongoDB transaction" (driver (c.calls + 4)))
        ≡ true
      → m.failures.done 0 ≡ false
      → ledger_handler m body c
        ≡ (ok tt, after_calls m (debit, credit) 5 (after_calls m (debit, credit) 6 c))
  unfolding ledger_handler write_entries retry_mongo_operation attempts after_attempt
  ledger_handler-duplicates body c e first second again more =
      rw
        (
          e,
          attempt_lost c first,
          again,
          more,
          attempt_committed (after_calls m (debit, credit) 6 c) second,
        )
        refl
