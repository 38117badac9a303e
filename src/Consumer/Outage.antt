-- ===== src/Consumer/Outage.antt =====
-- What app/consumer does with the messages of the success route while every call of MongoDB fails.
use dbank.Prelude.{ℕ, ◌≡◌, refl, ap, sym, ◌∙◌, true, [], ◌∷◌, ◌++◌, arith}
use dbank.Status.{⊤, Error, Result, ok, err, continue, annotate, annotated, driver}
use dbank.Broker.{transaction_success_route}
use dbank.Ledger.Retry.Attempts.{Attempted, retry_mongo_operation-Attempted}
use dbank.Ledger.Entries.{
  MongoLedgerEntry, Mongo, Collection, skip, create_ledger_entries, write_entries, entries_of,
  ledger_handler,
}
use dbank.Consumer.{Delivery, Channel, requeue, settle, handle_message, server_handlers}
use dbank.Consumer.Settling.{success_handler}

module _ (m : Mongo) (down : (n : ℕ) → m.fault n ≡ true) where
  -- An attempt fails at its first call.
  attempt-down :
      (debit credit : MongoLedgerEntry) (s : Collection)
      → create_ledger_entries m debit credit s
        ≡ (err (annotated "failed to start MongoDB session" (driver s.calls)), skip s)
  unfolding create_ledger_entries
  attempt-down debit credit s = rw (down s.calls) refl

  abbrev Failed : Collection → Result ⊤ × Collection → Type 0
  Failed c (r, c') = ((e : Error) × (r ≡ err e)) × (c'.entries ≡ c.entries)

  by_attempt :
      (debit credit : MongoLedgerEntry) (c : Collection) (r : Result ⊤) (c' : Collection)
      → Attempted m.failures ""
          (create_ledger_entries m debit credit)
          (λ s. s.entries ≡ c.entries)
          r
          c'
      → Failed c (annotate "failed to process transaction for ledger entry" r, c')
  by_attempt debit credit c (ok _) c' (s, same, last) =
      absurd (ground (arith, attempt-down debit credit s))
  by_attempt debit credit c (err e) c' same =
      ((annotated "failed to process transaction for ledger entry" e, refl), same)

  by_entries :
      (c : Collection) (r : Result (MongoLedgerEntry × MongoLedgerEntry))
      → Failed c (continue r (write_entries m) c)
  unfolding write_entries
  by_entries c (err e) = ((e, refl), refl)
  by_entries c (ok (debit, credit)) = by_attempt debit credit c _ _ (
      retry_mongo_operation-Attempted m.failures _ (create_ledger_entries m debit credit)
        (λ s. s.entries ≡ c.entries)
        (λ s s' x same failed.
          ap (λ p. p.1.entries) (sym failed ∙ attempt-down debit credit s) ∙ same)
        3 c refl)

  requeued :
      (d : Delivery) (c : Channel Collection) (r : Result ⊤) (s : Collection)
      → Failed c.state (r, s)
      → (s.entries ≡ c.state.entries) × (c.settled ++ settle d r ∷ [] ≡ c.settled ++ requeue d ∷ [])
  requeued d c r s ((e, failed), same) = (same, rw failed refl)

  pub handle_message-requeued :
      (d : Delivery) (c : Channel Collection)
      → d.routing_key ≡ transaction_success_route
      → ((handle_message (server_handlers m) d c).state.entries ≡ c.state.entries)
        × ((handle_message (server_handlers m) d c).settled ≡ c.settled ++ requeue d ∷ [])
  unfolding handle_message ledger_handler
  handle_message-requeued d c e = rw (success_handler m d.routing_key e) (
      requeued d c (ledger_handler m d.body c.state).0 (ledger_handler m d.body c.state).1
        (by_entries c.state (entries_of m d.body c.state.calls)))
