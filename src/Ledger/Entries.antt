-- ===== src/Ledger/Entries.antt =====
-- app/consumer/mongo_ledger.go: the entries of a transaction and the handler that writes them, and
-- the queries over the collection.
use dbank.Prelude.{
  ℕ, suc, ◌+◌, String, Bool, ◌&&◌, Option, none, List, [], ◌∷◌, ◌++◌, select, ◌==◌, if◌then◌else◌,
}
use dbank.Prelude.Int.{ℤ, pos, ◌+ℤ◌, neg}
use dbank.Status.{
  ⊤, driver, annotated, annotate, Result, ok, err, Exec, pure, raise, continue, ◌>>◌,
}
use dbank.Sql.{CommitReply, committed, refused, lost}
use dbank.Broker.{TransactionEvent}
use dbank.Ledger.Retry.{Failures, retry_mongo_operation}
use dbank.Store.Queries.{is_null}

pub record MongoLedgerEntry : Type 0 where
  pub uuid : String
  pub account_id : String
  pub transaction_id : String
  pub entry_type : String
  pub amount : ℤ
  pub balance : ℤ
  pub currency : String
  pub description : String
  pub created_at : ℕ
  pub updated_at : ℕ
  pub deleted_at : Option ℕ

-- What MongoDB, its driver, the clock and the two parsers decide. Calls are numbered.
pub record Mongo : Type 0 where
  pub failures : Failures
  pub fault : ℕ → Bool
  pub commit : ℕ → CommitReply
  pub object_id : ℕ → String
  pub clock : ℕ → ℕ
  -- What is read back of a decimal.Decimal that was written.
  pub bson : ℤ → ℤ
  pub unmarshal : String → Result TransactionEvent
  pub new_from_string : String → Result ℤ

-- The collection "ledgers", oldest entry first.
pub record Collection : Type 0 where
  pub entries : List MongoLedgerEntry
  pub calls : ℕ

abbrev pub skip : Collection → Collection
skip c = record c { calls = c.calls + 1 }

-- One call of the driver; an error of it is annotated with the message of the caller.
abbrev pub mongo_call : Mongo → String → Exec Collection ⊤
mongo_call m text c =
    if m.fault c.calls then raise (annotated text (driver c.calls)) (skip c) else pure tt (skip c)

-- $sum of "$balance".
abbrev pub sum_balances : List MongoLedgerEntry → ℤ
sum_balances [] = pos 0
sum_balances (e ∷ es) = e.balance +ℤ sum_balances es

-- $group yields one result, unless there is no entry.
abbrev pub group_balance : List MongoLedgerEntry → List ℤ
group_balance [] = []
group_balance (e ∷ es) = sum_balances (e ∷ es) ∷ []

abbrev pub first_result : List ℤ → ℤ
first_result [] = pos 0
first_result (v ∷ vs) = v

module _ (m : Mongo) where
  -- The money of an entry as the collection holds it.
  abbrev pub written : MongoLedgerEntry → MongoLedgerEntry
  written e = record e { amount = m.bson e.amount; balance = m.bson e.balance }

  -- CommitTransaction: the two inserts become visible together, also where the reply is lost.
  unfoldable pub commit_entries : MongoLedgerEntry → MongoLedgerEntry → Exec Collection ⊤
  commit_entries debit credit c =
      let after = record c {
        entries = c.entries ++ written debit ∷ written credit ∷ [];
        calls = c.calls + 1;
      } in
      let failed = annotated "failed to commit MongoDB transaction" (driver c.calls) in
      elim (m.commit c.calls) [
        | committed ↦ pure tt after
        | refused ↦ raise failed (skip c)
        | lost ↦ raise failed after
      ]

  -- The function that WithSession runs: the two inserts and the commit.
  unfoldable pub in_session : MongoLedgerEntry → MongoLedgerEntry → Exec Collection ⊤
  in_session debit credit = do
    mongo_call m "failed to insert debit entry"
    mongo_call m "failed to insert credit entry"
    commit_entries debit credit

  -- AbortTransaction after an error: what was inserted and not committed is dropped.
  abbrev pub abort_on_error : Result ⊤ → Collection → Result ⊤ × Collection
  abort_on_error (ok _) c = (ok tt, c)
  abort_on_error (err e) c = (err e, skip c)

  -- The operation that is retried.
  unfoldable pub create_ledger_entries : MongoLedgerEntry → MongoLedgerEntry → Exec Collection ⊤
  create_ledger_entries debit credit = do
    mongo_call m "failed to start MongoDB session"
    mongo_call m "failed to start MongoDB transaction"
    (λ c. let (r, c') = in_session debit credit c in abort_on_error r c')

  abbrev pub debit_entry : TransactionEvent → ℤ → ℕ → MongoLedgerEntry
  debit_entry event amount n = record {
    uuid = m.object_id n;
    account_id = event.from_account_id;
    transaction_id = event.transaction_id;
    entry_type = "debit";
    amount = amount;
    balance = neg amount;
    currency = event.currency;
    description = event.description;
    created_at = m.clock n;
    updated_at = m.clock n;
    deleted_at = none;
  }

  abbrev pub credit_entry : TransactionEvent → ℤ → ℕ → MongoLedgerEntry
  credit_entry event amount n = record {
    uuid = m.object_id (suc n);
    account_id = event.to_account_id;
    transaction_id = event.transaction_id;
    entry_type = "credit";
    amount = amount;
    balance = amount;
    currency = event.currency;
    description = event.description;
    created_at = m.clock n;
    updated_at = m.clock n;
    deleted_at = none;
  }

  -- The two entries of an event, or the error of its parsing. `n` numbers the message.
  unfoldable pub entries_of : String → ℕ → Result (MongoLedgerEntry × MongoLedgerEntry)
  entries_of body n = elim (m.unmarshal body) [
    | err e ↦ err (annotated "failed to unmarshal transaction event" e)
    | ok event ↦ elim (m.new_from_string event.amount) [
      | err e ↦ err (annotated "invalid amount format" e)
      | ok amount ↦ ok (debit_entry event amount n, credit_entry event amount n)
    ]
  ]

  -- The retried write of the two entries.
  unfoldable pub write_entries : MongoLedgerEntry × MongoLedgerEntry → Exec Collection ⊤
  write_entries (debit, credit) c =
      let o =
        retry_mongo_operation m.failures "operation 'create_ledger_entries' failed after 3 retries"
          (create_ledger_entries debit credit) 3 c in
      (annotate "failed to process transaction for ledger entry" o.result, o.state)

  -- NewMongoLedgerConsumer: the handler of one message, of which only the body is read.
  unfoldable pub ledger_handler : String → Exec Collection ⊤
  ledger_handler body c = continue (entries_of body c.calls) write_entries c

  -- GetLedgerEntriesByAccount and GetLedgerEntriesByTransaction: the query and the decoding.
  unfoldable pub find_entries : (MongoLedgerEntry → Bool) → Exec Collection (List MongoLedgerEntry)
  find_entries matches = do
    mongo_call m "failed to query ledger entries"
    mongo_call m "failed to decode ledger entries"
    (λ c. pure (select (λ e. matches e && is_null e.deleted_at) c.entries) c)

  unfoldable pub get_ledger_entries_by_account : String → Exec Collection (List MongoLedgerEntry)
  get_ledger_entries_by_account id = find_entries (λ e. e.account_id == id)

  unfoldable pub get_ledger_entries_by_transaction :
      String → Exec Collection (List MongoLedgerEntry)
  get_ledger_entries_by_transaction id = find_entries (λ e. e.transaction_id == id)

  unfoldable pub calculate_account_balance : String → Exec Collection ℤ
  calculate_account_balance id = do
    mongo_call m "failed to aggregate balance"
    mongo_call m "failed to decode balance result"
    (λ c.
        pure
          (first_result
            (group_balance (select (λ e. e.account_id == id && is_null e.deleted_at) c.entries)))
          c)
