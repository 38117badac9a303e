-- ===== src/Store/Transactions.antt =====
-- app/store/store.go: CreateTransaction and GetTransaction.
pub mod Posted
pub mod Settled
use dbank.Prelude.{ℕ, String, Bool, ◌&&◌, List, [], ◌∷◌, ◌++◌}
use dbank.Prelude.Int.{ℤ}
use dbank.Status.{⊤, Error, Result, ok, err, status, internal, not_found, Exec, pure, ◌>>◌}
use dbank.Sql.{accounts, transactions, Driver, World, knows, of_table, provides, statement, checked}
use dbank.Tx.{run_in_tx}
use dbank.Store.Requests.{TransactionRequest, Transaction}
use dbank.Store.Queries.{find_transaction}
use dbank.Store.Updates.{set_balance, insert_transaction}

abbrev pub build_error : Error
build_error = status internal "failed to build SQL query"

abbrev pub execute_error : Error
execute_error = status internal "failed to execute SQL query"

abbrev pub transaction_columns : List String
transaction_columns =
    "from_account_id" ∷ "to_account_id" ∷ "transaction_type" ∷ "amount" ∷ "currency" ∷ "description"
    ∷ "status" ∷ []

module _ (d : Driver) where
  abbrev pub knows_balance : Bool
  knows_balance = knows d (of_table accounts ("balance" ∷ "id" ∷ []))

  abbrev pub knows_transaction : Bool
  knows_transaction =
      knows d (of_table transactions ("id" ∷ transaction_columns))
      && provides d transactions transaction_columns

  unfoldable pub update_balance : String → ℤ → Exec World ⊤
  update_balance id balance =
      checked build_error execute_error execute_error
        (statement d knows_balance (set_balance d id balance))

  unfoldable pub record_transaction : ℕ → TransactionRequest → Exec World ℕ
  record_transaction now req w =
      checked build_error execute_error (status not_found "transaction not found")
        (statement d knows_transaction (insert_transaction d now w.calls req)) w

  -- The function that CreateTransaction runs in a database transaction.
  unfoldable pub transaction_body : ℕ → TransactionRequest → Exec World ⊤
  transaction_body now req = do
    update_balance req.from_account_id req.from_account_balance
    update_balance req.to_account_id req.to_account_balance
    record_transaction now req
    pure tt

  -- On an error the request that the caller passed is marked as failed.
  abbrev pub mark : Result ⊤ → TransactionRequest → TransactionRequest
  mark (ok _) req = req
  mark (err _) req = record req { status = "failed"; description = "Transaction failed" }

  unfoldable pub create_transaction :
      TransactionRequest → World → Result ⊤ × TransactionRequest × World
  create_transaction req w =
      let (r, w') = run_in_tx d (transaction_body (d.clock w.calls) req) w in (r, mark r req, w')

  abbrev pub transaction_query_columns : List String
  transaction_query_columns =
      "id" ∷ transaction_columns ++ ("created_at" ∷ "updated_at" ∷ "deleted_at" ∷ [])

  unfoldable pub get_transaction : String → Exec World Transaction
  get_transaction id =
      checked build_error (status internal "failed to query transaction")
        (status not_found "transaction not found")
        (statement d (knows d (of_table transactions transaction_query_columns))
          (find_transaction d id))
