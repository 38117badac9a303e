-- ===== src/Service/Sessions.antt =====
-- The requests that the server takes, one after another: the handlers of app/service/accounts.go and
-- of app/service/transactions.go over one state.
pub mod Keeping
pub mod Accounts
pub mod Validity
pub mod Conserved
use dbank.Prelude.{ℕ, String, List, [], ◌∷◌}
use dbank.Sql.{Driver}
use dbank.Broker.{Broker}
use dbank.Store.Requests.{Float64}
use dbank.Service.Bank.{Bank}
use dbank.Service.Accounts.{
  CreateAccountRequest, UpdateAccountRequest, Secrets, create_account_handler,
  list_accounts_handler, get_account_handler, update_account_handler, delete_account_handler,
}
use dbank.Service.Transactions.{
  Decimals, CreateTransactionRequest, create_transaction_handler, get_transaction_handler,
}

-- A request to one of the seven methods; `n` numbers the identifiers that CreateAccount draws.
pub data Request : Type 0 where
  create_account : (n : ℕ) → CreateAccountRequest → Request
  list_accounts : (page page_size : ℕ) → Request
  get_account : (id : String) → Request
  update_account : UpdateAccountRequest → Request
  delete_account : (id : String) → Request
  create_transaction : CreateTransactionRequest → Request
  get_transaction : (id : String) → Request

module _ {F : Type 0} (fl : Float64 F) (dec : Decimals) (sec : Secrets) (d : Driver)
    (mq : Broker) where
  -- The state after a request, whatever its answer was.
  unfoldable pub handle : Request → Bank → Bank
  handle (create_account n req) b = (create_account_handler fl sec d n req b).1
  handle (list_accounts page page_size) b = (list_accounts_handler fl sec d page page_size b).1
  handle (get_account id) b = (get_account_handler fl sec d id b).1
  handle (update_account req) b = (update_account_handler fl sec d req b).1
  handle (delete_account id) b = (delete_account_handler fl sec d id b).1
  handle (create_transaction req) b = (create_transaction_handler fl dec d mq req b).1
  handle (get_transaction id) b = (get_transaction_handler dec d id b).1

  unfoldable pub run : List Request → Bank → Bank
  run [] b = b
  run (request ∷ requests) b = run requests (handle request b)
