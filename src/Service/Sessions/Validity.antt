-- ===== src/Service/Sessions/Validity.antt =====
-- The constraints of the tables under a sequence of requests.
use dbank.Sql.{Driver}
use dbank.Broker.{Broker}
use dbank.Store.Requests.{Float64}
use dbank.Service.Bank.{Bank}
use dbank.Service.Accounts.{Secrets}
use dbank.Service.Transactions.{Decimals}
use dbank.Service.Sessions.Keeping.{
  SoundBank, create_transaction_handler-Keeps, get_transaction_handler-Keeps,
}
use dbank.Service.Sessions.Accounts.{
  create_account_handler-Keeps, list_accounts_handler-Keeps, get_account_handler-Keeps,
  update_account_handler-Keeps, delete_account_handler-Keeps,
}
use dbank.Service.Sessions.{
  Request, create_account, list_accounts, get_account, update_account, delete_account,
  create_transaction, get_transaction, handle,
}

module _ {F : Type 0} (fl : Float64 F) (dec : Decimals) (sec : Secrets) (d : Driver)
    (mq : Broker) where
  pub handle-SoundBank :
      (request : Request) (b : Bank) → SoundBank b → SoundBank (handle fl dec sec d mq request b)
  unfolding handle
  handle-SoundBank (create_account n req) = create_account_handler-Keeps fl sec d n req
  handle-SoundBank (list_accounts page page_size) =
      list_accounts_handler-Keeps fl sec d page page_size
  handle-SoundBank (get_account id) = get_account_handler-Keeps fl sec d id
  handle-SoundBank (update_account req) = update_account_handler-Keeps fl sec d req
  handle-SoundBank (delete_account id) = delete_account_handler-Keeps fl sec d id
  handle-SoundBank (create_transaction req) = create_transaction_handler-Keeps fl dec d mq req
  handle-SoundBank (get_transaction id) = get_transaction_handler-Keeps fl dec d id
