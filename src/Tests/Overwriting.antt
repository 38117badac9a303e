-- ===== src/Tests/Overwriting.antt =====
-- A rename with a transfer in between: app/service/accounts.go and app/service/transactions.go.
use dbank.Prelude.{◌≡◌, refl}
use dbank.Prelude.Int.{ℤ, pos, ◌+ℤ◌, ◌-ℤ◌}
use dbank.Status.{ok}
use dbank.Sql.{statement, checked}
use dbank.Tx.{run_in_tx}
use dbank.Broker.{publish_event}
use dbank.Store.Requests.{UpdateAccountRequest as StoreUpdate}
use dbank.Store.Queries.{find_account, find_user_pk, find_updated, details}
use dbank.Store.Updates.{set_balance, insert_transaction, set_user_names, set_password}
use dbank.Store.Inserts.{set_account}
use dbank.Store.Accounts.{
  get_account, user_pk_of, update_user, update_password, update_details, updated_details,
  update_body, update_account,
}
use dbank.Store.Transactions.{
  update_balance, record_transaction, transaction_body, create_transaction,
}
use dbank.Service.Bank.{Bank, or_wrap, require}
use dbank.Service.Accounts.{AccountResponse, update_data, hash_given, balance_given}
use dbank.Service.Accounts.Parts.{prepare_update, apply_update}
use dbank.Service.Accounts.Overwriting.{Overwritten, apply_update-Overwritten}
use dbank.Service.Transactions.{
  validate, settle_plan, read_receiver, read_sender, plan, submit, announce,
  create_transaction_handler,
}
use dbank.Tests.World.{
  floats, decimals, named_columns, healthy, driver_over-DeliversOnly, broker, shared, transfer,
  user, account,
}
use dbank.Tests.Sessions.{secrets, renaming}

abbrev merged : StoreUpdate ℤ
merged =
    update_data floats renaming (details floats healthy (user 2 "bob", account 2 "bob" (pos 5))) ""
      (pos 5)

abbrev prepared : Bank
prepared = (prepare_update floats secrets healthy renaming shared).1

renaming-prepares : prepare_update floats secrets healthy renaming shared ≡ (ok merged, prepared)
unfolding prepare_update require or_wrap get_account statement checked find_account hash_given
    balance_given
renaming-prepares = refl

-- The money has arrived before the update is rewritten.
abbrev between : Bank
between = (create_transaction_handler floats decimals healthy broker transfer prepared).1

abbrev response : AccountResponse
response = record {
  id = "bob";
  username = "robert";
  email = "bob";
  account_name = "main";
  account_type = "savings";
  account_balance = "100.00";
  account_currency = "EUR";
  account_status = "closed";
}

abbrev rewritten : Bank
rewritten = (apply_update floats secrets healthy merged between).1

merged-returns : apply_update floats secrets healthy merged between ≡ (ok response, rewritten)
unfolding prepare_update require or_wrap get_account statement checked find_account hash_given
    balance_given apply_update update_account run_in_tx update_body user_pk_of find_user_pk
    update_user set_user_names update_password set_password update_details set_account
    updated_details find_updated create_transaction_handler plan validate read_sender read_receiver
    settle_plan submit create_transaction transaction_body update_balance record_transaction
    set_balance insert_transaction announce publish_event ◌+ℤ◌ ◌-ℤ◌
merged-returns = refl

apply_update-Overwritten_example :
    Overwritten floats secrets healthy renaming shared.world.db between.world.db rewritten.world.db
apply_update-Overwritten_example =
    apply_update-Overwritten floats secrets healthy renaming shared prepared between rewritten
      (driver_over-DeliversOnly named_columns) (λ a m. refl) refl renaming-prepares merged-returns
