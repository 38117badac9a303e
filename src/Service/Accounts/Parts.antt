-- ===== src/Service/Accounts/Parts.antt =====
-- UpdateAccount and DeleteAccount of app/service/accounts.go in two parts, between which other requests
-- may take place: they look the account up before the database transaction that writes.
use dbank.Prelude.{String, ◌≡◌, ◌==◌, not, arith}
use dbank.Status.{⊤, Exec, pure, ◌>>=◌, ◌>>◌, internal, not_found}
use dbank.Sql.{Driver}
use dbank.Store.Requests.{Float64}
use dbank.Store.Requests.{UpdateAccountRequest as StoreUpdate}
use dbank.Store.Accounts.{get_account, update_account, delete_account}
use dbank.Service.Bank.{Bank, require, or_wrap}
use dbank.Service.Accounts.{
  UpdateAccountRequest, AccountResponse, DeleteAccountResponse, Secrets, update_data, response_of,
  id_required, hash_given, balance_given, update_account_handler, delete_account_handler,
}

module _ {F : Type 0} (fl : Float64 F) (sec : Secrets) (d : Driver) where
  -- UpdateAccount up to the data that it passes to the store.
  unfoldable pub prepare_update : UpdateAccountRequest → Exec Bank (StoreUpdate F)
  prepare_update req = do
    require (not (req.id == "")) id_required
    existing ← or_wrap not_found "account not found" (get_account fl d req.id)
    hashed ← hash_given fl sec d req.password
    balance ← balance_given fl sec d req.account_balance existing.balance
    pure (update_data fl req existing hashed balance)

  -- UpdateAccount from its write on.
  unfoldable pub apply_update : StoreUpdate F → Exec Bank AccountResponse
  apply_update update = do
    updated ← or_wrap internal "failed to update account" (update_account fl d update)
    pure (response_of fl updated)

  -- The two parts are the handler.
  pub update_account_handler-parts :
      (req : UpdateAccountRequest) (b : Bank)
      → update_account_handler fl sec d req b ≡ (prepare_update req >>= apply_update) b
  unfolding update_account_handler prepare_update apply_update
  update_account_handler-parts req b = ground arith

  -- DeleteAccount up to its call of the store, and from there on.
  unfoldable pub prepare_delete : String → Exec Bank ⊤
  prepare_delete id = do
    require (not (id == "")) id_required
    or_wrap not_found "account not found" (get_account fl d id)
    pure tt

  unfoldable pub apply_delete : String → Exec Bank DeleteAccountResponse
  apply_delete id = do
    or_wrap internal "failed to delete account" (delete_account d id)
    pure (record { id = id; message = "Account successfully deleted" })

  pub delete_account_handler-parts :
      (id : String) (b : Bank)
      → delete_account_handler fl sec d id b ≡ (prepare_delete id >>= λ _. apply_delete id) b
  unfolding delete_account_handler prepare_delete apply_delete
  delete_account_handler-parts id b = ground arith
