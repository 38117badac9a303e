-- ===== src/Service/Sessions/Accounts.antt =====
-- The constraints of the tables under the handlers of app/service/accounts.go.
use dbank.Prelude.{subst, sym, ℕ, String, Option, none, some, Bool-cases, inl, inr, ◌==◌, not, ◌||◌}
use dbank.Status.{Error, status, invalid_argument, not_found, internal}
use dbank.Status.Keeps.{Keeps, >>=-Keeps}
use dbank.Sql.{Driver}
use dbank.Store.Requests.{Float64}
use dbank.Store.Requests.{UpdateAccountRequest as StoreUpdate}
use dbank.Store.Accounts.{
  create_account, get_account, get_all_accounts, update_account, delete_account,
}
use dbank.Store.Validity.Operations.{delete_account-Keeps}
use dbank.Store.Validity.Accounts.{
  create_account-Keeps, get_account-Keeps, get_all_accounts-Keeps, update_account-Keeps,
}
use dbank.Service.Bank.{require, or_wrap}
use dbank.Service.Accounts.{
  CreateAccountRequest, UpdateAccountRequest, Secrets, id_required, or_error, new_user, provided_or,
  create_account_handler, list_accounts_handler, get_account_handler, update_account_handler,
  delete_account_handler, hash_given, balance_given,
}
use dbank.Service.Accounts.Parts.{
  prepare_update, apply_update, prepare_delete, apply_delete, update_account_handler-parts,
  delete_account_handler-parts,
}
use dbank.Service.Sessions.Keeping.{SoundBank, require-Keeps, or_wrap-Keeps}

or_error-Keeps : {A : Type 0} (o : Option A) (e : Error) → Keeps SoundBank (or_error o e)
or_error-Keeps none e b v = v
or_error-Keeps (some a) e b v = v

module _ {F : Type 0} (fl : Float64 F) (sec : Secrets) (d : Driver) where
  pub create_account_handler-Keeps :
      (n : ℕ) (req : CreateAccountRequest) → Keeps SoundBank (create_account_handler fl sec d n req)
  unfolding create_account_handler require
  create_account_handler-Keeps n req =
      >>=-Keeps SoundBank
        (require (not (req.username == "" || req.email == "" || req.password == ""))
          (status invalid_argument "username, email, and password are required"))
        _
        (require-Keeps (not (req.username == "" || req.email == "" || req.password == ""))
          (status invalid_argument "username, email, and password are required"))
        (λ _.
          >>=-Keeps SoundBank
            (require
              (not (req.account_name == "" || req.account_type == "" || req.account_currency == ""))
              (status invalid_argument "account name, type, and currency are required"))
            _
            (require-Keeps
              (not (req.account_name == "" || req.account_type == "" || req.account_currency == ""))
              (status invalid_argument "account name, type, and currency are required"))
            (λ _.
              >>=-Keeps SoundBank (or_error (sec.hash_password req.password) _) _
                (or_error-Keeps (sec.hash_password req.password) _)
                (λ hashed.
                  >>=-Keeps SoundBank (or_error (fl.parse_float req.account_balance) _) _
                    (or_error-Keeps (fl.parse_float req.account_balance) _)
                    (λ balance.
                      let user =
                        new_user fl req sec n hashed balance
                          (provided_or req.account_status "active") in
                      >>=-Keeps SoundBank (or_wrap _ _ (create_account fl d user)) _
                        (or_wrap-Keeps _ _ (create_account fl d user)
                          (create_account-Keeps fl d user))
                        (λ _ b v. v)))))

  pub list_accounts_handler-Keeps :
      (page size : ℕ) → Keeps SoundBank (list_accounts_handler fl sec d page size)
  unfolding list_accounts_handler
  list_accounts_handler-Keeps page size =
      >>=-Keeps SoundBank (or_wrap _ _ (get_all_accounts fl d page size)) _
        (or_wrap-Keeps _ _ (get_all_accounts fl d page size)
          (get_all_accounts-Keeps fl d page size))
        (λ _ b v. v)

  get-Keeps :
      (id : String) → Keeps SoundBank (or_wrap not_found "account not found" (get_account fl d id))
  get-Keeps id = or_wrap-Keeps _ _ (get_account fl d id) (get_account-Keeps fl d id)

  pub get_account_handler-Keeps : (id : String) → Keeps SoundBank (get_account_handler fl sec d id)
  unfolding get_account_handler require
  get_account_handler-Keeps id =
      >>=-Keeps SoundBank (require (not (id == "")) id_required) _
        (require-Keeps (not (id == "")) id_required)
        (λ _.
          >>=-Keeps SoundBank (or_wrap not_found "account not found" (get_account fl d id)) _
            (get-Keeps id) (λ _ b v. v))

  hash_given-Keeps : (password : String) → Keeps SoundBank (hash_given fl sec d password)
  unfolding hash_given
  hash_given-Keeps password b v = elim (Bool-cases (password == "")) [
    | inl e ↦ rw e v
    | inr e ↦ rw e (or_error-Keeps (sec.hash_password password) _ b v)
  ]

  balance_given-Keeps :
      (balance : String) (existing : F) → Keeps SoundBank (balance_given fl sec d balance existing)
  unfolding balance_given
  balance_given-Keeps balance existing b v = elim (Bool-cases (balance == "")) [
    | inl e ↦ rw e v
    | inr e ↦ rw e (or_error-Keeps (fl.parse_float balance) _ b v)
  ]

  pub prepare_update-Keeps :
      (req : UpdateAccountRequest) → Keeps SoundBank (prepare_update fl sec d req)
  unfolding prepare_update require
  prepare_update-Keeps req =
      >>=-Keeps SoundBank (require (not (req.id == "")) id_required) _
        (require-Keeps (not (req.id == "")) id_required)
        (λ _.
          >>=-Keeps SoundBank (or_wrap not_found "account not found" (get_account fl d req.id)) _
            (get-Keeps req.id)
            (λ existing.
              >>=-Keeps SoundBank (hash_given fl sec d req.password) _
                (hash_given-Keeps req.password)
                (λ hashed.
                  >>=-Keeps SoundBank (balance_given fl sec d req.account_balance existing.balance)
                    _ (balance_given-Keeps req.account_balance existing.balance)
                    (λ balance b v. v))))

  pub apply_update-Keeps : (update : StoreUpdate F) → Keeps SoundBank (apply_update fl sec d update)
  unfolding apply_update
  apply_update-Keeps update =
      >>=-Keeps SoundBank (or_wrap internal "failed to update account" (update_account fl d update))
        _ (or_wrap-Keeps _ _ (update_account fl d update) (update_account-Keeps fl d update))
        (λ _ b v. v)

  pub update_account_handler-Keeps :
      (req : UpdateAccountRequest) → Keeps SoundBank (update_account_handler fl sec d req)
  update_account_handler-Keeps req b v =
      subst (λ r. SoundBank r.1) (sym (update_account_handler-parts fl sec d req b))
        (>>=-Keeps SoundBank (prepare_update fl sec d req) (apply_update fl sec d)
          (prepare_update-Keeps req) apply_update-Keeps b v)

  pub prepare_delete-Keeps : (id : String) → Keeps SoundBank (prepare_delete fl sec d id)
  unfolding prepare_delete
  prepare_delete-Keeps id =
      >>=-Keeps SoundBank (require (not (id == "")) id_required) _
        (require-Keeps (not (id == "")) id_required)
        (λ _.
          >>=-Keeps SoundBank (or_wrap not_found "account not found" (get_account fl d id)) _
            (get-Keeps id) (λ _ b v. v))

  pub apply_delete-Keeps : (id : String) → Keeps SoundBank (apply_delete fl sec d id)
  unfolding apply_delete
  apply_delete-Keeps id =
      >>=-Keeps SoundBank (or_wrap _ _ (delete_account d id)) _
        (or_wrap-Keeps _ _ (delete_account d id) (delete_account-Keeps d id)) (λ _ b v. v)

  pub delete_account_handler-Keeps :
      (id : String) → Keeps SoundBank (delete_account_handler fl sec d id)
  delete_account_handler-Keeps id b v =
      subst (λ r. SoundBank r.1) (sym (delete_account_handler-parts fl sec d id b))
        (>>=-Keeps SoundBank (prepare_delete fl sec d id) (λ _. apply_delete fl sec d id)
          (prepare_delete-Keeps id) (λ _. apply_delete-Keeps id) b v)
