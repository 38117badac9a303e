-- ===== src/Service/Accounts.antt =====
-- app/service/accounts.go: the handlers of the account service.
pub mod Updating
pub mod Parts
pub mod Overwriting
pub mod Opening
pub mod Passwords
use dbank.Prelude.{ℕ, String, ◌||◌, not, none, some, Option, List, map, length, ◌==◌, if◌then◌else◌}
use dbank.Status.{
  Error, status, invalid_argument, internal, not_found, ok, err, Exec, pure, ◌>>=◌, ◌>>◌,
}
use dbank.Sql.{Driver}
use dbank.Store.Requests.{Float64, CreateUserRequest, AccountDetails}
use dbank.Store.Requests.{UpdateAccountRequest as StoreUpdate}
use dbank.Store.Accounts.{
  create_account, get_account, get_all_accounts, update_account, delete_account,
}
use dbank.Service.Bank.{Bank, require, or_wrap}

pub record CreateAccountRequest : Type 0 where
  pub username : String
  pub email : String
  pub password : String
  pub account_name : String
  pub account_type : String
  pub account_balance : String
  pub account_currency : String
  pub account_status : String

pub record UpdateAccountRequest : Type 0 where
  pub id : String
  pub username : String
  pub email : String
  pub password : String
  pub account_name : String
  pub account_type : String
  pub account_balance : String
  pub account_currency : String
  pub account_status : String

-- The responses to Create, Get and Update have the same fields; the password is never set.
pub record AccountResponse : Type 0 where
  pub id : String
  pub username : String
  pub email : String
  pub account_name : String
  pub account_type : String
  pub account_balance : String
  pub account_currency : String
  pub account_status : String

pub record ListAccountsResponse : Type 0 where
  pub accounts : List AccountResponse
  pub total_count : ℕ

pub record DeleteAccountResponse : Type 0 where
  pub id : String
  pub message : String

-- pkg/passw's HashPassword, which is bcrypt's, and github.com/google/uuid: the identifiers drawn at
-- a call, the first eight bytes of the third being the account number.
pub record Secrets : Type 0 where
  pub hash_password : String → Option String
  pub user_id : ℕ → String
  pub account_id : ℕ → String
  pub account_number : ℕ → String

abbrev pub or_error : {S A : Type 0} → Option A → Error → Exec S A
or_error none e s = (err e, s)
or_error (some a) e s = (ok a, s)

-- The value of a field that may be left out of a request.
abbrev pub provided_or : String → String → String
provided_or given existing = if not (given == "") then given else existing

module _ {F : Type 0} (fl : Float64 F) where
  abbrev pub response_of : AccountDetails F → AccountResponse
  response_of a = record {
    id = a.id;
    username = a.username;
    email = a.email;
    account_name = a.account_name;
    account_type = a.account_type;
    account_balance = fl.format_float a.balance;
    account_currency = a.currency;
    account_status = a.status;
  }

  -- The data that UpdateAccount passes on, with the new hash and the new balance.
  abbrev pub update_data : UpdateAccountRequest → AccountDetails F → String → F → StoreUpdate F
  update_data req existing password balance = record {
    id = req.id;
    username = provided_or req.username existing.username;
    email = provided_or req.email existing.email;
    password = password;
    account_name = provided_or req.account_name existing.account_name;
    account_type = provided_or req.account_type existing.account_type;
    balance = balance;
    currency = provided_or req.account_currency existing.currency;
    status = provided_or req.account_status existing.status;
  }

  abbrev pub new_user :
      CreateAccountRequest → Secrets → ℕ → String → F → String → CreateUserRequest F
  new_user req sec n password balance account_status = record {
    id = sec.user_id n;
    username = req.username;
    email = req.email;
    password = password;
    account_id = sec.account_id n;
    account_name = req.account_name;
    account_type = req.account_type;
    account_number = sec.account_number n;
    balance = balance;
    currency = req.account_currency;
    status = account_status;
  }

abbrev pub id_required : Error
id_required = status invalid_argument "account ID is required"

module _ {F : Type 0} (fl : Float64 F) (sec : Secrets) (d : Driver) where
  -- The new hash, or the empty text where the request gives no password.
  unfoldable pub hash_given : String → Exec Bank String
  hash_given password =
      if not (password == "")
      then or_error (sec.hash_password password) (status internal "failed to hash password")
      else pure ""

  unfoldable pub balance_given : String → F → Exec Bank F
  balance_given balance existing =
      if not (balance == "")
      then or_error (fl.parse_float balance) (status invalid_argument "invalid balance format")
      else pure existing

  -- `n` numbers the identifiers that are drawn.
  unfoldable pub create_account_handler : ℕ → CreateAccountRequest → Exec Bank AccountResponse
  unfolding require
  create_account_handler n req = do
    require (not (req.username == "" || req.email == "" || req.password == ""))
        (status invalid_argument "username, email, and password are required")
    require (not (req.account_name == "" || req.account_type == "" || req.account_currency == ""))
        (status invalid_argument "account name, type, and currency are required")
    hashed ← or_error (sec.hash_password req.password) (status internal "failed to hash password")
    balance ←
        or_error (fl.parse_float req.account_balance)
          (status invalid_argument "invalid balance format")
    let account_status = provided_or req.account_status "active"
    or_wrap internal "failed to create account"
        (create_account fl d (new_user fl req sec n hashed balance account_status))
    pure (record {
      id = sec.user_id n;
      username = req.username;
      email = req.email;
      account_name = req.account_name;
      account_type = req.account_type;
      account_balance = req.account_balance;
      account_currency = req.account_currency;
      account_status = account_status;
    })

  unfoldable pub list_accounts_handler : ℕ → ℕ → Exec Bank ListAccountsResponse
  list_accounts_handler page page_size = do
    accounts ← or_wrap internal "failed to get accounts" (get_all_accounts fl d page page_size)
    let account_list = map (response_of fl) accounts
    pure (record { accounts = account_list; total_count = length account_list })

  unfoldable pub get_account_handler : String → Exec Bank AccountResponse
  unfolding require
  get_account_handler id = do
    require (not (id == "")) id_required
    account ← or_wrap not_found "account not found" (get_account fl d id)
    pure (response_of fl account)

  unfoldable pub update_account_handler : UpdateAccountRequest → Exec Bank AccountResponse
  unfolding require
  update_account_handler req = do
    require (not (req.id == "")) id_required
    existing ← or_wrap not_found "account not found" (get_account fl d req.id)
    hashed ← hash_given req.password
    balance ← balance_given req.account_balance existing.balance
    updated ←
        or_wrap internal "failed to update account"
          (update_account fl d (update_data fl req existing hashed balance))
    pure (response_of fl updated)

  unfoldable pub delete_account_handler : String → Exec Bank DeleteAccountResponse
  unfolding require
  delete_account_handler id = do
    require (not (id == "")) id_required
    or_wrap not_found "account not found" (get_account fl d id)
    or_wrap internal "failed to delete account" (delete_account d id)
    pure (record { id = id; message = "Account successfully deleted" })
