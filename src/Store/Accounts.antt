-- ===== src/Store/Accounts.antt =====
-- app/store/store.go: CreateAccount, GetAccount, GetAllAccounts, UpdateAccount and DeleteAccount.
pub mod Paging
pub mod Lookup
pub mod Creating
pub mod Deleting
pub mod RoundTrip
pub mod Updating
use dbank.Prelude.{
  Bool, ℕ, ◌+◌, ◌-◌, ◌*◌, ◌%◌, ◌^◌, String, ◌&&◌, none, some, List, [], ◌∷◌, ◌++◌, ◌==◌,
  if◌then◌else◌,
}
use dbank.Status.{⊤, Error, status, internal, not_found, Exec, pure, raise, ◌>>=◌, ◌>>◌}
use dbank.Sql.{
  Table, users, accounts, unscanned, Driver, World, knows, of_table, provides, tick, statement,
  checked,
}
use dbank.Tx.{run_in_tx}
use dbank.Store.Requests.{Float64, CreateUserRequest, AccountDetails, UpdateAccountRequest}
use dbank.Store.Queries.{find_account, find_updated, find_page, find_user_pk}
use dbank.Store.Updates.{set_user_names, set_password, delete_accounts, delete_user}
use dbank.Store.Inserts.{insert_user, insert_account, set_account}

abbrev pub internal_error : String → Error
internal_error m = status internal m

-- The columns of the three SELECTs that join users and accounts.
abbrev pub details_columns : List (Table × String)
details_columns =
    of_table users ("id" ∷ "username" ∷ "email" ∷ "pk" ∷ [])
    ++ of_table accounts (
        "id" ∷ "account_name" ∷ "account_type" ∷ "account_number" ∷ "balance" ∷ "currency"
        ∷ "status" ∷ "user_pk" ∷ [])

abbrev pub live_columns : List (Table × String)
live_columns = (users, "deleted_at") ∷ (accounts, "deleted_at") ∷ details_columns

abbrev pub user_columns : List String
user_columns = "id" ∷ "username" ∷ "email" ∷ "password" ∷ []

abbrev pub account_columns : List String
account_columns =
    "id" ∷ "user_pk" ∷ "account_type" ∷ "account_number" ∷ "balance" ∷ "currency" ∷ "status"
    ∷ "account_name" ∷ []

-- (page - 1) * pageSize over uint64, which wraps at page 0.
unfoldable pub page_offset : ℕ → ℕ → ℕ
page_offset page page_size = (page + 2 ^ 64 - 1) % 2 ^ 64 * page_size % 2 ^ 64

module _ (d : Driver) where
  -- Whether the schema takes the two INSERTs of CreateAccount.
  abbrev pub knows_user : Bool
  knows_user = knows d (of_table users ("pk" ∷ user_columns)) && provides d users user_columns

  abbrev pub knows_account : Bool
  knows_account = knows d (of_table accounts account_columns) && provides d accounts account_columns

  -- The first statement of UpdateAccount and of DeleteAccount.
  unfoldable pub user_pk_of : String → Exec World ℕ
  user_pk_of id =
      checked (internal_error "failed to build SQL query") (internal_error "failed to get user pk")
        (status not_found "user not found")
        (statement d (knows d (of_table users ("pk" ∷ "id" ∷ "deleted_at" ∷ [])))
          (find_user_pk d id))

  unfoldable pub remove_accounts : ℕ → ℕ → Exec World ⊤
  remove_accounts now pk =
      checked (internal_error "failed to build account delete SQL")
        (internal_error "failed to delete account") (internal_error "failed to delete account")
        (statement d (knows d (of_table accounts ("deleted_at" ∷ "user_pk" ∷ [])))
          (delete_accounts now pk))

  unfoldable pub remove_user : ℕ → ℕ → Exec World ⊤
  remove_user now pk =
      checked (internal_error "failed to build user delete SQL")
        (internal_error "failed to delete user") (internal_error "failed to delete user")
        (statement d (knows d (of_table users ("deleted_at" ∷ "pk" ∷ []))) (delete_user now pk))

  -- The function that DeleteAccount runs in a database transaction.
  unfoldable pub delete_body : ℕ → String → Exec World ⊤
  delete_body now id = do pk ← user_pk_of id; remove_accounts now pk; remove_user now pk

  unfoldable pub delete_account : String → Exec World ⊤
  delete_account id w = run_in_tx d (delete_body (d.clock w.calls) id) w

  -- The password is updated only if the request has one.
  unfoldable pub update_password : ℕ → String → Exec World ⊤
  update_password pk password =
      if password == ""
      then pure tt
      else checked (internal_error "failed to build password update SQL")
          (internal_error "failed to update password") (internal_error "failed to update password")
          (statement d (knows d (of_table users ("password" ∷ "pk" ∷ [])))
            (set_password pk password))

module _ {F : Type 0} (fl : Float64 F) (d : Driver) where
  unfoldable pub add_user : ℕ → CreateUserRequest F → Exec World ℕ
  add_user now req =
      checked (internal_error "failed to build SQL query")
        (internal_error "failed to execute SQL query")
        (internal_error "failed to execute SQL query")
        (statement d (knows_user d) (insert_user fl d now req))

  unfoldable pub add_account : ℕ → CreateUserRequest F → ℕ → Exec World ⊤
  add_account now req user_pk =
      checked (internal_error "failed to build SQL query")
        (internal_error "failed to execute SQL query")
        (internal_error "failed to execute SQL query")
        (statement d (knows_account d) (insert_account fl d now req user_pk))

  -- The function that CreateAccount runs in a database transaction.
  unfoldable pub create_body : ℕ → CreateUserRequest F → Exec World ⊤
  create_body now req = do user_pk ← add_user now req; add_account now req user_pk

  unfoldable pub create_account : CreateUserRequest F → Exec World ⊤
  create_account req w = run_in_tx d (create_body (d.clock w.calls) req) w

  unfoldable pub get_account : String → Exec World (AccountDetails F)
  get_account id =
      checked (internal_error "failed to build SQL query")
        (internal_error "failed to query account") (status not_found "account not found")
        (statement d (knows d live_columns) (find_account fl d id))

  -- rows.Next, rows.Scan and rows.Err: the loop is cut short by a row that cannot be scanned or by
  -- an error of the connection.
  unfoldable pub scan_rows : List (AccountDetails F) → Exec World (List (AccountDetails F))
  scan_rows rows w = elim (d.fault w.calls) [
    | some unscanned ↦ raise (internal_error "failed to scan account") (tick w)
    | some _ ↦ raise (internal_error "failed to iterate accounts") (tick w)
    | none ↦ pure rows (tick w)
  ]

  abbrev pub require_some : List (AccountDetails F) → Exec World (List (AccountDetails F))
  require_some [] = raise (status not_found "no accounts found")
  require_some rows = pure rows

  -- The query of one page.
  unfoldable pub page_query : ℕ → ℕ → Exec World (List (AccountDetails F))
  page_query page_size offset =
      checked (internal_error "failed to build SQL query")
        (internal_error "failed to query accounts") (internal_error "failed to query accounts")
        (statement d (knows d ((users, "created_at") ∷ live_columns))
          (find_page fl d page_size offset))

  unfoldable pub get_all_accounts : ℕ → ℕ → Exec World (List (AccountDetails F))
  get_all_accounts page page_size = do
    found ← page_query page_size (page_offset page page_size)
    rows ← scan_rows found
    require_some rows

  -- The UPDATE of the user, the UPDATE of the account, and the SELECT of UpdateAccount.
  unfoldable pub update_user : ℕ → ℕ → UpdateAccountRequest F → Exec World ⊤
  update_user now pk req =
      checked (internal_error "failed to build user update SQL")
        (internal_error "failed to update user") (internal_error "failed to update user")
        (statement d (knows d (of_table users ("username" ∷ "email" ∷ "updated_at" ∷ "pk" ∷ [])))
          (set_user_names now pk req.username req.email))

  unfoldable pub update_details : ℕ → ℕ → UpdateAccountRequest F → Exec World ⊤
  update_details now pk req =
      checked (internal_error "failed to build account update SQL")
        (internal_error "failed to update account") (internal_error "failed to update account")
        (statement d
          (knows d (
            of_table accounts (
              "account_name" ∷ "account_type" ∷ "balance" ∷ "currency" ∷ "status" ∷ "updated_at"
              ∷ "user_pk" ∷ [])))
          (set_account fl d now pk req))

  unfoldable pub updated_details : ℕ → Exec World (AccountDetails F)
  updated_details pk =
      checked (internal_error "failed to build details query")
        (internal_error "failed to get updated account details")
        (internal_error "failed to get updated account details")
        (statement d (knows d details_columns) (find_updated fl d pk))

  -- The function that UpdateAccount runs in a database transaction.
  unfoldable pub update_body : ℕ → UpdateAccountRequest F → Exec World (AccountDetails F)
  update_body now req = do
    pk ← user_pk_of d req.id
    update_user now pk req
    update_password d pk req.password
    update_details now pk req
    updated_details pk

  unfoldable pub update_account : UpdateAccountRequest F → Exec World (AccountDetails F)
  update_account req w = run_in_tx d (update_body (d.clock w.calls) req) w
