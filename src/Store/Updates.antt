-- ===== src/Store/Updates.antt =====
-- The effect of each INSERT and UPDATE of app/store/store.go on the tables. One that breaks a
-- UNIQUE or a FOREIGN KEY constraint of the migration fails, and so does one whose value does not
-- fit its column. `now` is the time at which the transaction began.
use dbank.Prelude.{
  ℕ, String, ◌&&◌, ◌||◌, not, none, some, List, [], ◌∷◌, ◌++◌, map, eqb, ◌==◌, if◌then◌else◌,
}
use dbank.Prelude.Int.{ℤ}
use dbank.Status.{⊤}
use dbank.Sql.{User, Account, TransactionRow, Driver, row}
use dbank.Store.Requests.{TransactionRequest}
use dbank.Store.Queries.{Effect, any}

abbrev pub update_users : ℕ → (User → User) → List User → List User
update_users pk f = map (λ u. if eqb u.pk pk then f u else u)

-- UPDATE dbank_accounts ... WHERE user_pk = ?
abbrev pub update_accounts : ℕ → (Account → Account) → List Account → List Account
update_accounts pk f = map (λ a. if eqb a.user_pk pk then f a else a)

-- UPDATE dbank_accounts SET balance = ? WHERE id = ?
abbrev pub balance_to : String → ℤ → Account → Account
balance_to key v a = if a.id == key then record a { balance = v } else a

-- The row that CreateTransaction inserts, under the key `id` and with the stored amount.
abbrev pub transaction_row : ℕ → TransactionRequest → String → ℤ → TransactionRow
transaction_row now req id stored = record {
  id = id;
  from_account_id = req.from_account_id;
  to_account_id = req.to_account_id;
  transaction_type = req.transaction_type;
  amount = stored;
  currency = req.currency;
  description = req.description;
  status = req.status;
  created_at = now;
  updated_at = now;
  deleted_at = none;
}

module _ (d : Driver) where
  unfoldable pub set_balance : String → ℤ → Effect ⊤
  set_balance id v db = elim (d.numeric v) [
    | none ↦ none
    | some stored ↦ elim (d.uuid id) [
      | none ↦ none
      | some key ↦ some (row tt, record db { accounts = map (balance_to key stored) db.accounts })
    ]
  ]

  -- INSERT INTO dbank_transactions ... RETURNING id, the id scanned into an int. `n` numbers the
  -- call.
  unfoldable pub insert_transaction : ℕ → ℕ → TransactionRequest → Effect ℕ
  insert_transaction now n req db = elim (d.numeric req.amount) [
    | none ↦ none
    | some stored ↦ elim (d.to_int (d.new_id n)) [
      | none ↦ none
      | some key ↦ some (
        row key,
        record db {
          transactions = db.transactions ++ transaction_row now req (d.new_id n) stored ∷ [];
        },
      )
    ]
  ]

-- UPDATE dbank_users SET username, email, updated_at WHERE pk = ?
unfoldable pub set_user_names : ℕ → ℕ → String → String → Effect ⊤
set_user_names now pk username email db =
    if any (λ u. eqb u.pk pk) db.users
      && any (λ u. not (eqb u.pk pk) && (u.username == username || u.email == email)) db.users
    then none
    else some (
      row tt,
      record db {
        users =
            update_users pk (λ u. record u { username = username; email = email; updated_at = now })
              db.users;
      },
    )

-- UPDATE dbank_users SET password WHERE pk = ?
unfoldable pub set_password : ℕ → String → Effect ⊤
set_password pk password db =
    some (
      row tt,
      record db { users = update_users pk (λ u. record u { password = password }) db.users },
    )

-- UPDATE dbank_accounts SET deleted_at WHERE user_pk = ?
unfoldable pub delete_accounts : ℕ → ℕ → Effect ⊤
delete_accounts now pk db = some (
  row tt,
  record db { accounts = update_accounts pk (λ a. record a { deleted_at = some now }) db.accounts },
)

-- UPDATE dbank_users SET deleted_at WHERE pk = ?
unfoldable pub delete_user : ℕ → ℕ → Effect ⊤
delete_user now pk db = some (
  row tt,
  record db { users = update_users pk (λ u. record u { deleted_at = some now }) db.users },
)
