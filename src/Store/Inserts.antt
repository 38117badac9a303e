-- ===== src/Store/Inserts.antt =====
-- The INSERTs of a user and of its account, and the UPDATE of an account's five columns, in
-- app/store/store.go. `F` stands for Go's float64.
use dbank.Prelude.{ℕ, ◌+◌, ◌||◌, not, none, some, [], ◌∷◌, ◌++◌, eqb, ◌==◌, if◌then◌else◌}
use dbank.Status.{⊤}
use dbank.Sql.{Driver, row}
use dbank.Store.Requests.{Float64, CreateUserRequest, UpdateAccountRequest}
use dbank.Store.Queries.{Effect, any}
use dbank.Store.Updates.{update_accounts}

module _ {F : Type 0} (fl : Float64 F) (d : Driver) where
  -- INSERT INTO dbank_users (id, username, email, password) ... RETURNING pk
  unfoldable pub insert_user : ℕ → CreateUserRequest F → Effect ℕ
  insert_user now req db = elim (d.uuid req.id) [
    | none ↦ none
    | some key ↦
        if any (λ u. u.id == key || u.username == req.username || u.email == req.email) db.users
        then none
        else some (
          row db.next_user,
          record db {
            users =
                db.users
                ++ record {
                  pk = db.next_user;
                  id = key;
                  username = req.username;
                  email = req.email;
                  password = req.password;
                  created_at = now;
                  updated_at = now;
                  deleted_at = none;
                }
                  ∷ [];
            next_user = db.next_user + 1;
          },
        )
  ]

  -- INSERT INTO dbank_accounts (id, user_pk, account_type, ..., account_name)
  unfoldable pub insert_account : ℕ → CreateUserRequest F → ℕ → Effect ⊤
  insert_account now req user_pk db = elim (d.uuid req.account_id) [
    | none ↦ none
    | some key ↦ elim (fl.bind req.balance) [
      | none ↦ none
      | some stored ↦
          if any (λ a. a.id == key || a.account_number == req.account_number) db.accounts
            || not (any (λ u. eqb u.pk user_pk) db.users)
          then none
          else some (
            row tt,
            record db {
              accounts =
                  db.accounts
                  ++ record {
                    pk = db.next_account;
                    id = key;
                    user_pk = user_pk;
                    account_type = req.account_type;
                    account_number = req.account_number;
                    balance = stored;
                    currency = req.currency;
                    status = req.status;
                    account_name = req.account_name;
                    created_at = now;
                    updated_at = now;
                    deleted_at = none;
                  }
                    ∷ [];
              next_account = db.next_account + 1;
            },
          )
    ]
  ]

  -- UPDATE dbank_accounts SET account_name, account_type, balance, currency, status, updated_at
  -- WHERE user_pk = ?
  unfoldable pub set_account : ℕ → ℕ → UpdateAccountRequest F → Effect ⊤
  set_account now pk req db = elim (fl.bind req.balance) [
    | none ↦ none
    | some stored ↦ some (
      row tt,
      record db {
        accounts =
            update_accounts pk
              (λ a. record a {
                account_name = req.account_name;
                account_type = req.account_type;
                balance = stored;
                currency = req.currency;
                status = req.status;
                updated_at = now;
              })
              db.accounts;
      },
    )
  ]
