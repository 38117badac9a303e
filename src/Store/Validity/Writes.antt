-- ===== src/Store/Validity/Writes.antt =====
-- The constraints under the INSERTs and UPDATEs of CreateAccount, UpdateAccount and DeleteAccount.
use dbank.Prelude.{
  ℕ, ◌+◌, ◌≡◌, refl, inl, inr, Option-cases, Bool-cases, subst, some, not, ◌||◌, ◌&&◌, String, [],
  ◌∷◌, ◌++◌, arith, eqb, ◌==◌, if◌then◌else◌,
}
use dbank.Sql.{User, Account, Database, Driver}
use dbank.Store.Requests.{Float64, CreateUserRequest, UpdateAccountRequest}
use dbank.Store.Queries.{any}
use dbank.Store.Updates.{
  update_users, update_accounts, set_user_names, set_password, delete_accounts, delete_user,
}
use dbank.Store.Inserts.{insert_user, insert_account, set_account}
use dbank.Store.Validity.{has_user, IsValid}
use dbank.Store.Validity.Rows.{
  ValidUsers-map, ValidAccounts-users, ValidAccounts-map, ValidUsers-append, ValidAccounts-user,
  ValidAccounts-append,
}
use dbank.Store.Validity.Renaming.{ValidUsers-rename}
use dbank.Store.Accounts.Creating.{new_user_row, new_account_row}
use dbank.Store.Validity.Effects.{Preserves}

-- A change of the rows of one user that keeps its keys and UNIQUE columns.
changed_user :
    (pk : ℕ) (f : User → User) (db : Database)
    → ((u : User)
        → ((f u).pk ≡ u.pk)
          × ((f u).id ≡ u.id)
          × ((f u).username ≡ u.username)
          × ((f u).email ≡ u.email))
    → IsValid db
    → IsValid (record db { users = update_users pk f db.users })
changed_user pk f db same v =
    let change : User → User = λ u. if eqb u.pk pk then f u else u in
    (
      ValidUsers-map change db.users db.next_user
          (λ u. let s = same u in (ground arith, ground arith, ground arith, ground arith)) v.0,
      ValidAccounts-users change db.accounts db.users db.next_account
          (λ u. let s = same u in ground arith) v.1,
    )

-- The same for the accounts of one user.
changed_accounts :
    (pk : ℕ) (f : Account → Account) (db : Database)
    → ((a : Account)
        → ((f a).pk ≡ a.pk)
          × ((f a).id ≡ a.id)
          × ((f a).account_number ≡ a.account_number)
          × ((f a).user_pk ≡ a.user_pk))
    → IsValid db
    → IsValid (record db { accounts = update_accounts pk f db.accounts })
changed_accounts pk f db same v = (
  v.0,
  ValidAccounts-map (λ a. if eqb a.user_pk pk then f a else a) db.accounts db.users db.next_account
      (λ a. let s = same a in (ground arith, ground arith, ground arith, ground arith)) v.1,
)

pub set_password-Preserves : (pk : ℕ) (password : String) → Preserves (set_password pk password)
unfolding set_password
set_password-Preserves pk password db db' r v e =
    let done : record db {
      users = update_users pk (λ u. record u { password = password }) db.users;
    }
        ≡ db' =
      ground arith in
    subst IsValid done
      (changed_user pk (λ u. record u { password = password }) db (λ u. (refl, refl, refl, refl)) v)

pub delete_user-Preserves : (now pk : ℕ) → Preserves (delete_user now pk)
unfolding delete_user
delete_user-Preserves now pk db db' r v e =
    let done : record db {
      users = update_users pk (λ u. record u { deleted_at = some now }) db.users;
    }
        ≡ db' =
      ground arith in
    subst IsValid done (
      changed_user pk (λ u. record u { deleted_at = some now }) db (λ u. (refl, refl, refl, refl))
        v)

pub delete_accounts-Preserves : (now pk : ℕ) → Preserves (delete_accounts now pk)
unfolding delete_accounts
delete_accounts-Preserves now pk db db' r v e =
    let done : record db {
      accounts = update_accounts pk (λ a. record a { deleted_at = some now }) db.accounts;
    }
        ≡ db' =
      ground arith in
    subst IsValid done (
      changed_accounts pk (λ a. record a { deleted_at = some now }) db
        (λ a. (refl, refl, refl, refl)) v)

pub set_user_names-Preserves :
    (now pk : ℕ) (username email : String) → Preserves (set_user_names now pk username email)
unfolding set_user_names
set_user_names-Preserves now pk username email db db' r v e =
    elim (Bool-cases (
      has_user pk db.users
      && any (λ u. not (eqb u.pk pk) && (u.username == username || u.email == email)) db.users)) [
        | inl clash ↦ ground arith
        | inr free ↦
            let change : User → User =
              λ u. record u { username = username; email = email; updated_at = now } in
            let done : record db { users = update_users pk change db.users } ≡ db' = ground arith in
            subst IsValid done (
              ValidUsers-rename now pk username email db.users db.next_user free v.0,
              ValidAccounts-users (λ u. if eqb u.pk pk then change u else u) db.accounts db.users
                  db.next_account (λ u. ground arith) v.1,
            )
      ]

module _ {F : Type 0} (fl : Float64 F) (d : Driver) where
  pub set_account-Preserves :
      (now pk : ℕ) (req : UpdateAccountRequest F) → Preserves (set_account fl d now pk req)
  unfolding set_account
  set_account-Preserves now pk req db db' r v e = elim (Option-cases (fl.bind req.balance)) [
    | inl bad ↦ ground arith
    | inr (stored, fits) ↦
        let change : Account → Account = λ a. record a {
          account_name = req.account_name;
          account_type = req.account_type;
          balance = stored;
          currency = req.currency;
          status = req.status;
          updated_at = now;
        } in
        let done : record db { accounts = update_accounts pk change db.accounts } ≡ db' =
          ground arith in
        subst IsValid done (changed_accounts pk change db (λ a. (refl, refl, refl, refl)) v)
  ]

  pub insert_user-Preserves :
      (now : ℕ) (req : CreateUserRequest F) → Preserves (insert_user fl d now req)
  unfolding insert_user
  insert_user-Preserves now req db db' r v e = elim (Option-cases (d.uuid req.id)) [
    | inl bad ↦ ground arith
    | inr (key, is_uuid) ↦
        elim (Bool-cases
          (any (λ u. u.id == key || u.username == req.username || u.email == req.email) db.users)) [
            | inl taken ↦ ground arith
            | inr fresh ↦
                let u = new_user_row fl d now req db.next_user key in
                let done : record db { users = db.users ++ u ∷ []; next_user = db.next_user + 1 }
                    ≡ db' =
                  ground arith in
                subst IsValid done (
                  ValidUsers-append db.users u db.next_user refl fresh v.0,
                  ValidAccounts-user db.accounts db.users u db.next_account v.1,
                )
          ]
  ]

  pub insert_account-Preserves :
      (now : ℕ) (req : CreateUserRequest F) (pk : ℕ) → Preserves (insert_account fl d now req pk)
  unfolding insert_account
  insert_account-Preserves now req pk db db' r v e = elim (Option-cases (d.uuid req.account_id)) [
    | inl bad ↦ ground arith
    | inr (key, is_uuid) ↦ elim (Option-cases (fl.bind req.balance)) [
      | inl bad ↦ ground arith
      | inr (stored, fits) ↦
          elim (Bool-cases
            (any (λ a. a.id == key || a.account_number == req.account_number) db.accounts)) [
              | inl taken ↦ ground arith
              | inr fresh ↦ elim (Bool-cases (has_user pk db.users)) [
                | inr missing ↦ ground arith
                | inl there ↦
                    let a = new_account_row fl d now req db.next_account pk key stored in
                    let done : record db {
                      accounts = db.accounts ++ a ∷ [];
                      next_account = db.next_account + 1;
                    }
                        ≡ db' =
                      ground arith in
                    subst IsValid done (
                      v.0,
                      ValidAccounts-append db.accounts db.users a db.next_account refl fresh there
                          v.1,
                    )
              ]
            ]
    ]
  ]
