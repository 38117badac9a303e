-- ===== src/Store/Validity.antt =====
-- The constraints of the tables of db/migrations/postgres/20240912143506_initial.sql: PRIMARY KEY,
-- UNIQUE, REFERENCES, and the SERIAL counters.
pub mod Rows
pub mod Renaming
pub mod Effects
pub mod Writes
pub mod Operations
pub mod Accounts
use dbank.Prelude.{◌≡◌, ◌<◌, Bool, true, eqb, List, All, ℕ}
use dbank.Prelude.Distinct.{Distinct}
use dbank.Sql.{User, Account, Database, World}
use dbank.Store.Queries.{any}

abbrev pub has_user : ℕ → List User → Bool
has_user pk users = any (λ u. eqb u.pk pk) users

-- dbank_users: the keys that were drawn from the counter, and the UNIQUE columns.
pub record ValidUsers (users : List User) (next : ℕ) : Type 0 where
  pub drawn : All (λ u. u.pk < next) users
  pub pks : Distinct (λ u. u.pk) users
  pub ids : Distinct (λ u. u.id) users
  pub usernames : Distinct (λ u. u.username) users
  pub emails : Distinct (λ u. u.email) users

-- dbank_accounts: the same, and each account belongs to a user.
pub record ValidAccounts (accounts : List Account) (users : List User) (next : ℕ) : Type 0 where
  pub drawn : All (λ a. a.pk < next) accounts
  pub pks : Distinct (λ a. a.pk) accounts
  pub ids : Distinct (λ a. a.id) accounts
  pub numbers : Distinct (λ a. a.account_number) accounts
  pub owned : All (λ a. has_user a.user_pk users ≡ true) accounts

abbrev pub IsValid : Database → Type 0
IsValid db = ValidUsers db.users db.next_user × ValidAccounts db.accounts db.users db.next_account

-- A state whose tables keep the constraints.
abbrev pub Sound : World → Type 0
Sound w = IsValid w.db
