-- ===== src/Store/Accounts/RoundTrip.antt =====
-- CreateAccount followed by GetAccount, in app/store/store.go.
use dbank.Prelude.{ℕ, String, ◌≡◌, Bool, ◌&&◌, List, [], ◌∷◌, ◌==◌}
use dbank.Prelude.Int.{ℤ}
use dbank.Sql.{User, Account, Driver, Database}
use dbank.Store.Requests.{Float64, CreateUserRequest}
use dbank.Store.Queries.{is_live}
use dbank.Store.Accounts.Creating.{new_user_row, new_account_row}

module _ (key : String) where
  abbrev found : User × Account → Bool
  found r = r.0.id == key && is_live r

-- A query with one row delivers it.
abbrev pub DeliversOne : Driver → Type 0
DeliversOne d = (r : User × Account) → d.order (r ∷ []) ≡ r ∷ []

module _ {F : Type 0} (fl : Float64 F) (d : Driver) (now : ℕ) (req : CreateUserRequest F) where
  -- The new user and its account, as a query joins them.
  abbrev pub opened : (before : Database) → String → String → ℤ → User × Account
  opened before user_key account_key stored = (
    new_user_row fl d now req before.next_user user_key,
    new_account_row fl d now req before.next_account before.next_user account_key stored,
  )
