-- ===== src/Store/Accounts/Paging/Walk.antt =====
-- The pages of GetAllAccounts in app/store/store.go, read one after another.
use dbank.Prelude.{ℕ, zero, suc, List, [], ◌++◌, select}
use dbank.Status.{Exec, pure, ◌>>=◌}
use dbank.Sql.{Driver, Database, World, User, Account, users}
use dbank.Store.Requests.{Float64, AccountDetails}
use dbank.Store.Queries.{newest_first, is_live, join}
use dbank.Store.Accounts.{get_all_accounts}

module _ {F : Type 0} (fl : Float64 F) (d : Driver) where
  -- The rows of live accounts of live users, the newest user first.
  abbrev pub newest : Database → List (User × Account)
  newest db = newest_first (d.order (select is_live (join db.users db.accounts)))

  -- A client that reads the pages from 1 on, one after another.
  abbrev pub read_pages : ℕ → ℕ → Exec World (List (AccountDetails F))
  read_pages page_size zero = pure []
  read_pages page_size (suc n) = do
    rows ← read_pages page_size n
    more ← get_all_accounts fl d (suc n) page_size
    pure (rows ++ more)
