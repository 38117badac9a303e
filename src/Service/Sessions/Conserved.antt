-- ===== src/Service/Sessions/Conserved.antt =====
-- The money of the bank under a sequence of transfers and of requests that only read.
use dbank.Prelude.{ℕ, String, ◌≡◌, sym, subst, List, [], ◌∷◌, All, arith}
use dbank.Prelude.Int.{ℤ}
use dbank.Sql.{Driver}
use dbank.Broker.{Broker}
use dbank.Store.Requests.{Float64}
use dbank.Store.Accounts.{page_query, scan_rows, get_all_accounts}
use dbank.Store.Accounts.Lookup.{DeliversOnly, get_account-reads}
use dbank.Store.Queries.{find_page, find_transaction}
use dbank.Store.Transactions.{get_transaction as load_transaction}
use dbank.Sql.{statement, checked}
use dbank.Service.Bank.{Bank, require, or_wrap}
use dbank.Service.Accounts.{Secrets, get_account_handler, list_accounts_handler}
use dbank.Service.Transactions.{Decimals, get_transaction_handler}
use dbank.Service.Transactions.Solvency.{Solvent, ExactUpTo, create_transaction_handler-Solvent}
use dbank.Service.Sessions.{
  Request, create_account, list_accounts, get_account, update_account, delete_account,
  create_transaction, get_transaction, handle, run,
}

-- A request that opens, edits and closes no account.
abbrev pub Moves : Request → Type 0
Moves (create_account _ _) = ⊥
Moves (list_accounts _ _) = Unit
Moves (get_account _) = Unit
Moves (update_account _) = ⊥
Moves (delete_account _) = ⊥
Moves (create_transaction _) = Unit
Moves (get_transaction _) = Unit

module _ {F : Type 0} (fl : Float64 F) (dec : Decimals) (sec : Secrets) (d : Driver) where
  get_account_handler-reads :
      (id : String) (b : Bank) → (get_account_handler fl sec d id b).1.world.db ≡ b.world.db
  unfolding get_account_handler require or_wrap
  get_account_handler-reads id b = ground (arith, get_account-reads fl d id b.world)

  get_transaction_handler-reads :
      (id : String) (b : Bank) → (get_transaction_handler dec d id b).1.world.db ≡ b.world.db
  unfolding get_transaction_handler require or_wrap load_transaction statement checked
      find_transaction
  get_transaction_handler-reads id b = ground arith

  list_accounts_handler-reads :
      (page size : ℕ) (b : Bank)
      → (list_accounts_handler fl sec d page size b).1.world.db ≡ b.world.db
  unfolding list_accounts_handler or_wrap get_all_accounts page_query scan_rows statement checked
      find_page
  list_accounts_handler-reads page size b = ground arith

  module _ (mq : Broker) (sum : ℤ) (exact : ExactUpTo sum fl d) (only : DeliversOnly d) where
    handle-Solvent :
        (request : Request) (b : Bank)
        → Moves request
        → Solvent sum b.world.db
        → Solvent sum (handle fl dec sec d mq request b).world.db
    unfolding handle
    handle-Solvent (create_account _ _) b m s = absurd m
    handle-Solvent (list_accounts page size) b m s =
        subst (Solvent sum) (sym (list_accounts_handler-reads page size b)) s
    handle-Solvent (get_account id) b m s =
        subst (Solvent sum) (sym (get_account_handler-reads id b)) s
    handle-Solvent (update_account _) b m s = absurd m
    handle-Solvent (delete_account _) b m s = absurd m
    handle-Solvent (create_transaction req) b m s =
        create_transaction_handler-Solvent fl dec d sum exact req mq b only s
    handle-Solvent (get_transaction id) b m s =
        subst (Solvent sum) (sym (get_transaction_handler-reads id b)) s

    -- Any sequence of transfers and of requests that only read, with any failures on the way, keeps the
    -- sum of all balances, and makes no balance negative, where every account has the id of its user,
    -- no two accounts share an id, and no balance is negative at the start. The conditions on the
    -- environment: a query delivers only its own rows, balances up to the sum survive a float64, and a
    -- decimal that is stored is not rounded.
    pub run-Solvent :
        (requests : List Request) (b : Bank)
        → All Moves requests
        → Solvent sum b.world.db
        → Solvent sum (run fl dec sec d mq requests b).world.db
    unfolding run
    run-Solvent [] b m s = s
    run-Solvent (request ∷ requests) b (m, ms) s =
        run-Solvent requests (handle fl dec sec d mq request b) ms (handle-Solvent request b m s)
