-- ===== src/Service/Transactions/Success.antt =====
-- When CreateTransaction of app/service/transactions.go returns a response.
use dbank.Prelude.{ℕ, String, ◌≡◌, true, none, some}
use dbank.Prelude.Int.{ℤ}
use dbank.Sql.{Driver, Database, row, committed, knows}
use dbank.Broker.{Broker}
use dbank.Store.Requests.{Float64, AccountDetails}
use dbank.Store.Queries.{find_account}
use dbank.Store.Accounts.{live_columns}
use dbank.Store.Transactions.{knows_balance, knows_transaction}
use dbank.Service.Bank.{Bank}
use dbank.Service.Transactions.{Decimals}

-- A PostgreSQL that accepts every statement of a transfer and commits, and whose schema has the
-- columns that the code names.
pub record Healthy (d : Driver) : Type 0 where
  pub no_fault : (n : ℕ) → d.fault n ≡ none
  pub commits : (n : ℕ) → d.commit n ≡ committed
  pub knows_accounts : knows d live_columns ≡ true
  pub knows_balances : knows_balance d ≡ true
  pub knows_transactions : knows_transaction d ≡ true
  pub reads_ids : (n : ℕ) → (k : ℕ) × (d.to_int (d.new_id n) ≡ some k)
  pub stores : (v : ℤ) → (s : ℤ) × (d.numeric v ≡ some s)

module _ (d : Driver) (fine : Healthy d) where
  module _ {F : Type 0} (fl : Float64 F) (dec : Decimals) where
    -- The store finds an account under the id.
    abbrev pub Finds : String → Database → AccountDetails F → Type 0
    Finds id db f = find_account fl d id db ≡ some (row f, db)
