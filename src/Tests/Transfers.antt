-- ===== src/Tests/Transfers.antt =====
-- Runs of a transfer: app/service/transactions.go, app/store/store.go and pkg/dbx/tx.go.
use dbank.Prelude.{◌≡◌, ◌≢◌, refl, String, none, inl, inr, eq_iff, arith}
use dbank.Prelude.Int.{pos, ◌+ℤ◌, ◌-ℤ◌}
use dbank.Status.{Error, ok, err}
use dbank.Sql.{Driver, statement, checked}
use dbank.Sql.Schema.{initial_columns}
use dbank.Tx.{run_in_tx}
use dbank.Tx.Atomic.{AllOrNothing, run_in_tx-AllOrNothing}
use dbank.Broker.{publish_event}
use dbank.Store.Requests.{TransactionRequest}
use dbank.Store.Balances.{IsUnique}
use dbank.Store.Queries.{find_account}
use dbank.Store.Updates.{set_balance, insert_transaction}
use dbank.Store.Accounts.{get_account}
use dbank.Store.Transactions.{
  update_balance, record_transaction, transaction_body, create_transaction,
}
use dbank.Service.Bank.{Bank, or_wrap}
use dbank.Service.Transactions.{
  validate, settle_plan, read_receiver, read_sender, plan, submit, announce, response_of,
  create_transaction_handler,
}
use dbank.Service.Transactions.Ended.{Ended, create_transaction_handler-Ended}
use dbank.Service.Transactions.Money.{IdsDisjoint, IdsShared}
use dbank.Service.Transactions.Transfer.{
  create_transaction_handler-moves_nothing, create_transaction_handler-fails,
}
use dbank.Tests.World.{
  floats, decimals, named_columns, healthy, migrated, driver_over-DeliversOnly, broker, shared,
  separate, transfer,
}

abbrev after : Bank → Bank
after b = (create_transaction_handler floats decimals healthy broker transfer b).1

separate-returns :
    create_transaction_handler floats decimals healthy broker transfer separate
    ≡ (ok (response_of transfer), after separate)
unfolding create_transaction_handler plan validate read_sender read_receiver settle_plan or_wrap
    get_account statement checked find_account submit create_transaction run_in_tx transaction_body
    update_balance record_transaction set_balance insert_transaction announce publish_event ◌+ℤ◌
    ◌-ℤ◌
separate-returns = refl

bob≢alice : ◌≢◌ {A = String} "bob" "alice"
bob≢alice = ground (arith, eq_iff "bob" "alice")

pub shared-IsUnique : IsUnique shared.world.db.accounts
shared-IsUnique = ((bob≢alice, tt), (tt, tt))

pub shared-IdsShared : IdsShared shared.world.db
shared-IdsShared = (
  ((λ _. refl), ((λ e. absurd (omega arith)), tt)),
  (((λ e. absurd (omega arith)), ((λ _. refl), tt)), tt),
)

separate-IdsDisjoint : IdsDisjoint separate.world.db
separate-IdsDisjoint = ground (
  arith,
  eq_iff "account-1" "alice",
  eq_iff "account-2" "alice",
  eq_iff "account-1" "bob",
  eq_iff "account-2" "bob",
)

create_transaction_handler-Ended_example :
    Ended floats decimals healthy broker transfer shared
      (create_transaction_handler floats decimals healthy broker transfer shared)
create_transaction_handler-Ended_example =
    create_transaction_handler-Ended floats decimals healthy broker transfer shared
      (driver_over-DeliversOnly named_columns)

create_transaction_handler-moves_nothing_example :
    ((after separate).world.db.accounts ≡ separate.world.db.accounts)
    × ((response_of transfer).status ≡ "success")
create_transaction_handler-moves_nothing_example =
    create_transaction_handler-moves_nothing floats decimals healthy broker transfer separate
      (after separate) (driver_over-DeliversOnly named_columns) separate-IdsDisjoint
      separate-returns

create_transaction_handler-fails_example :
    ((e : Error) × ((create_transaction_handler floats decimals migrated broker transfer shared).0
        ≡ err e))
    × ((create_transaction_handler floats decimals migrated broker transfer shared).1.world.db
        ≡ shared.world.db)
    × ((create_transaction_handler floats decimals migrated broker transfer shared).1.exchange
        ≡ shared.exchange)
create_transaction_handler-fails_example =
    create_transaction_handler-fails floats decimals migrated broker transfer shared
      (driver_over-DeliversOnly initial_columns) (inl refl)

-- A database whose keys for transactions are no numbers.
abbrev uuids : Driver
uuids = record healthy { to_int = λ _. none }

uuids-fails :
    ((e : Error) × ((create_transaction_handler floats decimals uuids broker transfer shared).0
        ≡ err e))
    × ((create_transaction_handler floats decimals uuids broker transfer shared).1.world.db
        ≡ shared.world.db)
    × ((create_transaction_handler floats decimals uuids broker transfer shared).1.exchange
        ≡ shared.exchange)
uuids-fails =
    create_transaction_handler-fails floats decimals uuids broker transfer shared (λ r rows m. m)
      (inr (λ n. refl))

abbrev request : TransactionRequest
request = record {
  transaction_id = "";
  from_account_id = "alice";
  from_account_balance = pos 70;
  to_account_id = "bob";
  to_account_balance = pos 35;
  transaction_type = "transfer";
  amount = pos 30;
  currency = "EUR";
  description = "rent";
  status = "success";
}

run_in_tx-AllOrNothing_example :
    AllOrNothing healthy
      (transaction_body healthy 0 request)
      shared.world
      (run_in_tx healthy (transaction_body healthy 0 request) shared.world)
run_in_tx-AllOrNothing_example =
    run_in_tx-AllOrNothing healthy (transaction_body healthy 0 request) shared.world
