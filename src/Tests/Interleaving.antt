-- ===== src/Tests/Interleaving.antt =====
-- Two transfers at the same time: app/service/transactions.go.
use dbank.Prelude.{String, ◌≡◌, ◌≢◌, refl, sym, [], ◌∷◌, eq_iff, arith}
use mathlib.Core.Option.{some-injective}
use dbank.Prelude.Int.{ℤ, pos, ◌+ℤ◌, ◌-ℤ◌, ◌<ℤ◌}
use dbank.Status.{ok}
use dbank.Sql.{statement, checked}
use dbank.Tx.{run_in_tx}
use dbank.Broker.{publish_event}
use dbank.Store.Balances.{total, IsUnique}
use dbank.Store.Queries.{find_account, details}
use dbank.Store.Updates.{set_balance, insert_transaction}
use dbank.Store.Accounts.{get_account}
use dbank.Store.Transactions.{
  update_balance, record_transaction, transaction_body, create_transaction,
}
use dbank.Service.Bank.{Bank, or_wrap}
use dbank.Service.Transactions.{
  CreateTransactionRequest, Plan, validate, settle_plan, read_receiver, read_sender, plan, submit,
  announce, response_of,
}
use dbank.Service.Transactions.Money.{IdsShared, IsExact}
use dbank.Service.Interleaving.{complete}
use dbank.Service.Interleaving.LostUpdate.{complete-lost_update}
use dbank.Tests.World.{
  floats, decimals, named_columns, healthy, driver_over-DeliversOnly, broker, transfer, user,
  account,
}

abbrev trio : Bank
trio = record {
  world = record {
    db = record {
      users = user 1 "alice" ∷ user 2 "bob" ∷ user 3 "carol" ∷ [];
      accounts =
          account 1 "alice" (pos 100) ∷ account 2 "bob" (pos 5) ∷ account 3 "carol" (pos 0) ∷ [];
      transactions = [];
      next_user = 4;
      next_account = 4;
    };
    calls = 0;
  };
  exchange = record { messages = []; calls = 0 };
}

abbrev second : CreateTransactionRequest
second = record transfer { to_account_id = "carol" }

abbrev first_plan : Plan ℤ
first_plan = record {
  amount = pos 30;
  from_account = details floats healthy (user 1 "alice", account 1 "alice" (pos 100));
  to_account = details floats healthy (user 2 "bob", account 2 "bob" (pos 5));
}

abbrev second_plan : Plan ℤ
second_plan = record first_plan {
  to_account = details floats healthy (user 3 "carol", account 3 "carol" (pos 0));
}

abbrev after_plan : CreateTransactionRequest → Bank → Bank
after_plan req b = (plan floats decimals healthy req b).1

abbrev after : CreateTransactionRequest → Plan ℤ → Bank → Bank
after req p b = (complete floats decimals healthy broker req p b).1

first-planned :
    plan floats decimals healthy transfer trio ≡ (ok first_plan, after_plan transfer trio)
unfolding plan validate read_sender read_receiver settle_plan or_wrap get_account statement checked
    find_account
first-planned = refl

abbrev both_planned : Bank
both_planned = after_plan second (after_plan transfer trio)

second-planned :
    plan floats decimals healthy second (after_plan transfer trio) ≡ (ok second_plan, both_planned)
unfolding plan validate read_sender read_receiver settle_plan or_wrap get_account statement checked
    find_account
second-planned = refl

first-completed :
    complete floats decimals healthy broker transfer first_plan both_planned
    ≡ (ok (response_of transfer), after transfer first_plan both_planned)
unfolding complete plan validate read_sender read_receiver settle_plan or_wrap get_account statement
    checked find_account submit create_transaction run_in_tx transaction_body update_balance
    record_transaction set_balance insert_transaction announce publish_event ◌+ℤ◌ ◌-ℤ◌
first-completed = refl

second-completed :
    complete floats decimals healthy broker second second_plan
      (after transfer first_plan both_planned)
    ≡ (ok (response_of second), after second second_plan (after transfer first_plan both_planned))
unfolding complete plan validate read_sender read_receiver settle_plan or_wrap get_account statement
    checked find_account submit create_transaction run_in_tx transaction_body update_balance
    record_transaction set_balance insert_transaction announce publish_event ◌+ℤ◌ ◌-ℤ◌
second-completed = refl

bob≢alice : ◌≢◌ {A = String} "bob" "alice"
bob≢alice = ground (arith, eq_iff "bob" "alice")

carol≢alice : ◌≢◌ {A = String} "carol" "alice"
carol≢alice = ground (arith, eq_iff "carol" "alice")

carol≢bob : ◌≢◌ {A = String} "carol" "bob"
carol≢bob = ground (arith, eq_iff "carol" "bob")

trio-IsUnique : IsUnique trio.world.db.accounts
trio-IsUnique = ((bob≢alice, (carol≢alice, tt)), ((carol≢bob, tt), (tt, tt)))

trio-IdsShared : IdsShared trio.world.db
trio-IdsShared = (
  ((λ _. refl), ((λ e. absurd (omega arith)), ((λ e. absurd (omega arith)), tt))),
  (
    ((λ e. absurd (omega arith)), ((λ _. refl), ((λ e. absurd (omega arith)), tt))),
    (((λ e. absurd (omega arith)), ((λ e. absurd (omega arith)), ((λ _. refl), tt))), tt),
  ),
)

trio-IsExact : IsExact floats healthy trio.world.db.accounts
trio-IsExact = record {
  floats = (refl, (refl, (refl, tt)));
  stores = λ v s e. sym (some-injective v s e);
}

complete-lost_update_example :
    (pos 0 <ℤ pos 30)
    × (total (after second second_plan (after transfer first_plan both_planned)).world.db.accounts
        ≡ total trio.world.db.accounts +ℤ pos 30)
complete-lost_update_example =
    complete-lost_update floats decimals healthy broker transfer second first_plan second_plan trio
      (after_plan transfer trio) both_planned (after transfer first_plan both_planned)
      (after second second_plan (after transfer first_plan both_planned))
      (driver_over-DeliversOnly named_columns) trio-IsUnique trio-IdsShared trio-IsExact
      first-planned second-planned first-completed second-completed refl carol≢bob
