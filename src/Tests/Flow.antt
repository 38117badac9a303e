-- ===== src/Tests/Flow.antt =====
-- A transfer, its message and its booking: app/service/transactions.go and app/consumer.
use dbank.Prelude.{◌≡◌, refl}
use dbank.Prelude.Int.{ℤ, pos}
use dbank.Status.{ok}
use dbank.Broker.{Broker, publish_event}
use dbank.Store.Requests.{AccountDetails}
use dbank.Store.Queries.{details, find_account}
use dbank.Tx.{run_in_tx}
use dbank.Sql.{statement, checked}
use dbank.Prelude.Int.{◌+ℤ◌, ◌-ℤ◌}
use dbank.Store.Updates.{set_balance, insert_transaction}
use dbank.Store.Accounts.{get_account}
use dbank.Store.Transactions.{
  update_balance, record_transaction, transaction_body, create_transaction,
}
use dbank.Service.Bank.{Bank, or_wrap}
use dbank.Service.Transactions.{
  validate, settle_plan, read_receiver, read_sender, plan, submit, announce, response_of,
  create_transaction_handler,
}
use dbank.Flow.{SpeaksAlike}
use dbank.Prelude.{String, ◌==◌, if◌then◌else◌}
use dbank.Tests.World.{floats, decimals, healthy, broker, shared, transfer, user, account}
use dbank.Tests.Ledger.{mongo}

abbrev sender : AccountDetails ℤ
sender = details floats healthy (user 1 "alice", account 1 "alice" (pos 100))

abbrev receiver : AccountDetails ℤ
receiver = details floats healthy (user 2 "bob", account 2 "bob" (pos 5))

-- A broker whose clock stands still, so that the one event that `mongo` reads is the one published.
abbrev pub still : Broker
still = record broker { unix_time = λ _. 0 }

abbrev pub done : Bank
done = (create_transaction_handler floats decimals healthy still transfer shared).1

pub still-returns :
    create_transaction_handler floats decimals healthy still transfer shared
    ≡ (ok (response_of transfer), done)
unfolding create_transaction_handler plan validate read_sender read_receiver settle_plan or_wrap
    get_account statement checked find_account submit create_transaction run_in_tx transaction_body
    update_balance record_transaction set_balance insert_transaction announce publish_event ◌+ℤ◌
    ◌-ℤ◌
still-returns = refl

pub still-SpeaksAlike : SpeaksAlike floats decimals healthy still mongo transfer
still-SpeaksAlike = record { events = λ n. refl; amounts = refl }

-- What the two accounts hold before the ledger has any entry.
abbrev pub opening : String → ℤ
opening id = if id == "alice" then pos 100 else if id == "bob" then pos 5 else pos 0
