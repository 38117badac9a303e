-- ===== src/Flow/Accounting.antt =====
-- What stays accounted for while transfers of app/service/transactions.go are made and their messages
-- are taken by app/consumer, in any order.
use dbank.Prelude.{List}
use dbank.Broker.{Broker}
use dbank.Service.Bank.{Bank}
use dbank.Service.Transactions.Ended.{Ended}
