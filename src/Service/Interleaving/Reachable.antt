-- ===== src/Service/Interleaving/Reachable.antt =====
-- The constraints of the tables under requests at the same time.
use dbank.Status.Keeps.{Keeps}
use dbank.Broker.{Broker}
use dbank.Service.Bank.{Bank}
