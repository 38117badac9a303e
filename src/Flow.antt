-- ===== src/Flow.antt =====
-- The path of a transfer through the whole server: app/service/transactions.go writes it and publishes
-- its event, and app/consumer takes the message and books it in the ledger.
pub mod Agreement
pub mod Following
pub mod Due
pub mod InFlight
pub mod Accounting
use dbank.Prelude.{ℕ, String, ◌≡◌, ◌⊎◌, [], ◌∷◌, ◌++◌, map}
use dbank.Prelude.Int.{ℤ, neg}
use dbank.Status.{ok}
use dbank.Sql.{Driver}
use dbank.Broker.{Broker, Message}
use dbank.Store.Requests.{Float64}
use dbank.Service.Bank.{Bank}
use dbank.Service.Transactions.{CreateTransactionRequest, Decimals, transaction_id_of, event_of}
use dbank.Service.Transactions.Ended.{Ended}
use dbank.Ledger.Entries.{MongoLedgerEntry, Mongo, Collection}
use dbank.Consumer.{Delivery, Channel, ack, requeue}

-- A message as RabbitMQ delivers it.
abbrev pub delivery_of : Message → Delivery
delivery_of msg = record { routing_key = msg.routing_key; exchange = msg.exchange; body = msg.body }

-- What an entry says of the money: the transaction, the account, the side and the signed amount.
abbrev pub posting : MongoLedgerEntry → String × String × String × ℤ
posting e = (e.transaction_id, e.account_id, e.entry_type, e.balance)

-- What the consumer has done with the message of a transfer of `amount`: it is acknowledged, and the
-- ledger has the two postings of the transfer in addition; or it is put back, and the ledger is as
-- it was.
abbrev pub Booked :
    CreateTransactionRequest → ℤ → Delivery → Channel Collection → Channel Collection → Type 0
Booked req amount m c c' =
    ((c'.settled ≡ c.settled ++ ack m ∷ [])
      × (map posting c'.state.entries
          ≡ map posting c.state.entries
            ++ (transaction_id_of req, req.from_account_id, "debit", neg amount)
              ∷ (transaction_id_of req, req.to_account_id, "credit", amount)
              ∷ []))
    ⊎ ((c'.settled ≡ c.settled ++ requeue m ∷ []) × (c'.state.entries ≡ c.state.entries))

module _ {F : Type 0} (fl : Float64 F) (dec : Decimals) (d : Driver) (mq : Broker) (m : Mongo)
    (req : CreateTransactionRequest) where
  -- The two sides read each other's texts: the consumer parses the JSON that the service wrote, and
  -- both parse an amount alike.
  pub record SpeaksAlike : Type 0 where
    pub events :
        (n : ℕ)
        → m.unmarshal (mq.marshal (event_of req (mq.unix_time n)))
          ≡ ok (event_of req (mq.unix_time n))
    pub amounts : m.new_from_string req.amount ≡ dec.new_from_string req.amount
