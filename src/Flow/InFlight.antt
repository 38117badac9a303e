-- ===== src/Flow/InFlight.antt =====
-- Transfers of app/service/transactions.go and messages taken by app/consumer, in any order: the
-- balances of the store, the ledger, and the messages that are still on their way.
use dbank.Prelude.{ℕ, String, ◌≡◌, ◌≢◌, true, some, List, [], ◌∷◌, ◌++◌}
use dbank.Prelude.Int.{ℤ}
use dbank.Status.{Error, ok, err}
use dbank.Sql.{Driver, lost}
use dbank.Broker.{Broker, transaction_exchange, transaction_success_route}
use dbank.Broker.Publish.{taken}
use dbank.Store.Requests.{Float64}
use dbank.Store.Accounts.Lookup.{DeliversOnly}
use dbank.Service.Bank.{Bank}
use dbank.Service.Transactions.{
  CreateTransactionRequest, CreateTransactionResponse, Decimals, event_of,
  create_transaction_handler,
}
use dbank.Service.Transactions.Solvency.{Solvent, ExactUpTo}
use dbank.Ledger.Entries.{Mongo, Collection}
use dbank.Ledger.Sums.{RepliesArrive}
use dbank.Ledger.Balance.{KeepsDecimals}
use dbank.Consumer.{Delivery, Channel, ack, requeue, handle_message, server_handlers}
use dbank.Flow.{SpeaksAlike}
use dbank.Flow.Agreement.{Follows}
use dbank.Flow.Due.{due}

-- The bank, the bodies of the messages in the queue of successful transfers, and the consumer.
pub record System : Type 0 where
  pub bank : Bank
  pub queue : List String
  pub channel : Channel Collection

abbrev pub message_with : String → Delivery
message_with body = record {
  routing_key = transaction_success_route;
  exchange = transaction_exchange;
  body = body;
}

module _ {F : Type 0} (fl : Float64 F) (dec : Decimals) (d : Driver) (mq : Broker) (m : Mongo) where
  -- The body that a transfer publishes.
  abbrev pub body_of : CreateTransactionRequest → Bank → String
  body_of req b = mq.marshal (event_of req (mq.unix_time b.exchange.calls))

  abbrev pub taking : String → Channel Collection → Channel Collection
  taking body c = handle_message (server_handlers m) (message_with body) c

  -- A transfer that returns, and whose message RabbitMQ takes into the queue; one that fails; a message
  -- of any place in the queue that the consumer acknowledges; and one that it puts back.
  pub data Step : System → System → Type 0 where
    transferred :
        (req : CreateTransactionRequest) (s : System) (b' : Bank)
        (response : CreateTransactionResponse)
        → SpeaksAlike fl dec d mq m req
        → d.uuid req.from_account_id ≡ some req.from_account_id
        → d.uuid req.to_account_id ≡ some req.to_account_id
        → mq.connected ≡ true
        → taken mq s.bank.exchange.calls ≡ true
        → create_transaction_handler fl dec d mq req s.bank ≡ (ok response, b')
        → Step s (record s { bank = b'; queue = s.queue ++ body_of req s.bank ∷ [] })
    failed :
        (req : CreateTransactionRequest) (s : System) (b' : Bank) (e : Error)
        → create_transaction_handler fl dec d mq req s.bank ≡ (err e, b')
        → Step s (record s { bank = b' })
    acknowledged :
        (s : System) (body : String) (pre post : List String)
        → s.queue ≡ pre ++ body ∷ post
        → (taking body s.channel).settled ≡ s.channel.settled ++ ack (message_with body) ∷ []
        → Step s (record s { queue = pre ++ post; channel = taking body s.channel })
    put_back :
        (s : System) (body : String) (pre post : List String)
        → s.queue ≡ pre ++ body ∷ post
        → (taking body s.channel).settled ≡ s.channel.settled ++ requeue (message_with body) ∷ []
        → Step s (record s { channel = taking body s.channel })

  pub data Run : System → System → Type 0 where
    here : (s : System) → Run s s
    further : (s t u : System) → Step s t → Run t u → Run s u

  -- The tables keep the sum of all balances, and every account has what it opened with, what the
  -- ledger has booked for it, and what the messages in the queue mean for it.
  pub record Accounted (sum : ℤ) (opening : String → ℤ) (s : System) : Type 0 where
    pub solvent : Solvent sum s.bank.world.db
    pub balances : Follows opening s.bank.world.db.accounts (due m s.channel s.queue)

  -- A query delivers only its own rows; balances up to the sum survive a float64 and are stored without
  -- rounding; no commit of PostgreSQL or MongoDB takes place without its reply; and a decimal is read
  -- back from MongoDB as it was written.
  pub record Reliable (sum : ℤ) : Type 0 where
    pub delivers : DeliversOnly d
    pub exact : ExactUpTo sum fl d
    pub commits : (n : ℕ) → d.commit n ≢ lost
    pub arrive : RepliesArrive m
    pub keep : KeepsDecimals m
