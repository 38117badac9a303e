-- ===== src/Broker.antt =====
-- pkg/amqpx: the event that the server publishes, and PublishEvent of pkg/amqpx/amqp.go.
pub mod Publish
pub mod Queues
use dbank.Prelude.{ℕ, ◌+◌, String, Bool, Option, List, [], ◌∷◌, ◌++◌, if◌then◌else◌}
use dbank.Prelude.Int.{ℤ}
use dbank.Status.{⊤, driver, err, Exec, pure, raise, ◌>>=◌, ◌>>◌, annotating}

pub record TransactionEvent : Type 0 where
  pub transaction_id : String
  pub from_account_id : String
  pub to_account_id : String
  pub transaction_type : String
  pub amount : String
  pub currency : String
  pub status : String
  pub description : String
  pub timestamp : ℕ

abbrev pub transaction_exchange : String
transaction_exchange = "transactions"

abbrev pub transaction_success_route : String
transaction_success_route = "transaction.success"

abbrev pub transaction_failure_route : String
transaction_failure_route = "transaction.failure"

-- A message as the exchange holds it; the body is the event in JSON.
pub record Message : Type 0 where
  pub exchange : String
  pub routing_key : String
  pub body : String

-- What RabbitMQ and encoding/json decide: whether a call succeeds, by its number, and the JSON.
pub record Broker : Type 0 where
  pub connected : Bool
  pub accepts : ℕ → Bool
  pub marshal : TransactionEvent → String
  pub unmarshal : String → Option TransactionEvent
  pub unix_time : ℕ → ℕ

-- The messages that RabbitMQ has taken, oldest first, and the calls made so far.
pub record Exchange : Type 0 where
  pub messages : List Message
  pub calls : ℕ

abbrev call : Broker → Exec Exchange ⊤
call b x =
    if b.accepts x.calls
    then pure tt (record x { calls = x.calls + 1 })
    else raise (driver x.calls) (record x { calls = x.calls + 1 })

-- ExchangeDeclare, with the exchange durable.
unfoldable pub ensure_exchange : Broker → Exec Exchange ⊤
ensure_exchange b = call b

abbrev deliver : Message → Exec Exchange ⊤
deliver m x = pure tt (record x { messages = x.messages ++ m ∷ [] })

unfoldable pub publish_event : Broker → String → String → TransactionEvent → Exec Exchange ⊤
unfolding ensure_exchange
publish_event b exchange routing_key event = do
  annotating "failed to ensure exchange" (ensure_exchange b)
  call b
  deliver (record { exchange = exchange; routing_key = routing_key; body = b.marshal event })
