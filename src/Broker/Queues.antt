-- ===== src/Broker/Queues.antt =====
-- ConsumeEvents of pkg/amqpx/amqp.go and Start of app/consumer/consumer.go, over the exchanges, the
-- queues and the bindings of RabbitMQ.
pub mod Consuming
use dbank.Prelude.{ℕ, ◌+◌, String, ◌≡◌, refl, Bool, List, [], ◌∷◌, ◌++◌, arith, if◌then◌else◌}
use dbank.Status.{⊤, Error, driver, Result, ok, err, Exec, pure, raise, ◌>>=◌, ◌>>◌, annotating}
use dbank.Broker.{transaction_exchange}

pub record Binding : Type 0 where
  pub queue : String
  pub routing_key : String
  pub exchange : String

-- What has been declared, newest first; declaring a durable exchange or queue again changes nothing
-- that a client sees. `consumers` names the queues that are consumed from.
pub record Topology : Type 0 where
  pub exchanges : List String
  pub queues : List String
  pub bindings : List Binding
  pub consumers : List String
  pub calls : ℕ

-- A call of the channel, which succeeds or fails by its number.
unfoldable pub channel_call : (ℕ → Bool) → (Topology → Topology) → Exec Topology ⊤
channel_call accepts f t =
    if accepts t.calls
    then pure tt (record (f t) { calls = t.calls + 1 })
    else raise (driver t.calls) (record t { calls = t.calls + 1 })

module _ (accepts : ℕ → Bool) (exchange queue routing_key : String) where
  -- The four calls of ConsumeEvents: without auto-ack, on a durable queue.
  unfoldable pub consume_events : Exec Topology ⊤
  consume_events = do
    annotating "failed to ensure exchange"
        (channel_call accepts (λ t. record t { exchanges = exchange ∷ t.exchanges }))
    annotating "failed to declare queue"
        (channel_call accepts (λ t. record t { queues = queue ∷ t.queues }))
    annotating "failed to bind queue" (
        channel_call accepts (λ t. record t {
          bindings =
              record { queue = queue; routing_key = routing_key; exchange = exchange } ∷ t.bindings;
        }))
    annotating "failed to consume"
        (channel_call accepts (λ t. record t { consumers = queue ∷ t.consumers }))

abbrev pub consumer_queue : String
consumer_queue = "dbank.transactions.consumer"

-- Start of the consumer: every routing key of the exchange is bound.
unfoldable pub start_consumer : (ℕ → Bool) → Exec Topology ⊤
start_consumer accepts =
    annotating "failed to consume events"
      (consume_events accepts transaction_exchange consumer_queue "#")
