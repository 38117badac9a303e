-- ===== src/Broker/Publish.antt =====
-- When PublishEvent of pkg/amqpx/amqp.go hands its message over.
use dbank.Prelude.{ℕ, ◌+◌, String, ◌≡◌, Bool, ◌&&◌, [], ◌∷◌, ◌++◌, if◌then◌else◌, arith}
use dbank.Broker.{Broker, Exchange, Message, TransactionEvent, publish_event}

-- Both calls of a publication that begins at the n-th call succeed.
abbrev pub taken : Broker → ℕ → Bool
taken b n = b.accepts n && b.accepts (n + 1)

abbrev pub message_of : Broker → String → String → TransactionEvent → Message
message_of b exchange key event = record {
  exchange = exchange;
  routing_key = key;
  body = b.marshal event;
}

-- Publishing appends the event's message exactly when both calls of the client succeed, and otherwise
-- leaves the messages as they were.
pub publish_event-messages :
    (b : Broker) (exchange key : String) (event : TransactionEvent) (x : Exchange)
    → (publish_event b exchange key event x).1.messages
      ≡ (if taken b x.calls then x.messages ++ message_of b exchange key event ∷ [] else x.messages)
unfolding publish_event
publish_event-messages b exchange key event x = ground arith
