-- ===== src/Consumer.antt =====
-- app/consumer/consumer.go: the dispatch of RabbitMQ deliveries, over the state S of the handlers,
-- and the handlers that app/server.go registers.
pub mod Settling
pub mod Outage
use dbank.Prelude.{String, Option, none, some, List, [], ◌∷◌, ◌++◌, ◌==◌, if◌then◌else◌}
use dbank.Status.{⊤, Error, annotated, Result, ok, err, Exec}
use dbank.Broker.{TransactionEvent, transaction_success_route, transaction_failure_route}
use dbank.Ledger.Entries.{Mongo, Collection, ledger_handler}

pub record Delivery : Type 0 where
  pub routing_key : String
  pub exchange : String
  pub body : String

-- delivery.Ack(false) and delivery.Reject(true); an error of either is only logged.
pub data Settlement : Type 0 where
  ack requeue : Delivery → Settlement

abbrev pub MessageHandler : Type 0 → Type 0
MessageHandler S = Delivery → Exec S ⊤

abbrev pub Handlers : Type 0 → Type 0
Handlers S = List (String × MessageHandler S)

-- The state of the handlers, and the settlements sent so far, oldest first.
pub record Channel (S : Type 0) : Type 0 where
  pub state : S
  pub settled : List Settlement

-- What the select of consumeMessages takes next: the end of the context, the close of the channel,
-- or a delivery.
pub data Signal : Type 0 where
  done closed : Signal
  delivery : Delivery → Signal

-- An error of the handler puts the message back.
abbrev pub settle : Delivery → Result ⊤ → Settlement
settle m (ok _) = ack m
settle m (err _) = requeue m

module _ {S : Type 0} where
  -- c.handlers[routingKey] = handler
  unfoldable pub register_handler : String → MessageHandler S → Handlers S → Handlers S
  register_handler key h [] = (key, h) ∷ []
  register_handler key h ((k, g) ∷ hs) =
      if k == key then (key, h) ∷ hs else (k, g) ∷ register_handler key h hs

  unfoldable pub find_handler : String → Handlers S → Option (MessageHandler S)
  find_handler key [] = none
  find_handler key ((k, g) ∷ hs) = if k == key then some g else find_handler key hs

  -- A message with an unknown routing key is dropped: it is acknowledged.
  abbrev pub run_handler : Option (MessageHandler S) → MessageHandler S
  run_handler none m s = (ok tt, s)
  run_handler (some h) m s = h m s

  unfoldable pub handle_message : Handlers S → Delivery → Channel S → Channel S
  handle_message hs m c =
      let (r, s) = run_handler (find_handler m.routing_key hs) m c.state in
      record { state = s; settled = c.settled ++ settle m r ∷ [] }

  -- The loop over what the select takes; it waits where the list ends.
  unfoldable pub consume_messages : Handlers S → List Signal → Channel S → Channel S
  consume_messages hs [] c = c
  consume_messages hs (done ∷ rest) c = c
  consume_messages hs (closed ∷ rest) c = c
  consume_messages hs (delivery m ∷ rest) c = consume_messages hs rest (handle_message hs m c)

-- ProcessSuccessfulTransaction, ProcessFailedTransaction and DefaultTransactionHandler differ only
-- in what they log.
unfoldable pub process_transaction :
    {S : Type 0} → (String → Result TransactionEvent) → MessageHandler S
process_transaction unmarshal m s = elim (unmarshal m.body) [
  | ok _ ↦ (ok tt, s)
  | err e ↦ (err (annotated "failed to unmarshal transaction event" e), s)
]

-- The three registrations of NewServer, in their order.
unfoldable pub server_handlers : Mongo → Handlers Collection
unfolding register_handler
server_handlers m =
    register_handler transaction_success_route (λ d. ledger_handler m d.body)
      (register_handler transaction_failure_route (process_transaction m.unmarshal)
        (register_handler transaction_success_route (process_transaction m.unmarshal) []))
