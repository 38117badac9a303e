-- ===== src/Tests/Ledger.antt =====
-- Runs of the ledger and of the message loop: app/consumer.
use dbank.Prelude.{
  ◌≡◌, refl, true, false, none, List, [], ◌∷◌, ◌++◌, map, eqb, if◌then◌else◌, arith,
}
use dbank.Prelude.Int.{pos}
use dbank.Status.{⊤, message, driver, annotated, ok, err, Exec}
use dbank.Sql.{committed, lost}
use dbank.Broker.{TransactionEvent}
use dbank.Ledger.Retry.{Failures, is_retriable}
use dbank.Ledger.Entries.{
  MongoLedgerEntry, Mongo, Collection, debit_entry, credit_entry, ledger_handler, entries_of,
}
use dbank.Prelude.{ltb}
use dbank.Status.{raise, pure}
use dbank.Ledger.Entries.{skip}
use dbank.Ledger.Copies.{Booked, ledger_handler-Booked}
use dbank.Ledger.Duplicates.{after_calls, ledger_handler-duplicates}
use dbank.Ledger.Sums.{RepliesArrive, Handled, ledger_handler-Handled}
use dbank.Ledger.Balance.{KeepsDecimals}
use dbank.Consumer.{
  Delivery, MessageHandler, Channel, Signal, done, delivery, consume_messages, server_handlers,
}
use dbank.Consumer.Settling.{taken, settled_delivery, consume_messages-settles}

abbrev pub event : TransactionEvent
event = record {
  transaction_id = "alicebob";
  from_account_id = "alice";
  to_account_id = "bob";
  transaction_type = "transfer";
  amount = "30";
  currency = "EUR";
  status = "success";
  description = "rent";
  timestamp = 0;
}

abbrev pub network : Failures
network = record {
  is_network_error = λ _. true;
  is_timeout = λ _. false;
  command_code = λ _. none;
  done = λ _. false;
}

abbrev pub mongo : Mongo
mongo = record {
  failures = network;
  fault = λ _. false;
  commit = λ _. committed;
  object_id = λ _. "id";
  clock = λ n. n;
  bson = λ v. v;
  unmarshal = λ _. ok event;
  new_from_string = λ _. ok (pos 30);
}

abbrev pub empty : Collection
empty = record { entries = []; calls = 0 }

abbrev pub channel : Channel Collection
channel = record { state = empty; settled = [] }

abbrev pub message_in : Delivery
message_in = record { routing_key = "transaction.success"; exchange = "transactions"; body = "{}" }

abbrev signals : List Signal
signals = delivery message_in ∷ delivery message_in ∷ done ∷ delivery message_in ∷ []

pub mongo-RepliesArrive : RepliesArrive mongo
mongo-RepliesArrive n = ground arith

pub mongo-KeepsDecimals : KeepsDecimals mongo
mongo-KeepsDecimals v = refl

ledger_handler-Handled_example : Handled mongo "{}" empty (ledger_handler mongo "{}" empty)
ledger_handler-Handled_example = ledger_handler-Handled mongo mongo-RepliesArrive "{}" empty

consume_messages-settles_example :
    map settled_delivery (consume_messages (server_handlers mongo) signals channel).settled
    ≡ map settled_delivery channel.settled ++ taken signals
consume_messages-settles_example = consume_messages-settles (server_handlers mongo) signals channel

abbrev nothing : MessageHandler Collection
nothing m s = (ok tt, s)

abbrev broken_call : Exec Collection ⊤
broken_call s = (err (message "down"), s)

-- An operation that fails twice.
abbrev flaky : Exec Collection ⊤
flaky s = if ltb s.calls 2 then raise (message "down") (skip s) else pure tt (skip s)

abbrev third : Collection
third = skip (skip (skip empty))

ledger_handler-Booked_example :
    Booked mongo (entries_of mongo "{}" 0) empty (ledger_handler mongo "{}" empty)
ledger_handler-Booked_example = ledger_handler-Booked mongo "{}" empty

-- The fourth call commits, and its reply is lost.
abbrev losing : Mongo
losing = record mongo { commit = λ n. if eqb n 4 then lost else committed }

abbrev pair : MongoLedgerEntry × MongoLedgerEntry
pair = (debit_entry losing event (pos 30) 0, credit_entry losing event (pos 30) 0)

losing-is_retriable :
    is_retriable network (annotated "failed to commit MongoDB transaction" (driver 4)) ≡ true
unfolding is_retriable
losing-is_retriable = refl

losing-entries : entries_of losing "{}" 0 ≡ ok pair
unfolding entries_of
losing-entries = refl

ledger_handler-duplicates_example :
    ledger_handler losing "{}" empty
    ≡ (ok tt, after_calls losing pair 5 (after_calls losing pair 6 empty))
ledger_handler-duplicates_example =
    ledger_handler-duplicates losing (λ n. refl) pair.0 pair.1 "{}" empty losing-entries refl refl
      losing-is_retriable refl
