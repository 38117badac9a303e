-- ===== src/Tests/Server.antt =====
-- Runs of the server's construction and shutdown: app/server.go, pkg/dbx and pkg/amqpx.
use dbank.Prelude.{◌≡◌, refl, true, false, List, [], ◌∷◌, ◌++◌, leb}
use dbank.Prelude.Int.{pos}
use dbank.Status.{ok}
use dbank.Host.{Host, Platform, invoke, change, release, deferring}
use dbank.Connections.{
  PostgresOption, default_postgres, configure, conn_attempts, dial, new_postgres, new_redis_client,
  new_mongo_client, open_channel, new_rabbitmq_client,
}
use dbank.Connections.Opening.{Opened, new_rabbitmq_client-Opened, Pooled, new_postgres-Pooled}
use dbank.Broker.Queues.{Topology, consume_events}
use dbank.Broker.Queues.Consuming.{Consuming, consume_events-Consuming}
use dbank.Ledger.Entries.{Mongo}
use dbank.Consumer.{requeue, handle_message, server_handlers}
use dbank.Server.{Server, ensure_ledger_indexes, build_server, with_mongo, new_server}
use dbank.Server.Closing.{new_server-records_nothing}
use dbank.Tests.Ledger.{mongo, channel, message_in}

-- The first three calls fail, and no other.
abbrev slow : Platform
slow = record { fails = λ n. leb n 2; holds = λ _. false }

abbrev steady : Platform
steady = record { fails = λ _. false; holds = λ _. false }

abbrev fresh : Host
fresh = record {
  pool = false;
  redis = false;
  mongo = false;
  connection = false;
  channel = false;
  listener = false;
  indexes = [];
  serving_http = false;
  serving_grpc = false;
  consuming = false;
  sleeps = [];
  calls = 0;
}

abbrev three_attempts : List PostgresOption
three_attempts = conn_attempts (pos 3) ∷ []

new_postgres-Pooled_example :
    Pooled slow 3
      (configure three_attempts default_postgres)
      fresh
      (new_postgres slow three_attempts fresh)
new_postgres-Pooled_example = new_postgres-Pooled slow three_attempts 2 fresh refl

new_rabbitmq_client-Opened_example : Opened slow fresh (new_rabbitmq_client slow fresh)
new_rabbitmq_client-Opened_example = new_rabbitmq_client-Opened slow fresh

-- The MongoDB of a server whose client has been disconnected.
abbrev gone : Mongo
gone = record mongo { fault = λ _. true }

abbrev server : Server
server = record { handlers = server_handlers gone; rabbitmq_client = true; mongo_client = true }

server-returns : new_server steady gone fresh ≡ (ok server, (new_server steady gone fresh).1)
unfolding new_server with_mongo build_server ensure_ledger_indexes new_postgres new_redis_client
    new_mongo_client new_rabbitmq_client dial open_channel invoke change release deferring
server-returns = refl

new_server-records_nothing_example :
    ((handle_message (server_handlers gone) message_in channel).state.entries
      ≡ channel.state.entries)
    × ((handle_message (server_handlers gone) message_in channel).settled
        ≡ channel.settled ++ requeue message_in ∷ [])
new_server-records_nothing_example =
    new_server-records_nothing steady gone fresh (new_server steady gone fresh).1 (λ n. refl)
      (λ _ n. refl) server-returns message_in channel refl

abbrev no_topology : Topology
no_topology = record { exchanges = []; queues = []; bindings = []; consumers = []; calls = 0 }

consume_events-Consuming_example :
    Consuming
      (λ n. leb n 2)
      "transactions"
      "queue"
      "#"
      no_topology
      (consume_events (λ n. leb n 2) "transactions" "queue" "#" no_topology)
consume_events-Consuming_example =
    consume_events-Consuming (λ n. leb n 2) "transactions" "queue" "#" no_topology
