-- ===== src/Server/Closing.antt =====
-- How Shutdown and Start of app/server.go end, and what the command `serve` does with a server.
use dbank.Prelude.{ℕ, ◌+◌, ◌≡◌, ◌⊎◌, Bool, true, false, [], ◌∷◌, ◌++◌}
use dbank.Status.{⊤, driver, message, both, Result, ok, err}
use dbank.Host.{Host, Platform, tick}
use dbank.Ledger.Entries.{Mongo, Collection}
use dbank.Broker.{transaction_success_route}
use dbank.Consumer.{Delivery, Channel, requeue, handle_message, server_handlers}
use dbank.Consumer.Outage.{handle_message-requeued}
use dbank.Server.Lifetime.{Closes, new_server-IsReady}
use dbank.Server.{Server, new_server}

-- Nothing that the server runs or listens on is open.
abbrev pub IsStopped : Host → Type 0
IsStopped h =
    (h.serving_http ≡ false)
    × (h.serving_grpc ≡ false)
    × (h.listener ≡ false)
    × (h.consuming ≡ false)

-- The outcome of Shutdown that began at `h`, for a server whose two clients are not nil.
abbrev pub ShutDown : Platform → Host → Result ⊤ × Host → Type 0
ShutDown p h (ok _, h') =
    IsStopped h'
    × (h'.channel ≡ false)
    × (h'.connection ≡ false)
    × (h'.pool ≡ h.pool)
    × ((h'.mongo ≡ false) ⊎ (p.holds (h.calls + 1) ≡ true))
ShutDown p h (err e, h') =
    (h' ≡ tick h) × (e ≡ both (driver h.calls) (message "failed to shutdown HTTP server"))

module _ (p : Platform) (s : Server) (rabbitmq : s.rabbitmq_client ≡ true)
    (mongo : s.mongo_client ≡ true) where
  -- The host after every step of a shutdown, with what has become of the MongoDB client.
  abbrev stopped : Bool → Host → Host
  stopped open_still h = record h {
    serving_http = false;
    serving_grpc = false;
    listener = false;
    consuming = false;
    mongo = open_still;
    channel = false;
    connection = false;
    calls = h.calls + 1 + 1;
  }

module _ (p : Platform) (m : Mongo) where
  -- Where a disconnected MongoDB client fails every call, the ledger of a server that NewServer
  -- returned records nothing: whatever has been delivered before, each message of the success route
  -- is put back, and the collection is as it was. The condition on the environment: the calls which
  -- close the two clients of NewServer do not fail.
  pub new_server-records_nothing :
      (h h' : Host) {s : Server}
      → Closes p
      → (h'.mongo ≡ false → (n : ℕ) → m.fault n ≡ true)
      → new_server p m h ≡ (ok s, h')
      → (d : Delivery) (c : Channel Collection) → d.routing_key ≡ transaction_success_route
      → ((handle_message (server_handlers m) d c).state.entries ≡ c.state.entries)
        × ((handle_message (server_handlers m) d c).settled ≡ c.settled ++ requeue d ∷ [])
  new_server-records_nothing h h' closes dead e d c key =
      handle_message-requeued m (dead (new_server-IsReady p m h h' closes e).1) d c key
