-- ===== src/Server.antt =====
-- app/server.go and cmd/serve.go: the construction, the run and the shutdown of the server, over the
-- connections that its process holds.
pub mod Lifetime
pub mod Closing
use dbank.Prelude.{String, Bool, true, false, List, [], ◌∷◌, if◌then◌else◌}
use dbank.Prelude.Int.{pos}
use dbank.Status.{
  ⊤, Error, message, both, driver, Result, ok, err, Exec, pure, ◌>>=◌, ◌>>◌, annotating,
}
use dbank.Host.{Host, Platform, tick, invoke, release, change, deferring}
use dbank.Connections.{
  second, max_pool_size, conn_attempts, conn_timeout, new_postgres, new_redis_client,
  new_mongo_client, new_rabbitmq_client, close_rabbitmq,
}
use dbank.Ledger.Entries.{Mongo, Collection}
use dbank.Ledger.Indexes.{ledger_indexes, create_many}
use dbank.Consumer.{Handlers, server_handlers}

-- The Server: the handlers of its consumer, and whether its two clients are not nil.
pub record Server : Type 0 where
  pub handlers : Handlers Collection
  pub rabbitmq_client : Bool
  pub mongo_client : Bool

-- A call that opens nothing.
abbrev check : Platform → Exec Host ⊤
check p = invoke p (λ h. h)

unfoldable pub ensure_ledger_indexes : Platform → Exec Host ⊤
ensure_ledger_indexes p =
    annotating "failed to create indexes"
      (invoke p (λ h. record h { indexes = create_many ledger_indexes h.indexes }))

module _ (p : Platform) (m : Mongo) where
  -- NewServer from the RabbitMQ client on: the exchange, the two gateway handlers, the gRPC listener
  -- and the indexes.
  unfoldable pub build_server : Exec Host Server
  build_server = do
    annotating "failed to connect to RabbitMQ" (new_rabbitmq_client p)
    annotating "failed to declare RabbitMQ exchange" (check p)
    check p
    check p
    invoke p (λ h. record h { listener = true })
    annotating "failed to create MongoDB indexes" (ensure_ledger_indexes p)
    pure (record { handlers = server_handlers m; rabbitmq_client = true; mongo_client = true })

  -- NewServer from the MongoDB client on; the client is disconnected when NewServer returns.
  unfoldable pub with_mongo : Exec Host Server
  with_mongo = do
    annotating "failed to connect to MongoDB" (new_mongo_client p)
    annotating "failed to ping MongoDB" (check p)
    deferring (release p (λ h. record h { mongo = false })) build_server

  -- The Redis client is closed when NewServer returns.
  unfoldable pub new_server : Exec Host Server
  new_server = do
    new_postgres p (max_pool_size 10 ∷ conn_attempts (pos 10) ∷ conn_timeout second ∷ [])
    annotating "failed to ping database" (check p)
    annotating "failed to connect to Redis" (new_redis_client p)
    annotating "failed to ping Redis" (check p)
    deferring (release p (λ h. record h { redis = false })) with_mongo

-- What the select of Start takes first: an error of one of the three goroutines, or a signal.
pub data Ending : Type 0 where
  grpc_failed http_failed consumer_failed : Error → Ending
  signalled : Ending

-- The three goroutines.
abbrev pub running : Host → Host
running h = record h { serving_grpc = true; serving_http = true; consuming = true }

-- errors.Join(err, errors.New(text)) after a call.
abbrev join : {A : Type 0} → String → Result A → Result A
join text (ok a) = ok a
join text (err e) = err (both e (message text))

abbrev joining : String → Exec Host ⊤ → Exec Host ⊤
joining text call h = let (r, h') = call h in (join text r, h')

-- The error of `call` is only logged, and `call` is made only for a client that is not nil.
abbrev closing : Bool → Exec Host ⊤ → Exec Host ⊤
closing true call h = (ok tt, (call h).1)
closing false call h = (ok tt, h)

module _ (p : Platform) (s : Server) where
  -- GracefulStop closes the gRPC listener, and Stop cancels the context of the consumer.
  unfoldable pub shutdown : Exec Host ⊤
  unfolding release change close_rabbitmq
  shutdown = do
    joining "failed to shutdown HTTP server" (release p (λ h. record h { serving_http = false }))
    change (λ h. record h { serving_grpc = false; listener = false })
    change (λ h. record h { consuming = false })
    closing s.mongo_client (release p (λ h. record h { mongo = false }))
    closing s.rabbitmq_client close_rabbitmq

  unfoldable pub start : Ending → Exec Host ⊤
  start (grpc_failed e) h =
      (err (both e (message "failed to serve gRPC")), record (running h) { serving_grpc = false })
  start (http_failed e) h =
      (err (both e (message "failed to serve HTTP")), record (running h) { serving_http = false })
  start (consumer_failed e) h = (
    err (both e (message "failed to start RabbitMQ consumer")),
    record (running h) { consuming = false },
  )
  start signalled h = shutdown (running h)

-- How the command `serve` ends: Start of a nil Server panics in its first goroutine.
pub data Exit : Type 0 where
  finished panicked : Exit
  printed : Error → Exit

abbrev exit_of : Result ⊤ → Exit
exit_of (ok _) = finished
exit_of (err e) = printed e

-- An error of NewServer is printed, and Start is called all the same.
unfoldable pub serve : Platform → Mongo → Ending → Host → Exit × Host
serve p m ending h =
    let (r, h') = new_server p m h in
    elim r [
      | ok s ↦ (exit_of (start p s ending h').0, (start p s ending h').1)
      | err e ↦ (panicked, h')
    ]
