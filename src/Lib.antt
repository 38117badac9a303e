-- ===== src/Lib.antt =====
-- dbank is a bank server. A gRPC service creates, lists, updates and deletes accounts and moves money
-- between them. The accounts are rows in PostgreSQL; a transfer that succeeds publishes an event to
-- RabbitMQ, and a consumer in the same server writes a debit and a credit for each event to MongoDB.
--
-- Status          gRPC codes, errors, results, and Exec, a state-passing computation that can fail
-- Sql             the tables and the driver below the store: a statement, its errors, its replies
--   Sql/Schema    the columns in db/migrations/postgres/20240912143506_initial.sql
-- Tx              pkg/dbx/tx.go: RunInTx is run_in_tx
-- Store           app/store/store.go. Requests: its structs. Queries, Updates, Inserts: the effect of
--   each SQL statement on the tables. Accounts: CreateAccount, GetAccount, GetAllAccounts,
--   UpdateAccount, DeleteAccount. Transactions: CreateTransaction, GetTransaction. Each Go method has
--   the function of its name (create_account for CreateAccount), and the function it passes to RunInTx
--   is called create_body, update_body, delete_body or transaction_body. Validity: the constraints of
--   the tables. Accounts/Paging: the offsets of GetAllAccounts, and a walk through its pages.
-- Broker          pkg/amqpx/events.go, and EnsureExchange and PublishEvent in pkg/amqpx/amqp.go
--   Broker/Queues ConsumeEvents of pkg/amqpx/amqp.go and Start of app/consumer/consumer.go, up to the
--   loop of the consumer
-- Service         app/service/transactions.go and app/service/accounts.go: CreateTransaction is
--   create_transaction_handler, and so on for each handler. The messages of gen/go/dbank/v1 are
--   records. Sessions: any sequence of requests. Transactions/Solvency, Sessions/Conserved: the money
--   of the bank under one transfer, and under a sequence of requests. Accounts/Opening: CreateAccount;
--   Accounts/Passwords: pkg/passw/passw.go
--   Accounts/Parts: UpdateAccount and DeleteAccount before their transaction, and from it on
--   Interleaving: requests at the same time, as a relation of steps
-- Ledger          app/consumer/mongo_ledger.go: NewMongoLedgerConsumer is ledger_handler, and
--   RetryMongoOperation is retry_mongo_operation. Indexes: the models of EnsureLedgerIndexes. Copies,
--   Duplicates: commits whose reply is lost
-- Consumer        app/consumer/consumer.go: RegisterHandler, consumeMessages, handleMessage; and the
--   registrations of app/server.go. Outage: a consumer whose MongoDB client is closed
-- Host            what the process of the server holds open, and the calls that open and close it
-- Connections     pkg/dbx/postgres.go and pkg/dbx/options.go (new_postgres), pkg/redisx/redis.go,
--   pkg/mongox/mongo.go, and NewRabbitMQClient and Close of pkg/amqpx/amqp.go
-- Server          app/server.go: NewServer is new_server, Start is start, Shutdown is shutdown; and
--   cmd/serve.go (serve)
-- Log             pkg/log/slog.go: the levels, the attributes, and the names that it trims
-- Api             the methods of the two services and what answers a call of each (call, respond).
--   Grpc: gen/go/dbank/v1/account_grpc.pb.go and transaction_grpc.pb.go, the tables by which the
--   gRPC server finds a method. Gateway: account.pb.gw.go and transaction.pb.gw.go beside them, the
--   routes of the JSON gateway and the reading of a message from an HTTP request. Calls: what a
--   client sends for a call, and how it is answered. Served: one call through both. Remote: the gateway
--   over a connection. Endpoint: the registrations that open such a connection
-- Web             app/swagger/swagger.go (ui, api_v1) and the router of NewServer (mounts, serve_http)
-- Commands        db/migrate.go, cmd/migrate.go, and getCommitHash of cmd/version.go: MigrateUp is
--   migrate_up, and the command `migrate up` is migrate_command up
-- Flow            a transfer from the request to the two entries of the ledger. Agreement,
--   Following: the balances of the store next to those of the ledger. Due: messages on their way. InFlight: transfers
--   and messages as a relation of steps; Accounting: what a run of steps keeps
-- Prelude         lists, integers and Boolean tests that the parts share
-- Tests           a sample world and the theorems applied to it
--
-- State. A World is the three tables and a count of the calls of the driver. A Bank is a World and the
-- exchange of RabbitMQ; a System adds the queue and the consumer. A Collection is the ledger's entries and the calls of MongoDB. A Host is the
-- connections of the process, the indexes of the ledger, the sleeps so far, and a count of calls. A
-- handler takes a state and returns a result with the state after it, whether it fails or not.
--
-- What is not in the repository is a parameter. Driver says which calls of PostgreSQL fail and how, what
-- a commit replies (committed, refused, or the reply lost after the commit took place), the clock, the
-- columns of the tables, and how texts and numbers are read. Broker and Mongo do the same for RabbitMQ
-- and MongoDB, and Platform for the calls of a Host: `fails` for those that open or check something, and
-- `holds` for those that close it. Float64, Decimals, Secrets and Failures stand for float64,
-- shopspring/decimal, bcrypt and uuid, and the errors of the MongoDB driver. A failure may happen at any
-- call. Goose stands for the library that runs the migrations, Runtime for the gateway's library, which
-- finds routes and decodes bodies, Router for chi, Documents for html/template and the embedded file,
-- Bcrypt for bcrypt, Dialler for the connections of a gateway, and Transport for the gRPC library, which
-- finds the method of a full name and encodes messages.
--
-- Numbers. An amount is an integer, the count of one decimal unit; NaN and infinite balances are left
-- out. The offset of a page is computed in uint64, with the wrap written out. Times are numbers, and the
-- time of a transaction is its start.
--
-- Loops. RetryMongoOperation makes at most maxRetries attempts (the handler asks for 3), and NewPostgres
-- and NewRabbitMQClient dial at most 10 times as the server calls them; recursion is on the attempts
-- left. The consumer's loop is recursion on the list of the signals it takes, so that no fuel is needed
-- anywhere.
--
-- Not modelled: the messages that are logged; panics, but for those of Log and of the command serve;
-- two requests at the same time, but for the steps of Service/Interleaving, in which the reads of one
-- request and each database transaction are taken as a whole, and of Flow/InFlight, in which a transfer
-- is; the root command and the configuration, which are glue over their libraries; in the generated
-- code, the text of the messages, the metadata that a gateway forwards, and the interceptors.
pub mod Prelude
pub mod Status
pub mod Host
pub mod Connections
pub mod Server
pub mod Log
pub mod Flow
pub mod Sql
pub mod Tx
pub mod Store
pub mod Broker
pub mod Service
pub mod Ledger
pub mod Consumer
pub mod Tests
pub mod Api
pub mod Web
pub mod Commands
