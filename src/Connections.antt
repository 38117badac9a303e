-- ===== src/Connections.antt =====
-- The clients that the server connects: pkg/dbx/postgres.go, pkg/dbx/options.go, pkg/redisx/redis.go,
-- pkg/mongox/mongo.go, and NewRabbitMQClient and Close of pkg/amqpx/amqp.go.
pub mod Dialling
pub mod Pool
pub mod Opening
use dbank.Prelude.{ℕ, zero, suc, ◌*◌, String, Bool, true, false, List, [], ◌∷◌, ◌++◌, if◌then◌else◌}
use dbank.Prelude.Int.{ℤ, pos, pos_part, ltb_ℤ}
use dbank.Status.{⊤, Error, driver, Result, ok, err, Exec, pure, ◌>>=◌, ◌>>◌, annotate, annotating}
use dbank.Host.{Host, Platform, tick, invoke, change}

-- One second, in nanoseconds.
abbrev pub second : ℕ
second = 1_000_000_000

-- The loops of NewPostgres and NewRabbitMQClient: the attempts left, with a sleep after each that
-- fails, and the last error. The result is the attempts that were left when one succeeded.
unfoldable pub dial : Platform → (Host → Host) → ℕ → ℕ → Result ℕ → Exec Host ℕ
dial p opens timeout zero last h = (last, h)
dial p opens timeout (suc left) last h = elim (p.fails h.calls) [
  | false ↦ (ok (suc left), opens (tick h))
  | true ↦
      dial p opens timeout left (err (driver h.calls))
        (record (tick h) { sleeps = h.sleeps ++ timeout ∷ [] })
]

-- The Postgres of pkg/dbx; `pool` says whether its Pool is not nil.
pub record Postgres : Type 0 where
  pub max_pool_size : ℕ
  pub conn_attempts : ℤ
  pub conn_timeout : ℕ
  pub pool : Bool

abbrev pub PostgresOption : Type 0
PostgresOption = Postgres → Postgres

abbrev pub max_pool_size : ℕ → PostgresOption
max_pool_size size c = record c { max_pool_size = size }

abbrev pub conn_attempts : ℤ → PostgresOption
conn_attempts attempts c = record c { conn_attempts = attempts }

abbrev pub conn_timeout : ℕ → PostgresOption
conn_timeout timeout c = record c { conn_timeout = timeout }

abbrev pub default_postgres : Postgres
default_postgres = record {
  max_pool_size = 1;
  conn_attempts = pos 10;
  conn_timeout = second;
  pool = false;
}

abbrev pub configure : List PostgresOption → Postgres → Postgres
configure [] pg = pg
configure (opt ∷ opts) pg = configure opts (opt pg)

-- The Postgres after the loop: the pool is there if the loop was entered.
abbrev pub connected : Postgres → ℕ → Postgres
connected pg left =
    if ltb_ℤ (pos 0) pg.conn_attempts
    then record pg { conn_attempts = pos left; pool = true }
    else pg

abbrev pub open_pool : Host → Host
open_pool h = record h { pool = true }

unfoldable pub new_postgres : Platform → List PostgresOption → Exec Host Postgres
unfolding dial invoke
new_postgres p opts = do
  let pg = configure opts default_postgres
  annotating "postgres - NewPostgres - pgxpool.ParseConfig" (invoke p (λ h. h))
  left ←
      annotating "postgres - NewPostgres - connAttempts == 0"
        (dial p open_pool pg.conn_timeout (pos_part pg.conn_attempts) (ok 0))
  pure (connected pg left)

-- redis.NewClient only prepares a client, which dials when it is first used.
unfoldable pub new_redis_client : Platform → Exec Host ⊤
unfolding invoke change
new_redis_client p = do change (λ h. record h { redis = true }); invoke p (λ h. h)

-- mongo.Connect, and a Ping of the primary.
unfoldable pub new_mongo_client : Platform → Exec Host ⊤
unfolding invoke
new_mongo_client p = do invoke p (λ h. record h { mongo = true }); invoke p (λ h. h)

abbrev pub open_connection : Host → Host
open_connection h = record h { connection = true }

abbrev close_connection : Host → Host
close_connection h = record h { connection = false }

-- conn.Channel(), and conn.Close() where that fails.
unfoldable pub open_channel : Platform → Exec Host ⊤
unfolding invoke
open_channel p h =
    let (r, h') = invoke p (λ h. record h { channel = true }) h in
    elim r [
      | ok _ ↦ pure tt h'
      | err e ↦ (annotate "failed to open a channel" (err e), close_connection h')
    ]

unfoldable pub new_rabbitmq_client : Platform → Exec Host ⊤
unfolding dial open_channel
new_rabbitmq_client p = do
  annotating "failed to connect to RabbitMQ after 10 attempts"
      (dial p open_connection (2 * second) 10 (ok 0))
  open_channel p

-- The errors of both calls are dropped.
unfoldable pub close_rabbitmq : Exec Host ⊤
unfolding change
close_rabbitmq = change (λ h. record h { channel = false; connection = false })
