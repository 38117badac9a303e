-- ===== src/Connections/Opening.antt =====
-- How NewPostgres of pkg/dbx/postgres.go and NewRabbitMQClient of pkg/amqpx/amqp.go end.
use dbank.Prelude.{
  ℕ, suc, String, ◌+◌, ◌-◌, ◌*◌, ◌<◌, ◌≡◌, refl, ap, sym, subst, ◌⊎◌, inl, inr, true, false, List,
  ◌++◌, replicate, Bool-cases, arith,
}
use dbank.Prelude.Int.{pos, pos_part}
use dbank.Status.{⊤, Error, Result, ok, err, continue, annotate, annotated, driver, pure}
use dbank.Host.{Host, Platform, tick}
use dbank.Connections.{
  second, dial, Postgres, PostgresOption, default_postgres, configure, connected, open_pool,
  new_postgres, open_connection, open_channel, new_rabbitmq_client,
}
use dbank.Connections.Dialling.{AllFail, after_refusals, Dialled, dial-Dialled}

module _ (p : Platform) where
  -- The outcome of NewRabbitMQClient that began at `h`.
  abbrev pub Opened : Host → Result ⊤ × Host → Type 0
  Opened h (ok _, h') =
      (k : ℕ) × (k < 10)
      × AllFail p h.calls k
      × (p.fails (h.calls + k) ≡ false)
      × (h' ≡ record h {
        connection = true;
        channel = true;
        sleeps = h.sleeps ++ replicate k (2 * second);
        calls = h.calls + k + 1 + 1;
      })
  Opened h (err _, h') =
      (h'.channel ≡ h.channel)
      × ((AllFail p h.calls 10
            × (h'.connection ≡ h.connection)
            × (h'.sleeps ≡ h.sleeps ++ replicate 10 (2 * second)))
          ⊎ (h'.connection ≡ false))

  open_channel-cases :
      (h : Host)
      → ((e : Error) × (open_channel p h ≡ (err e, record (tick h) { connection = false })))
        ⊎ (open_channel p h ≡ (ok tt, record (tick h) { channel = true }))
  unfolding open_channel
  open_channel-cases h = elim (Bool-cases (p.fails h.calls)) [
    | inl e ↦ inl (annotated "failed to open a channel" (driver h.calls), ground arith)
    | inr e ↦ inr (ground arith)
  ]

  by_dial :
      (text : String) (h : Host) (r : Result ℕ) (h' : Host)
      → Dialled p open_connection (2 * second) 10 h (r, h')
      → Opened h (continue (annotate text r) (λ _. open_channel p) h')
  by_dial text h (ok left) h' (k, total, some_left, failed, found, after) =
      rw after
        (elim (open_channel-cases (open_connection (tick (after_refusals (2 * second) k h)))) [
          | inl (e, q) ↦ rw q (refl, inr refl)
          | inr q ↦ rw q (k, omega arith, failed, found, refl)
        ])
  by_dial text h (err e) h' (failed, after, last) = rw after (refl, inl (failed, refl, refl))

  -- The client is made at the first of ten calls that succeeds, after two seconds for each that
  -- failed, if a channel can be opened on it, and nothing else changes. Where it is not made, no channel is open, and the
  -- connection is closed or was never opened.
  pub new_rabbitmq_client-Opened : (h : Host) → Opened h (new_rabbitmq_client p h)
  unfolding new_rabbitmq_client
  new_rabbitmq_client-Opened h =
      let r = dial p open_connection (2 * second) 10 (ok 0) h in
      by_dial "failed to connect to RabbitMQ after 10 attempts" h r.0 r.1
        (dial-Dialled p open_connection (2 * second) 9 (ok 0) h)

  -- The outcome of NewPostgres with `n` attempts; the first call only parses the URL.
  abbrev pub Pooled : ℕ → Postgres → Host → Result Postgres × Host → Type 0
  Pooled n pg h (ok pg', h') =
      (k : ℕ) × (k < n)
      × AllFail p (h.calls + 1) k
      × (p.fails (h.calls + 1 + k) ≡ false)
      × (pg' ≡ record pg { conn_attempts = pos (n - k); pool = true })
      × (h' ≡ record h {
        pool = true;
        sleeps = h.sleeps ++ replicate k pg.conn_timeout;
        calls = h.calls + 1 + k + 1;
      })
  Pooled n pg h (err _, h') =
      (h'.pool ≡ h.pool)
      × (((p.fails h.calls ≡ true) × (h'.sleeps ≡ h.sleeps))
          ⊎ (AllFail p (h.calls + 1) n × (h'.sleeps ≡ h.sleeps ++ replicate n pg.conn_timeout)))

  by_pool :
      (text : String) (n : ℕ) (pg : Postgres) (h : Host) (r : Result ℕ) (h' : Host)
      → pg.conn_attempts ≡ pos (suc n)
      → Dialled p open_pool pg.conn_timeout (suc n) (tick h) (r, h')
      → Pooled (suc n) pg h (continue (annotate text r) (λ left. pure (connected pg left)) h')
  by_pool text n pg h (ok left) h' e (k, total, some_left, failed, found, after) =
      (k, omega arith, failed, found, ground arith, after)
  by_pool text n pg h (err _) h' e (failed, after, last) =
      (ap (λ (s : Host). s.pool) after, inr (failed, ap (λ (s : Host). s.sleeps) after))

  -- With some attempts, the pool is made at the first of them that succeeds, after one timeout for
  -- each that failed. Where it is not made, the URL was refused, or every attempt failed and the
  -- timeout has passed after each.
  pub new_postgres-Pooled :
      (opts : List PostgresOption) (n : ℕ) (h : Host)
      → (configure opts default_postgres).conn_attempts ≡ pos (suc n)
      → Pooled (suc n) (configure opts default_postgres) h (new_postgres p opts h)
  unfolding new_postgres
  new_postgres-Pooled opts n h e = elim (Bool-cases (p.fails h.calls)) [
    | inl bad ↦ rw bad (refl, inl (bad, refl))
    | inr good ↦ rw good (
        let pg = configure opts default_postgres in
        let loop = λ (a : ℕ). dial p open_pool pg.conn_timeout a (ok 0) (tick h) in
        by_pool "postgres - NewPostgres - connAttempts == 0" n pg h
          (loop (pos_part pg.conn_attempts)).0 (loop (pos_part pg.conn_attempts)).1 e
          (subst (λ a. Dialled p open_pool pg.conn_timeout (suc n) (tick h) (loop a))
            (sym (ap pos_part e)) (dial-Dialled p open_pool pg.conn_timeout n (ok 0) (tick h))))
  ]
