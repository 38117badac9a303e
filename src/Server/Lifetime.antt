-- ===== src/Server/Lifetime.antt =====
-- What NewServer of app/server.go leaves open when it returns.
use dbank.Prelude.{String, ◌≡◌, refl, true, false, [], ◌∷◌, ℕ, subst, ap, ◌∙◌}
use dbank.Prelude.Int.{pos}
use dbank.Status.{⊤, ok, annotating}
use dbank.Status.Returns.{Returns, >>=-Returns, annotating-Returns}
use dbank.Host.{Host, Platform, tick, invoke, release}
use dbank.Host.Calls.{invoke-Returns, change-Returns, deferring-Returns}
use dbank.Connections.{
  second, max_pool_size, conn_attempts, conn_timeout, new_postgres, new_redis_client,
  new_mongo_client, new_rabbitmq_client, configure, default_postgres,
}
use dbank.Ledger.Entries.{Mongo}
use dbank.Ledger.Indexes.{ledger_indexes, create_many, has_all, create_many-has_all}
use dbank.Server.{Server, ensure_ledger_indexes, build_server, with_mongo, new_server}
use dbank.Connections.Opening.{Opened, new_rabbitmq_client-Opened, Pooled, new_postgres-Pooled}

-- Calls that close a client do not fail.
abbrev pub Closes : Platform → Type 0
Closes p = (n : ℕ) → p.holds n ≡ false

abbrev HasPool : Host → Type 0
HasPool h = h.pool ≡ true

abbrev HasClient : Host → Type 0
HasClient h = (h.pool ≡ true) × (h.connection ≡ true) × (h.channel ≡ true)

abbrev IsListening : Host → Type 0
IsListening h = (h.pool ≡ true) × (h.connection ≡ true) × (h.channel ≡ true) × (h.listener ≡ true)

abbrev IsBuilt : Host → Type 0
IsBuilt h = IsListening h × (has_all ledger_indexes h.indexes ≡ true)

abbrev IsDisconnected : Host → Type 0
IsDisconnected h = IsBuilt h × (h.mongo ≡ false)

-- What a server that NewServer returned has: its pool, its RabbitMQ client and its listener are
-- open, the indexes of its ledger exist, and its Redis and MongoDB clients are closed.
abbrev pub IsReady : Host → Type 0
IsReady h = IsBuilt h × (h.mongo ≡ false) × (h.redis ≡ false)

module _ (p : Platform) where
  rabbitmq_step : Returns HasPool (new_rabbitmq_client p) HasClient
  rabbitmq_step h h' a k e =
      let r = subst (Opened p h) e (new_rabbitmq_client-Opened p h) in
      (
        ap (λ (t : Host). t.pool) r.4 ∙ k,
        ap (λ (t : Host). t.connection) r.4,
        ap (λ (t : Host). t.channel) r.4,
      )

  postgres_step :
      Returns
        (λ _. ⊤)
        (new_postgres p (max_pool_size 10 ∷ conn_attempts (pos 10) ∷ conn_timeout second ∷ []))
        HasPool
  postgres_step h h' a k e =
      let opts = max_pool_size 10 ∷ conn_attempts (pos 10) ∷ conn_timeout second ∷ [] in
      let r =
        subst (Pooled p 10 (configure opts default_postgres) h) e
          (new_postgres-Pooled p opts 9 h refl) in
      ap (λ (t : Host). t.pool) r.5

  -- A call that opens nothing the predicate reads.
  check_step :
      (P : Host → Type 0) (text : String)
      → ((h : Host) → P h → P (tick h))
      → Returns P (annotating text (invoke p (λ h. h))) P
  check_step P text keep =
      annotating-Returns P P text (invoke p (λ h. h)) (invoke-Returns P P p (λ h. h) keep)

  redis_client_step : Returns HasPool (new_redis_client p) HasPool
  unfolding new_redis_client
  redis_client_step =
      >>=-Returns HasPool HasPool HasPool _ _ (change-Returns HasPool HasPool _ (λ h k. k))
        λ _. invoke-Returns HasPool HasPool p (λ h. h) (λ h k. k)

  mongo_client_step : Returns HasPool (new_mongo_client p) HasPool
  unfolding new_mongo_client
  mongo_client_step =
      >>=-Returns HasPool HasPool HasPool _ _
        (invoke-Returns HasPool HasPool p (λ h. record h { mongo = true }) (λ h k. k))
        λ _. invoke-Returns HasPool HasPool p (λ h. h) (λ h k. k)

  release_step :
      (P Q : Host → Type 0) (f : Host → Host)
      → Closes p
      → ((h : Host) → P h → Q (f (tick h)))
      → (h : Host) → P h
      → Q (release p f h).1
  unfolding release
  release_step P Q f closes step h k = rw (closes h.calls) (step h k)

  indexes_step : Returns IsListening (ensure_ledger_indexes p) IsBuilt
  unfolding ensure_ledger_indexes
  indexes_step = annotating-Returns IsListening IsBuilt _ _ (
      invoke-Returns IsListening IsBuilt p
        (λ h. record h { indexes = create_many ledger_indexes h.indexes })
        (λ h k. (k, create_many-has_all ledger_indexes h.indexes)))

  module _ (m : Mongo) where
    build_step : Returns HasPool (build_server p m) IsBuilt
    unfolding build_server
    build_step =
        >>=-Returns HasPool HasClient IsBuilt _ _
          (annotating-Returns HasPool HasClient _ _ rabbitmq_step)
          λ _. >>=-Returns HasClient HasClient IsBuilt _ _ (check_step HasClient _ (λ h k. k)) λ _.
            >>=-Returns HasClient HasClient IsBuilt _ _
              (invoke-Returns HasClient HasClient p _ (λ h k. k))
              λ _.
                >>=-Returns HasClient HasClient IsBuilt _ _
                  (invoke-Returns HasClient HasClient p _ (λ h k. k))
                  λ _.
                    >>=-Returns HasClient IsListening IsBuilt _ _
                      (invoke-Returns HasClient IsListening p _ (λ h k. (k.0, k.1, k.2, refl)))
                      λ _.
                        >>=-Returns IsListening IsBuilt IsBuilt _ _
                          (annotating-Returns IsListening IsBuilt _ _ indexes_step)
                          λ _ h h' a k e. subst IsBuilt (ap (λ r. r.1) e) k

    mongo_step : Closes p → Returns HasPool (with_mongo p m) IsDisconnected
    unfolding with_mongo
    mongo_step closes =
        >>=-Returns HasPool HasPool IsDisconnected _ _
          (annotating-Returns HasPool HasPool "failed to connect to MongoDB" _ mongo_client_step)
          λ _.
            >>=-Returns HasPool HasPool IsDisconnected _ _
              (check_step HasPool "failed to ping MongoDB" (λ h k. k))
              λ _. deferring-Returns HasPool IsDisconnected IsBuilt _ _ build_step (
                release_step IsBuilt IsDisconnected (λ h. record h { mongo = false }) closes
                  (λ h k. (k, refl)))

    pub new_server-IsReady :
        (h h' : Host) {s : Server} → Closes p → new_server p m h ≡ (ok s, h') → IsReady h'
    unfolding new_server
    new_server-IsReady h h' {s} closes e =
        (>>=-Returns (λ _. ⊤) HasPool IsReady _ _ postgres_step
            λ _.
              >>=-Returns HasPool HasPool IsReady _ _
                (check_step HasPool "failed to ping database" (λ h k. k))
                λ _.
                  >>=-Returns HasPool HasPool IsReady _ _
                    (annotating-Returns HasPool HasPool "failed to connect to Redis" _
                      redis_client_step)
                    λ _.
                      >>=-Returns HasPool HasPool IsReady _ _
                        (check_step HasPool "failed to ping Redis" (λ h k. k))
                        λ _.
                          deferring-Returns HasPool IsReady IsDisconnected _ _ (mongo_step closes) (
                            release_step IsDisconnected IsReady (λ h. record h { redis = false })
                              closes (λ h k. (k.0, k.1, refl))))
          h h' s tt e
