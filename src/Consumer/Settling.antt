-- ===== src/Consumer/Settling.antt =====
-- How the messages of app/consumer/consumer.go are settled.
use dbank.Prelude.{
  String, ◌≡◌, ◌⊎◌, refl, ap, sym, ◌∙◌, inl, inr, some, List, [], ◌∷◌, ◌++◌, map, ◌==◌,
  if◌then◌else◌, eq_iff, arith,
}
use mathlib.Core.List.{append-nil, append_assoc, map-append}
use dbank.Prelude.Int.{ℤ}
use dbank.Status.{⊤, Result, ok, err}
use dbank.Broker.{transaction_success_route}
use dbank.Ledger.Entries.{
  Mongo, Collection, ledger_handler, sum_balances, entries_of, MongoLedgerEntry,
}
use dbank.Ledger.Sums.{RepliesArrive, Handled, ledger_handler-Handled, appended}
use dbank.Ledger.Balance.{KeepsDecimals}
use dbank.Consumer.{
  Delivery, Settlement, ack, requeue, MessageHandler, Handlers, Channel, Signal, done, closed,
  delivery, register_handler, find_handler, run_handler, settle, handle_message, consume_messages,
  server_handlers,
}

-- The deliveries that the loop takes before it stops.
abbrev pub taken : List Signal → List Delivery
taken [] = []
taken (done ∷ rest) = []
taken (closed ∷ rest) = []
taken (delivery m ∷ rest) = m ∷ taken rest

abbrev pub settled_delivery : Settlement → Delivery
settled_delivery (ack m) = m
settled_delivery (requeue m) = m

settled-settle : (m : Delivery) (r : Result ⊤) → settled_delivery (settle m r) ≡ m
settled-settle m (ok _) = refl
settled-settle m (err _) = refl

module _ {S : Type 0} where
  -- The last registration under a key is the one in force, and other keys keep theirs.
  find-register :
      (key k : String) (h : MessageHandler S) (hs : Handlers S)
      → find_handler k (register_handler key h hs)
        ≡ (if key == k then some h else find_handler k hs)
  unfolding find_handler register_handler
  find-register key k h [] = refl
  find-register key k h ((j, g) ∷ hs) =
      ground (arith, eq_iff key k, eq_iff j key, eq_iff j k, find-register key k h hs)

  -- Every delivery that the loop takes is settled exactly once, in the order of arrival, and nothing
  -- else is, whatever the handlers do.
  pub consume_messages-settles :
      (hs : Handlers S) (signals : List Signal) (c : Channel S)
      → map settled_delivery (consume_messages hs signals c).settled
        ≡ map settled_delivery c.settled ++ taken signals
  unfolding consume_messages handle_message
  consume_messages-settles hs [] c = sym (append-nil _)
  consume_messages-settles hs (done ∷ rest) c = sym (append-nil _)
  consume_messages-settles hs (closed ∷ rest) c = sym (append-nil _)
  consume_messages-settles hs (delivery m ∷ rest) c =
      let (r, s) = run_handler (find_handler m.routing_key hs) m c.state in
      consume_messages-settles hs rest (handle_message hs m c)
      ∙ ap (λ l. l ++ taken rest) (map-append settled_delivery c.settled (settle m r ∷ []))
      ∙ append_assoc (map settled_delivery c.settled) _ (taken rest)
      ∙ ap (λ x. map settled_delivery c.settled ++ x ∷ taken rest) (settled-settle m r)

module _ (m : Mongo) where
  -- What has become of a message and of the collection.
  abbrev pub Recorded : Delivery → Channel Collection → Channel Collection → Type 0
  Recorded d c c' =
      ((pair : MongoLedgerEntry × MongoLedgerEntry) × (entries_of m d.body c.state.calls ≡ ok pair)
        × (c'.state.entries ≡ appended m c.state.entries pair)
        × (c'.settled ≡ c.settled ++ ack d ∷ []))
      ⊎ ((c'.state.entries ≡ c.state.entries) × (c'.settled ≡ c.settled ++ requeue d ∷ []))

  by_result :
      (d : Delivery) (c : Channel Collection) (r : Result ⊤) (s : Collection)
      → Handled m d.body c.state (r, s)
      → Recorded d c (record { state = s; settled = c.settled ++ settle d r ∷ [] })
  by_result d c (ok _) s (pair, e, h) = inl (pair, e, h, refl)
  by_result d c (err _) s same = inr (same, refl)

  pub success_handler :
      (key : String)
      → key ≡ transaction_success_route
      → find_handler key (server_handlers m) ≡ some (λ d. ledger_handler m d.body)
  unfolding find_handler server_handlers
  success_handler key e = rw e refl

  -- Of the server's handlers, the ledger's is the one in force on the success route. If no commit
  -- loses its reply, a message on that route is acknowledged and has its debit and its credit
  -- appended once, or it is put back and the collection is as it was.
  pub handle_message-Recorded :
      (d : Delivery) (c : Channel Collection)
      → RepliesArrive m
      → d.routing_key ≡ transaction_success_route
      → Recorded d c (handle_message (server_handlers m) d c)
  unfolding handle_message
  handle_message-Recorded d c arrive e = rw (success_handler d.routing_key e) (
      by_result d c (ledger_handler m d.body c.state).0 (ledger_handler m d.body c.state).1
        (ledger_handler-Handled m arrive d.body c.state))

  module _ (keep : KeepsDecimals m) where
    abbrev sum : Channel Collection → ℤ
    sum c = sum_balances c.state.entries
