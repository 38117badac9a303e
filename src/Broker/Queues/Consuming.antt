-- ===== src/Broker/Queues/Consuming.antt =====
-- How ConsumeEvents of pkg/amqpx/amqp.go ends.
use dbank.Prelude.{
  ℕ, ◌+◌, ◌<◌, String, ◌≡◌, refl, subst, inl, inr, Bool, false, ◌∷◌, Bool-cases, arith,
}
use dbank.Status.{⊤, Result, ok, err}
use dbank.Broker.Queues.{Topology, channel_call, consume_events}

module _ (accepts : ℕ → Bool) (exchange queue routing_key : String) where
  -- The outcome of a call that began at `t`.
  abbrev pub Consuming : Topology → Result ⊤ × Topology → Type 0
  Consuming t (ok _, t') = t' ≡ record t {
    exchanges = exchange ∷ t.exchanges;
    queues = queue ∷ t.queues;
    bindings =
        record { queue = queue; routing_key = routing_key; exchange = exchange } ∷ t.bindings;
    consumers = queue ∷ t.consumers;
    calls = t.calls + 1 + 1 + 1 + 1;
  }
  Consuming t (err _, t') =
      (t'.consumers ≡ t.consumers)
      × ((k : ℕ) × (k < 4) × (accepts (t.calls + k) ≡ false) × (t'.calls ≡ t.calls + k + 1))

  -- A call that returns has declared the exchange and the queue, bound the queue by the routing key,
  -- and consumes from it. One that fails has stopped at its first failing call, and consumes from no
  -- further queue.
  pub consume_events-Consuming :
      (t : Topology) → Consuming t (consume_events accepts exchange queue routing_key t)
  unfolding consume_events channel_call
  consume_events-Consuming t = elim (Bool-cases (accepts t.calls)) [
    | inr a ↦
        rw (a, Consuming)
          (refl, (0, omega arith, subst (λ i. accepts i ≡ false) (omega arith) a, omega arith))
    | inl a ↦ elim (Bool-cases (accepts (t.calls + 1))) [
      | inr b ↦
          rw (a, b, Consuming)
            (refl, (1, omega arith, subst (λ i. accepts i ≡ false) (omega arith) b, omega arith))
      | inl b ↦ elim (Bool-cases (accepts (t.calls + 1 + 1))) [
        | inr c ↦
            rw (a, b, c, Consuming)
              (refl, (2, omega arith, subst (λ i. accepts i ≡ false) (omega arith) c, omega arith))
        | inl c ↦ elim (Bool-cases (accepts (t.calls + 1 + 1 + 1))) [
          | inr e ↦
              rw (a, b, c, e, Consuming)
                (
                  refl,
                  (3, omega arith, subst (λ i. accepts i ≡ false) (omega arith) e, omega arith),
                )
          | inl e ↦ rw (a, b, c, e, Consuming) refl
        ]
      ]
    ]
  ]
