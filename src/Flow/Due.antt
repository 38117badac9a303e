-- ===== src/Flow/Due.antt =====
-- What the messages of transfers that are still on their way to app/consumer mean for the balances.
use dbank.Prelude.{ℕ, String, ◌≡◌, ap, ap₂, sym, ◌∙◌, inl, inr, List, [], ◌∷◌, ◌++◌, arith}
use dbank.Prelude.Int.{ℤ, pos, ◌+ℤ◌, +ℤ_assoc, int_laws}
use dbank.Status.{Result, ok, err, Result-cases}
use dbank.Broker.{TransactionEvent}
use dbank.Ledger.Entries.{MongoLedgerEntry, Mongo, Collection, entries_of}
use dbank.Ledger.Sums.{appended}
use dbank.Ledger.Balance.{KeepsDecimals}
use dbank.Ledger.Accounts.{account_balance, movement, account_balance-appended}
use dbank.Consumer.{Channel}

module _ (m : Mongo) where
  -- What a message on its way means for the balance of an account.
  abbrev amount_moved : Result ℤ → TransactionEvent → String → ℤ
  amount_moved (ok amount) event id = movement event amount id
  amount_moved (err _) event id = pos 0

  abbrev pub event_moved : Result TransactionEvent → String → ℤ
  event_moved (ok event) id = amount_moved (m.new_from_string event.amount) event id
  event_moved (err _) id = pos 0

  abbrev pub in_flight : String → List String → ℤ
  in_flight id [] = pos 0
  in_flight id (body ∷ bodies) = event_moved (m.unmarshal body) id +ℤ in_flight id bodies

  -- What is booked for an account, or on its way to be.
  abbrev pub due : Channel Collection → List String → String → ℤ
  due c queue id = account_balance id c.state.entries +ℤ in_flight id queue

  pub in_flight-append :
      (id : String) (xs ys : List String)
      → in_flight id (xs ++ ys) ≡ in_flight id xs +ℤ in_flight id ys
  in_flight-append id [] ys = omega int_laws
  in_flight-append id (x ∷ xs) ys =
      ap (λ v. event_moved (m.unmarshal x) id +ℤ v) (in_flight-append id xs ys)
      ∙ sym (+ℤ_assoc (event_moved (m.unmarshal x) id) (in_flight id xs) (in_flight id ys))

  pub moved-eq :
      (body id : String) (event : TransactionEvent) (amount : ℤ)
      → m.unmarshal body ≡ ok event
      → m.new_from_string event.amount ≡ ok amount
      → event_moved (m.unmarshal body) id ≡ movement event amount id
  moved-eq body id event amount e f =
      ap (λ r. event_moved r id) e ∙ ap (λ r. amount_moved r event id) f

  -- The parts of a message that has entries.
  entries_of-parts :
      (body : String) (n : ℕ) {pair : MongoLedgerEntry × MongoLedgerEntry}
      → entries_of m body n ≡ ok pair
      → (event : TransactionEvent) × (amount : ℤ) × (m.unmarshal body ≡ ok event)
        × (m.new_from_string event.amount ≡ ok amount)
  unfolding entries_of
  entries_of-parts body n h = elim (Result-cases (m.unmarshal body)) [
    | inr (e, q) ↦ absurd (ground arith)
    | inl (event, q) ↦ elim (Result-cases (m.new_from_string event.amount)) [
      | inr (e, p) ↦ absurd (ground arith)
      | inl (amount, p) ↦ (event, amount, q, p)
    ]
  ]

  -- A message that is taken off the queue and booked leaves what is due as it was.
  pub due-booked :
      (body : String) (pre post : List String) (c c' : Channel Collection)
      {pair : MongoLedgerEntry × MongoLedgerEntry}
      → KeepsDecimals m
      → entries_of m body c.state.calls ≡ ok pair
      → c'.state.entries ≡ appended m c.state.entries pair
      → (id : String) → due c' (pre ++ post) id ≡ due c (pre ++ body ∷ post) id
  due-booked body pre post c c' {pair} keep made grown id =
      let (event, amount, e, f) = entries_of-parts body c.state.calls made in
      ap₂ ◌+ℤ◌
        (account_balance-appended m body id event amount c.state.calls c.state.entries
            c'.state.entries pair keep e f made grown
          ∙ ap (λ v. account_balance id c.state.entries +ℤ v)
              (sym (moved-eq body id event amount e f)))
        (in_flight-append id pre post)
      ∙ shuffle (account_balance id c.state.entries) (event_moved (m.unmarshal body) id)
          (in_flight id pre) (in_flight id post)
      ∙ ap (λ v. account_balance id c.state.entries +ℤ v)
          (sym (in_flight-append id pre (body ∷ post)))
    where
      shuffle : (a b c d : ℤ) → (a +ℤ b) +ℤ (c +ℤ d) ≡ a +ℤ (c +ℤ (b +ℤ d))
      shuffle a b c d = omega int_laws
