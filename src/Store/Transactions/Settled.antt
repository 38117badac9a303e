-- ===== src/Store/Transactions/Settled.antt =====
-- How CreateTransaction of app/store/store.go ends.
use mathlib.Core.Path.{subst}
use dbank.Prelude.{ℕ, ◌≡◌, refl, sym, ◌⊎◌, inl, inr}
use dbank.Status.{⊤, Result, ok, err}
use dbank.Sql.{Driver, World, lost, tick}
use dbank.Tx.{run_in_tx}
use dbank.Tx.Atomic.{AllOrNothing, run_in_tx-AllOrNothing}
use dbank.Store.Requests.{TransactionRequest}
use dbank.Store.Transactions.{transaction_body, create_transaction, mark}
use dbank.Store.Transactions.Posted.{Posted, transaction_body-Posted}

module _ (d : Driver) (req : TransactionRequest) (w : World) where
  -- Some commit of the run took place while its reply was lost.
  abbrev pub CommitLost : Type 0
  CommitLost = (n : ℕ) × (d.commit n ≡ lost)

  -- What a call that began at `w` has done, by its result.
  abbrev pub Settled : Result ⊤ × TransactionRequest × World → Type 0
  Settled (ok _, req', w') = Posted d (d.clock w.calls) req w.db w'.db × (req' ≡ req)
  Settled (err _, req', w') =
      ((w'.db ≡ w.db) ⊎ (CommitLost × Posted d (d.clock w.calls) req w.db w'.db))
      × (req'.status ≡ "failed")
      × (req'.description ≡ "Transaction failed")

  abbrev body : World → Result ⊤ × World
  body = transaction_body d (d.clock w.calls) req

  body-Posted :
      (a : ⊤) (w' : World)
      → (body (tick w)).0 ≡ ok a
      → w'.db ≡ (body (tick w)).1.db
      → Posted d (d.clock w.calls) req w.db w'.db
  body-Posted a w' e h =
      subst (λ db. Posted d (d.clock w.calls) req w.db db) (sym h)
        (transaction_body-Posted d (d.clock w.calls) req (tick w) (body (tick w)).1
          (λ i. (e i, (body (tick w)).1)))

  settle :
      (r : Result ⊤) (w' : World) → AllOrNothing d body w (r, w') → Settled (r, mark d r req, w')
  settle (ok a) w' (e, h, _) = (body-Posted a w' e h, refl)
  settle (err x) w' (inl same) = (inl same, refl, refl)
  settle (err x) w' (inr (a, e, h, gone, _)) =
      (inr (((body (tick w)).1.calls, gone), body-Posted a w' e h), refl, refl)

  -- A call that returns has written the two balances and the transaction, and nothing else. One
  -- that fails has written nothing, unless the reply to its commit was lost, in which case it has
  -- written all three; and it marks the caller's request as failed.
  pub create_transaction-Settled : Settled (create_transaction d req w)
  unfolding create_transaction
  create_transaction-Settled =
      let (r, w') = run_in_tx d body w in settle r w' (run_in_tx-AllOrNothing d body w)
