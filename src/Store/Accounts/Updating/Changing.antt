-- ===== src/Store/Accounts/Updating/Changing.antt =====
-- How UpdateAccount of app/store/store.go ends.
use mathlib.Core.Path.{subst}
use dbank.Prelude.{ℕ, ◌≡◌, sym, ◌⊎◌, inl, inr}
use dbank.Status.{Result, ok, err}
use dbank.Sql.{Driver, World, lost, tick}
use dbank.Tx.{run_in_tx}
use dbank.Tx.Atomic.{AllOrNothing, run_in_tx-AllOrNothing}
use dbank.Store.Requests.{Float64, AccountDetails, UpdateAccountRequest}
use dbank.Store.Accounts.{update_body, update_account}
use dbank.Store.Accounts.Lookup.{DeliversOnly}
use dbank.Store.Accounts.Updating.{Revised, update_body-Revised}

module _ {F : Type 0} (fl : Float64 F) (d : Driver) (req : UpdateAccountRequest F) (w : World) where
  -- What a call that began at `w` has done, by its result.
  abbrev pub Changed : Result (AccountDetails F) × World → Type 0
  Changed (ok answer, w') = Revised fl d (d.clock w.calls) req w.db w'.db answer
  Changed (err _, w') =
      (w'.db ≡ w.db)
      ⊎ (((n : ℕ) × (d.commit n ≡ lost))
          × (answer : AccountDetails F) × Revised fl d (d.clock w.calls) req w.db w'.db answer)

  abbrev body : World → Result (AccountDetails F) × World
  body = update_body fl d (d.clock w.calls) req

  body-Revised :
      (answer : AccountDetails F) (w' : World)
      → DeliversOnly d
      → (body (tick w)).0 ≡ ok answer
      → w'.db ≡ (body (tick w)).1.db
      → Revised fl d (d.clock w.calls) req w.db w'.db answer
  body-Revised answer w' only e h =
      subst (λ db. Revised fl d (d.clock w.calls) req w.db db answer) (sym h)
        (update_body-Revised fl d (d.clock w.calls) req (tick w) (body (tick w)).1 only
          (λ i. (e i, (body (tick w)).1)))

  change_account :
      (r : Result (AccountDetails F)) (w' : World)
      → DeliversOnly d
      → AllOrNothing d body w (r, w')
      → Changed (r, w')
  change_account (ok a) w' only (e, h, _) = body-Revised a w' only e h
  change_account (err x) w' only (inl same) = inl same
  change_account (err x) w' only (inr (a, e, h, gone, _)) =
      inr (((body (tick w)).1.calls, gone), a, body-Revised a w' only e h)

  -- A call that returns has found a user of the given id, has given that user's row the
  -- request's name, address and, where it has one, password, has given all accounts of that user the
  -- other five values, has changed nothing else, and answers with the rows as they are then. One that
  -- fails has written nothing, unless the reply to its commit was lost, in which case it has written
  -- all of it. The condition is that a query delivers only its own rows.
  pub update_account-Changed : DeliversOnly d → Changed (update_account fl d req w)
  unfolding update_account
  update_account-Changed only =
      let (r, w') = run_in_tx d body w in change_account r w' only (run_in_tx-AllOrNothing d body w)
