-- ===== src/Tx/Atomic.antt =====
-- Transactions are all or nothing.
use dbank.Prelude.{none, ◌≡◌, ◌⊎◌, arith}
use dbank.Status.{Result, ok, err, Exec, commit_tx, joined, driver}
use dbank.Sql.{Driver, World, committed, lost, tick}
use dbank.Tx.{run_in_tx}

-- What a transaction over `fn` that began at `w` has done, by how it ended.
abbrev pub AllOrNothing : {A : Type 0} → Driver → Exec World A → World → Result A × World → Type 0
AllOrNothing d fn w (ok a, w') =
    ((fn (tick w)).0 ≡ ok a)
    × (w'.db ≡ (fn (tick w)).1.db)
    × (d.commit (fn (tick w)).1.calls ≡ committed)
AllOrNothing {A} d fn w (err e, w') =
    (w'.db ≡ w.db)
    ⊎ ((a : A) × ((fn (tick w)).0 ≡ ok a)
        × (w'.db ≡ (fn (tick w)).1.db)
        × (d.commit (fn (tick w)).1.calls ≡ lost)
        × (e ≡ joined commit_tx (driver (fn (tick w)).1.calls)))

-- A transaction that returns has committed exactly what its function did; one that fails has left
-- the tables as they were, or its commit took place and only the reply to it was lost.
pub run_in_tx-AllOrNothing :
    {A : Type 0} (d : Driver) (fn : Exec World A) (w : World)
    → AllOrNothing d fn w (run_in_tx d fn w)
unfolding run_in_tx
run_in_tx-AllOrNothing d fn w = ground arith

-- A transaction that can begin, whose function returns, and whose commit is answered, returns.
pub run_in_tx-commits :
    {A : Type 0} (d : Driver) (fn : Exec World A) (w w' : World) {a : A}
    → d.fault w.calls ≡ none
    → fn (tick w) ≡ (ok a, w')
    → d.commit w'.calls ≡ committed
    → run_in_tx d fn w ≡ (ok a, tick (tick w'))
unfolding run_in_tx
run_in_tx-commits d fn w w' begins runs commits = ground arith
