-- ===== src/Tx.antt =====
-- pkg/dbx/tx.go: a function run inside a database transaction.
pub mod Atomic
use dbank.Prelude.{◌+◌, none, some}
use dbank.Status.{Error, Result, ok, err, Exec, begin_tx, execute_tx, commit_tx, joined, driver}
use dbank.Sql.{Driver, Database, World, committed, refused, lost, tick}

-- The deferred Rollback is a call of its own: it brings the saved tables back unless a commit has
-- closed the transaction.
abbrev rollback : Database → World → World
rollback saved w = record w { db = saved; calls = w.calls + 1 }

abbrev conclude : {A : Type 0} → Driver → Database → Result A → World → Result A × World
conclude d saved (err e) w = (err (joined execute_tx e), rollback saved w)
conclude d saved (ok a) w = elim (d.commit w.calls) [
  | committed ↦ (ok a, tick (tick w))
  | refused ↦ (err (joined commit_tx (driver w.calls)), rollback saved (tick w))
  | lost ↦ (err (joined commit_tx (driver w.calls)), tick (tick w))
]

unfoldable pub run_in_tx : {A : Type 0} → Driver → Exec World A → Exec World A
run_in_tx d fn w = elim (d.fault w.calls) [
  | some _ ↦ (err (joined begin_tx (driver w.calls)), tick w)
  | none ↦ let (r, w') = fn (tick w) in conclude d w.db r w'
]
