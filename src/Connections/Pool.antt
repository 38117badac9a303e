-- ===== src/Connections/Pool.antt =====
-- The query methods of pkg/dbx/postgres.go. A row or a list of rows is what the scan into `dest`
-- leaves there; a Postgres whose Pool is nil answers every call but Close by an error.
use dbank.Prelude.{Bool, true, false, if◌then◌else◌}
use dbank.Status.{⊤, Error, message, Result, Exec, raise, pure, ◌>>◌, annotating}
use dbank.Host.{Host, Platform, invoke, change}
use dbank.Connections.{Postgres}

abbrev check : Platform → Exec Host ⊤
check p = invoke p (λ h. h)

-- `if p.Pool == nil { return err }`
abbrev with_pool : {A : Type 0} → Bool → Error → Exec Host A → Exec Host A
with_pool true e body = body
with_pool false e body = raise e

-- `built` is what ToSql returns, and `rows` what the query and the scan deliver.
module _ {A : Type 0} (p : Platform) (pg : Postgres) (built : Result ⊤) (rows : A) where
  unfoldable pub select : Exec Host A
  select = with_pool pg.pool (message "postgres - Select - p.Pool == nil") (do
    annotating "postgres - Select - builder.ToSql" (λ h. (built, h))
    annotating "postgres - Select - pgxscan.Select" (check p)
    pure rows)

  unfoldable pub get : Exec Host A
  get = with_pool pg.pool (message "postgres - Get - p.Pool == nil") (do
    annotating "postgres - Get - builder.ToSql" (λ h. (built, h))
    annotating "postgres - Get - pgxscan.Get" (check p)
    pure rows)

  unfoldable pub scan_one : Exec Host A
  scan_one = with_pool pg.pool (message "postgres - QueryRow - p.Pool == nil") (do
    annotating "postgres - QueryRow - builder.ToSql" (λ h. (built, h))
    annotating "postgres - QueryRow - p.Pool.Query" (check p)
    annotating "postgres - QueryRow - pgxscan.ScanOne" (check p)
    pure rows)

  unfoldable pub scan_all : Exec Host A
  scan_all = with_pool pg.pool (message "postgres - ScanAll - p.Pool == nil") (do
    annotating "postgres - ScanAll - builder.ToSql" (λ h. (built, h))
    annotating "postgres - ScanAll - p.Pool.Query" (check p)
    annotating "postgres - ScanAll - pgxscan.ScanAll" (check p)
    pure rows)

-- The transaction that Begin returns is not modelled here: RunInTx begins its own.
unfoldable pub get_tx : Platform → Postgres → Exec Host ⊤
get_tx p pg =
    with_pool pg.pool (message "postgres - GetTx - p.Pool == nil")
      (annotating "postgres - GetTx - p.Pool.Begin" (check p))

unfoldable pub close : Postgres → Exec Host ⊤
close pg h = if pg.pool then change (λ h. record h { pool = false }) h else pure tt h
