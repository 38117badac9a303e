-- ===== src/Host.antt =====
-- The connections that the process of the server holds open: the state of app/server.go and of the
-- clients under pkg/ that it builds.
pub mod Calls
use dbank.Prelude.{ℕ, ◌+◌, String, Bool, List, if◌then◌else◌}
use dbank.Ledger.Indexes.{IndexModel}
use dbank.Status.{⊤, driver, Exec, pure, raise}

-- What is open, the indexes of the collection of the ledger, and the sleeps so far, in nanoseconds,
-- oldest first. Calls are numbered.
pub record Host : Type 0 where
  pub pool : Bool
  pub redis : Bool
  pub mongo : Bool
  pub connection : Bool
  pub channel : Bool
  pub listener : Bool
  pub serving_http : Bool
  pub serving_grpc : Bool
  pub consuming : Bool
  pub indexes : List IndexModel
  pub sleeps : List ℕ
  pub calls : ℕ

-- Which calls of the operating system, of the drivers and of their servers fail, and which of those
-- that close a client.
pub record Platform : Type 0 where
  pub fails : ℕ → Bool
  pub holds : ℕ → Bool

abbrev pub tick : Host → Host
tick h = record h { calls = h.calls + 1 }

-- A call that may fail, and what it changes where it does not.
unfoldable pub invoke : Platform → (Host → Host) → Exec Host ⊤
invoke p f h = if p.fails h.calls then raise (driver h.calls) (tick h) else pure tt (f (tick h))

-- A call that closes something; where it fails, that stays open.
unfoldable pub release : Platform → (Host → Host) → Exec Host ⊤
release p f h = if p.holds h.calls then raise (driver h.calls) (tick h) else pure tt (f (tick h))

-- A call that cannot fail.
unfoldable pub change : (Host → Host) → Exec Host ⊤
change f h = pure tt (f h)

-- `defer cleanup()`: it runs when the rest has ended, and its error is only logged.
unfoldable pub deferring : {A : Type 0} → Exec Host ⊤ → Exec Host A → Exec Host A
deferring cleanup body h = let (r, h') = body h in (r, (cleanup h').1)
