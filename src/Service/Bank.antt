-- ===== src/Service/Bank.antt =====
-- The state that the handlers of app/service share, and the error handling around their calls.
use dbank.Prelude.{String, Bool, true, false}
use dbank.Status.{⊤, Code, Error, wrapped, Result, ok, err, Exec, pure, raise}
use dbank.Sql.{World}
use dbank.Broker.{Exchange}

pub record Bank : Type 0 where
  pub world : World
  pub exchange : Exchange

-- A guard: `if !ok { return nil, err }`.
unfoldable pub require : {S : Type 0} → Bool → Error → Exec S ⊤
require true e = pure tt
require false e = raise e

unfoldable pub lift : {S A : Type 0} → Result A → Exec S A
lift r s = (r, s)

abbrev pub wrap : {A : Type 0} → Code → String → Result A → Result A
wrap c m (ok a) = ok a
wrap c m (err e) = err (wrapped c m e)

-- `if err != nil { return nil, status.Errorf(c, "m: %v", err) }` after a call of the store.
unfoldable pub or_wrap : {A : Type 0} → Code → String → Exec World A → Exec Bank A
or_wrap c m call b = let (r, w) = call b.world in (wrap c m r, record b { world = w })
