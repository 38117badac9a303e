-- ===== src/Service/Calls.antt =====
-- What follows from the fact that a guard, or a wrapped call of the store, returned.
pub mod Quiet
use dbank.Prelude.{String, ◌≡◌, Bool, true, arith}
use dbank.Status.{⊤, Code, Error, ok, Exec}
use dbank.Sql.{World}
use dbank.Service.Bank.{Bank, require, or_wrap}

pub require-eq-ok :
    {S : Type 0} (c : Bool) (e : Error) (s s' : S) {u : ⊤}
    → require c e s ≡ (ok u, s')
    → (c ≡ true) × (s' ≡ s)
unfolding require
require-eq-ok c e s s' h = ground arith

pub or_wrap-eq-ok :
    {A : Type 0} (c : Code) (m : String) (call : Exec World A) (b b' : Bank) {a : A}
    → or_wrap c m call b ≡ (ok a, b')
    → (call b.world ≡ (ok a, b'.world)) × (b'.exchange ≡ b.exchange)
unfolding or_wrap
or_wrap-eq-ok c m call b b' h = ground arith
