-- ===== src/Service/Calls/Quiet.antt =====
-- Calls that write nothing, as the first calls of the handlers of app/service/accounts.go.
use dbank.Prelude.{◌≡◌, refl, ◌∙◌, Bool, true, false, none, some, Option}
use dbank.Status.{Error, Result, ok, err, Exec, continue, ◌>>=◌}
use dbank.Service.Bank.{Bank, require}
use dbank.Service.Accounts.{or_error}

abbrev pub Same : Bank → Bank → Type 0
Same b b' = (b'.world.db ≡ b.world.db) × (b'.exchange ≡ b.exchange)

Same-trans : (a b c : Bank) → Same a b → Same b c → Same a c
Same-trans a b c (d, x) (d', x') = (d' ∙ d, x' ∙ x)

module _ {A B : Type 0} (m : Exec Bank A) (f : A → Exec Bank B) (P : Result B × Bank → Type 0) where
  continue-step :
      (b : Bank) (r : Result A) (u : Bank)
      → Same b u
      → ((e : Error) → P (err e, u))
      → ((a : A) → r ≡ ok a → P (f a u))
      → P (continue r f u)
  continue-step b (ok a) u same stops goes = goes a refl
  continue-step b (err e) u same stops goes = stops e

  -- A block whose first call writes nothing stops there, or goes on from tables that are the same.
  pub step :
      (b c : Bank)
      → Same b c
      → ((c : Bank) → Same c (m c).1)
      → ((e : Error) (u : Bank) → Same b u → P (err e, u))
      → ((a : A) (u : Bank) → Same b u → m c ≡ (ok a, u) → P (f a u))
      → P ((m >>= f) c)
  step b c same keeps stops goes =
      let (r, u) = m c in
      let kept = Same-trans b c u same (keeps c) in
      continue-step b r u kept (λ e. stops e u kept) (λ a h. goes a u kept (λ i. (h i, u)))

pub require-Same : (c : Bool) (e : Error) (b : Bank) → Same b (require c e b).1
unfolding require
require-Same true e b = (refl, refl)
require-Same false e b = (refl, refl)

pub or_error-Same : {A : Type 0} (o : Option A) (e : Error) (b : Bank) → Same b (or_error o e b).1
or_error-Same none e b = (refl, refl)
or_error-Same (some a) e b = (refl, refl)
