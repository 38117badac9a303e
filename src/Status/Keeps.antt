-- ===== src/Status/Keeps.antt =====
-- A predicate on the state that a call keeps, whether it returns or fails.
use dbank.Status.{Result, ok, err, Exec, continue, ◌>>=◌}

module _ {S : Type 0} (P : S → Type 0) where
  abbrev pub Keeps : {A : Type 0} → Exec S A → Type 0
  Keeps m = (s : S) → P s → P (m s).1

  continue-Keeps :
      {A B : Type 0} (r : Result A) (f : A → Exec S B) (s : S)
      → ((a : A) → Keeps (f a))
      → P s
      → P (continue r f s).1
  continue-Keeps (ok a) f s k h = k a s h
  continue-Keeps (err e) f s k h = h

  pub >>=-Keeps :
      {A B : Type 0} (m : Exec S A) (f : A → Exec S B)
      → Keeps m
      → ((a : A) → Keeps (f a))
      → Keeps (m >>= f)
  >>=-Keeps m f k l s h = continue-Keeps (m s).0 f (m s).1 l (k s h)
