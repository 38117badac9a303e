-- ===== src/Sql/Steps.antt =====
-- What follows from the fact that a checked statement, or a block of them, returned.
use dbank.Prelude.{◌≡◌, Bool, true, Option, none, some, arith}
use dbank.Status.{Error, ok, Exec, ◌>>=◌, continue-eq-ok}
use dbank.Sql.{Driver, Database, World, Reply, row, statement, checked}

-- A block that returned went through its first call.
pub >>=-eq-ok :
    {S A B : Type 0} (m : Exec S A) (f : A → Exec S B) (s t : S) {b : B}
    → (m >>= f) s ≡ (ok b, t)
    → (a : A) × (u : S) × (m s ≡ (ok a, u)) × (f a u ≡ (ok b, t))
>>=-eq-ok m f s t h =
    let (r, u) = m s in let (a, e, g) = continue-eq-ok r f u t h in (a, u, λ i. (e i, u), g)

module _ (d : Driver) (unbuilt_error failed_error none_error : Error) (known : Bool) where
  -- A statement that returned had all its columns, met no fault, and had its effect.
  pub statement-eq-ok :
      {A : Type 0} (effect : Database → Option (Reply A × Database)) (w w' : World) {a : A}
      → checked unbuilt_error failed_error none_error (statement d known effect) w ≡ (ok a, w')
      → (known ≡ true) × (d.fault w.calls ≡ none) × (effect w.db ≡ some (row a, w'.db))
  unfolding statement checked
  statement-eq-ok effect w w' h = ground arith
