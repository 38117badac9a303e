-- ===== src/Status/Returns.antt =====
-- What holds of the state after a call that returned, from what held before it.
use dbank.Prelude.{String, ◌≡◌}
use dbank.Status.{Result, ok, err, Exec, continue-eq-ok, ◌>>=◌, annotate, annotating}

module _ {S : Type 0} where
  abbrev pub Returns : (S → Type 0) → {A : Type 0} → Exec S A → (S → Type 0) → Type 0
  Returns P {A} m Q = (s s' : S) (a : A) → P s → m s ≡ (ok a, s') → Q s'

  pub >>=-Returns :
      {A B : Type 0} (P Q R : S → Type 0) (m : Exec S A) (f : A → Exec S B)
      → Returns P m Q
      → ((a : A) → Returns Q (f a) R)
      → Returns P (m >>= f) R
  >>=-Returns P Q R m f first rest s s' b h e =
      let (r, t) = m s in
      let (a, p, q) = continue-eq-ok r f t s' e in rest a t s' b (first s t a h (λ i. (p i, t))) q

  annotate-eq-ok :
      {A : Type 0} (text : String) (r : Result A) (s s' : S) {a : A}
      → ◌≡◌ {A = Result A × S} (annotate text r, s) (ok a, s')
      → ◌≡◌ {A = Result A × S} (r, s) (ok a, s')
  annotate-eq-ok text (ok _) s s' e = e
  annotate-eq-ok text (err _) s s' e = cc

  pub annotating-Returns :
      {A : Type 0} (P Q : S → Type 0) (text : String) (m : Exec S A)
      → Returns P m Q
      → Returns P (annotating text m) Q
  annotating-Returns P Q text m first s s' a h e =
      first s s' a h (annotate-eq-ok text (m s).0 (m s).1 s' e)
