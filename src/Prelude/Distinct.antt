-- ===== src/Prelude/Distinct.antt =====
-- Lists whose elements differ in a key, and predicates on all elements of a list that has grown or
-- whose elements were changed.
use dbank.Prelude.Lists.{All}
use mathlib.Core.Path.{◌≡◌, sym, ◌∙◌}
use mathlib.Core.Logic.{◌≢◌}
use mathlib.Core.List.{List, [], ◌∷◌, ◌++◌, map}

module _ {A : Type 0} where
  pub All-append : (P : A → Type 0) (xs : List A) (a : A) → All P xs → P a → All P (xs ++ a ∷ [])
  All-append P [] a h p = (p, tt)
  All-append P (x ∷ xs) a h p = (h.0, All-append P xs a h.1 p)

  pub All-changed :
      {B : Type 0} (P : A → Type 0) (Q : B → Type 0) (f : A → B) (xs : List A)
      → ((a : A) → P a → Q (f a))
      → All P xs
      → All Q (map f xs)
  All-changed P Q f [] k h = tt
  All-changed P Q f (x ∷ xs) k h = (k x h.0, All-changed P Q f xs k h.1)

  abbrev pub Distinct : {K : Type 0} → (A → K) → List A → Type 0
  Distinct key [] = Unit
  Distinct key (x ∷ xs) = All (λ y. key y ≢ key x) xs × Distinct key xs

  -- Where no element has the new one's key, it can be appended.
  pub Distinct-append :
      {K : Type 0} (key : A → K) (xs : List A) (a : A)
      → Distinct key xs
      → All (λ x. key x ≢ key a) xs
      → Distinct key (xs ++ a ∷ [])
  Distinct-append key [] a d h = (tt, tt)
  Distinct-append key (x ∷ xs) a d h = (
    All-append (λ y. key y ≢ key x) xs a d.0 (λ e. h.0 (sym e)),
    Distinct-append key xs a d.1 h.1,
  )

  -- A change that keeps the keys keeps them distinct.
  pub Distinct-map :
      {K : Type 0} (key : A → K) (f : A → A) (xs : List A)
      → ((a : A) → key (f a) ≡ key a)
      → Distinct key xs
      → Distinct key (map f xs)
  Distinct-map key f [] same d = tt
  Distinct-map key f (x ∷ xs) same d = (
    All-changed (λ y. key y ≢ key x) (λ y. key y ≢ key (f x)) f xs
        (λ a n e. n (sym (same a) ∙ e ∙ same x)) d.0,
    Distinct-map key f xs same d.1,
  )
