-- ===== src/Prelude/Member.antt =====
-- Membership with its place kept: the library's `Memᴰ`, for the lists that the queries build.
use mathlib.Core.List.{Memᴰ as Member}
use dbank.Prelude.{
  ◌≡◌, ◌∙◌, ap, refl, Bool, true, false, List, [], ◌∷◌, ◌++◌, select, All, subst, sym,
  if◌then◌else◌, arith,
}

module _ {ℓ} {A : Type ℓ} where
  abbrev pub Selected : A → (A → Bool) → List A → Type ℓ
  Selected a p xs = (p a ≡ true) × Member a xs

  select_step :
      {a : A} (p : A → Bool) (x : A) (xs : List A) (b : Bool)
      → p x ≡ b
      → (Member a (select p xs) → Selected a p xs)
      → Member a (if b then x ∷ select p xs else select p xs)
      → Selected a p (x ∷ xs)
  select_step p x xs true e rest (Member.head q) = (ap p q ∙ e, Member.head q)
  select_step p x xs true e rest (Member.tail m) = let (h, m') = rest m in (h, Member.tail m')
  select_step p x xs false e rest m = let (h, m') = rest m in (h, Member.tail m')

  pub Member-select :
      {a : A} (p : A → Bool) (xs : List A) → Member a (select p xs) → Selected a p xs
  Member-select p [] m = elim m [ ]
  Member-select p (x ∷ xs) m = select_step p x xs (p x) refl (λ m'. Member-select p xs m') m

  pub All-Member {κ} : {a : A} (P : A → Type κ) (xs : List A) → All P xs → Member a xs → P a
  All-Member P [] h m = elim m [ ]
  All-Member P (x ∷ xs) h (Member.head e) = subst P (sym e) h.0
  All-Member P (x ∷ xs) h (Member.tail m) = All-Member P xs h.1 m

  pub All-map {κ μ} :
      (P : A → Type κ) (Q : A → Type μ) (xs : List A) → ((x : A) → P x → Q x) → All P xs → All Q xs
  All-map P Q [] f h = tt
  All-map P Q (x ∷ xs) f h = (f x h.0, All-map P Q xs f h.1)

module _ {A : Type 0} (p : A → Bool) where
  pub select-none : (xs : List A) → All (λ x. p x ≡ false) xs → select p xs ≡ []
  select-none [] h = refl
  select-none (x ∷ xs) h = let e = h.0 in let rest = select-none xs h.1 in ground arith

  pub select-append : (xs ys : List A) → select p (xs ++ ys) ≡ select p xs ++ select p ys
  select-append [] ys = refl
  select-append (x ∷ xs) ys = let rest = select-append xs ys in ground arith
