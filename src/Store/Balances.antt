-- ===== src/Store/Balances.antt =====
-- The balances of dbank_accounts under UPDATE dbank_accounts SET balance = ? WHERE id = ?.
use mathlib.Core.List.{Memᴰ as Member}
use dbank.Prelude.{
  String, ◌≡◌, refl, ap, ap₂, subst, sym, ◌∙◌, ◌≢◌, List, [], ◌∷◌, map, All, eq_iff, arith,
}
use dbank.Prelude.Int.{ℤ, pos, ◌+ℤ◌, +ℤ_assoc, int_laws}
use dbank.Prelude.Member.{All-Member, All-map}
use dbank.Sql.{Account}
use dbank.Store.Updates.{balance_to}

-- The money in all accounts.
abbrev pub total : List Account → ℤ
total [] = pos 0
total (a ∷ accs) = a.balance +ℤ total accs

-- The primary identifiers of the accounts are distinct (UNIQUE in the migration).
abbrev pub IsUnique : List Account → Type 0
IsUnique [] = Unit
IsUnique (a ∷ accs) = All (λ b. b.id ≢ a.id) accs × IsUnique accs

module _ (k : String) (v : ℤ) where
  abbrev pub updated : List Account → List Account
  updated = map (balance_to k v)

  -- An account with another id stays as it is.
  pub balance_to_ne : (a : Account) → a.id ≢ k → balance_to k v a ≡ a
  balance_to_ne a h = ground (arith, eq_iff a.id k)

  pub balance_to_self : (a : Account) → a.id ≡ k → balance_to k v a ≡ record a { balance = v }
  balance_to_self a h = ground (arith, eq_iff a.id k)

  pub id-balance_to : (a : Account) → (balance_to k v a).id ≡ a.id
  id-balance_to a = ground arith

  pub updated-none : (accs : List Account) → All (λ a. a.id ≢ k) accs → updated accs ≡ accs
  updated-none [] h = refl
  updated-none (a ∷ accs) h = ap₂ ◌∷◌ (balance_to_ne a h.0) (updated-none accs h.1)

  others :
      (j : String) (accs : List Account)
      → All (λ b. b.id ≢ j) accs
      → All (λ b. b.id ≢ j) (updated accs)
  others j [] h = tt
  others j (a ∷ accs) h = ((λ e. h.0 (sym (id-balance_to a) ∙ e)), others j accs h.1)

  pub updated-IsUnique : (accs : List Account) → IsUnique accs → IsUnique (updated accs)
  updated-IsUnique [] h = tt
  updated-IsUnique (a ∷ accs) h = (
    subst (λ j. All (λ b. b.id ≢ j) (updated accs)) (sym (id-balance_to a)) (others a.id accs h.0),
    updated-IsUnique accs h.1,
  )

  -- An account with another id is still there.
  pub Member-updated :
      {a : Account} (accs : List Account) → a.id ≢ k → Member a accs → Member a (updated accs)
  Member-updated [] h m = elim m [ ]
  Member-updated (b ∷ accs) h (Member.head e) =
      Member.head (e ∙ sym (balance_to_ne b (λ q. h (ap (λ c. c.id) e ∙ q))))
  Member-updated (b ∷ accs) h (Member.tail m) = Member.tail (Member-updated accs h m)

  -- Writing one balance changes the money in all accounts by the difference.
  pub total-updated :
      {a : Account} (accs : List Account)
      → IsUnique accs
      → Member a accs
      → a.id ≡ k
      → total (updated accs) +ℤ a.balance ≡ total accs +ℤ v
  total-updated [] u m h = elim m [ ]
  total-updated (b ∷ accs) u (Member.head e) h =
      let own : b.id ≡ k = ap (λ c. c.id) (sym e) ∙ h in
      let rest = All-map (λ c. c.id ≢ b.id) (λ c. c.id ≢ k) accs (λ c n q. n (q ∙ sym own)) u.0 in
      rw (balance_to_self b own, updated-none accs rest, ap (λ c. c.balance) e) (omega int_laws)
  total-updated {a} (b ∷ accs) u (Member.tail m) h =
      let other = All-Member (λ c. c.id ≢ b.id) accs u.0 m in
      rw (balance_to_ne b (λ q. other (h ∙ sym q))) (
        +ℤ_assoc b.balance (total (updated accs)) a.balance
        ∙ ap (λ t. b.balance +ℤ t) (total-updated accs u.1 m h)
        ∙ sym (+ℤ_assoc b.balance (total accs) v))
