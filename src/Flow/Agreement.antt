-- ===== src/Flow/Agreement.antt =====
-- The balances of app/store next to those of the ledger of app/consumer, when an amount moves from one
-- account to another in both.
use mathlib.Core.List.{Memᴰ as Member}
use dbank.Prelude.{
  String, ◌≡◌, ◌≢◌, ap, sym, ◌∙◌, subst, inl, inr, false, List, [], ◌∷◌, All, ◌==◌, if◌then◌else◌,
  eq_iff, Bool-cases, arith,
}
use dbank.Prelude.Int.{ℤ, pos, ◌+ℤ◌, ◌-ℤ◌, +ℤ_assoc, int_laws}
use dbank.Prelude.Member.{All-Member, All-map}
use dbank.Sql.{Account}
use dbank.Store.Balances.{IsUnique, updated, balance_to_ne, balance_to_self}
use dbank.Store.Updates.{balance_to}

-- Each account has what it opened with and what is booked for it.
abbrev pub Follows : (String → ℤ) → List Account → (String → ℤ) → Type 0
Follows opening accs booked = All (λ a. a.balance ≡ opening a.id +ℤ booked a.id) accs

-- An account with the id of another is that account.
abbrev pub Alike : Account → List Account → Type 0
Alike x = All (λ a. a.id ≡ x.id → a.balance ≡ x.balance)

pub unique-Alike :
    (x : Account) (accs : List Account) → IsUnique accs → Member x accs → Alike x accs
unique-Alike x [] u m = tt
unique-Alike x (a ∷ accs) u (Member.head e) = (
  (λ _. ap (λ c. c.balance) (sym e)),
  All-map (λ b. b.id ≢ a.id) (λ b. b.id ≡ x.id → b.balance ≡ x.balance) accs
      (λ b other same. absurd (other (same ∙ ap (λ c. c.id) e))) u.0,
)
unique-Alike x (a ∷ accs) u (Member.tail m) = (
  (λ same. absurd (All-Member (λ b. b.id ≢ a.id) accs u.0 m (sym same))),
  unique-Alike x accs u.1 m,
)

test_ne : (x y : String) → x ≢ y → (x == y) ≡ false
test_ne x y h = ground (arith, eq_iff x y)

ne_test : (x y : String) → (x == y) ≡ false → x ≢ y
ne_test x y h = ground (arith, eq_iff x y)

module _ (opening : String → ℤ) (from to : Account) (amount : ℤ) (distinct : to.id ≢ from.id) where
  -- What the transfer means for an account.
  abbrev pub moves : String → ℤ
  moves id = (if to.id == id then amount else pos 0) -ℤ (if from.id == id then amount else pos 0)

  abbrev transferred : Account → Account
  transferred a =
      balance_to to.id (to.balance +ℤ amount) (balance_to from.id (from.balance -ℤ amount) a)

  transferred-moves :
      (a : Account)
      → (a.id ≡ from.id → a.balance ≡ from.balance)
      → (a.id ≡ to.id → a.balance ≡ to.balance)
      → ((transferred a).id ≡ a.id) × ((transferred a).balance ≡ a.balance +ℤ moves a.id)
  transferred-moves a f t = elim (Bool-cases (from.id == a.id)) [
    | inl here ↦
        let same = (eq_iff from.id a.id).0 here in
        let apart : a.id ≢ to.id = λ q. distinct (sym q ∙ sym same) in
        let elsewhere : (to.id == a.id) ≡ false = test_ne to.id a.id (λ q. apart (sym q)) in
        let done : transferred a ≡ record a { balance = from.balance -ℤ amount } =
          ap (balance_to to.id (to.balance +ℤ amount))
            (balance_to_self from.id (from.balance -ℤ amount) a (sym same))
          ∙ balance_to_ne to.id (to.balance +ℤ amount)
              (record a { balance = from.balance -ℤ amount }) apart in
        (
          ap (λ c. c.id) done,
          ap (λ c. c.balance) done ∙ rw (here, elsewhere, f (sym same)) (omega int_laws),
        )
    | inr away ↦
        let apart : a.id ≢ from.id = λ q. ne_test from.id a.id away (sym q) in
        let kept = balance_to_ne from.id (from.balance -ℤ amount) a apart in
        let credit = balance_to to.id (to.balance +ℤ amount) in
        elim (Bool-cases (to.id == a.id)) [
          | inl here ↦
              let same = sym ((eq_iff to.id a.id).0 here) in
              let done : transferred a ≡ record a { balance = to.balance +ℤ amount } =
                ap credit kept ∙ balance_to_self to.id (to.balance +ℤ amount) a same in
              (
                ap (λ c. c.id) done,
                ap (λ c. c.balance) done ∙ rw (away, here, t same) (omega int_laws),
              )
          | inr elsewhere ↦
              let done : transferred a ≡ a =
                ap credit kept
                ∙ balance_to_ne to.id (to.balance +ℤ amount) a
                    (λ q. ne_test to.id a.id elsewhere (sym q)) in
              (
                ap (λ c. c.id) done,
                ap (λ c. c.balance) done ∙ rw (away, elsewhere) (omega int_laws),
              )
        ]
  ]

  pub transferred-Follows :
      (accs : List Account) (booked booked' : String → ℤ)
      → Alike from accs
      → Alike to accs
      → ((id : String) → booked' id ≡ booked id +ℤ moves id)
      → Follows opening accs booked
      → Follows opening
          (updated to.id (to.balance +ℤ amount) (updated from.id (from.balance -ℤ amount) accs))
          booked'
  transferred-Follows [] booked booked' f t grown h = tt
  transferred-Follows (a ∷ accs) booked booked' f t grown h =
      let (kept, moved) = transferred-moves a f.0 t.0 in
      (
        subst (λ id. (transferred a).balance ≡ opening id +ℤ booked' id) (sym kept)
            (moved
              ∙ ap (λ v. v +ℤ moves a.id) h.0
              ∙ +ℤ_assoc (opening a.id) (booked a.id) (moves a.id)
              ∙ ap (λ v. opening a.id +ℤ v) (sym (grown a.id))),
        transferred-Follows accs booked booked' f.1 t.1 grown h.1,
      )
