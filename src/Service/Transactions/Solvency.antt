-- ===== src/Service/Transactions/Solvency.antt =====
-- The money of the bank under a transfer of app/service/transactions.go: what the tables keep, so that
-- one transfer after another moves money and makes none.
use mathlib.Core.Path.{subst₂}
use dbank.Prelude.{ℕ, String, ◌≡◌, ap, sym, ◌∙◌, subst, inl, inr, List, [], ◌∷◌, All, arith, some}
use dbank.Prelude.Int.{ℤ, pos, ◌+ℤ◌, ◌-ℤ◌, ◌≤ℤ◌, int_laws}
use dbank.Prelude.Member.{All-Member, All-map}
use dbank.Status.{Result, ok, err}
use dbank.Sql.{Driver, User, Account, Database}
use dbank.Broker.{Broker}
use dbank.Store.Requests.{Float64, TransactionRequest}
use dbank.Store.Balances.{total, IsUnique, updated, updated-IsUnique, id-balance_to}
use dbank.Store.Updates.{balance_to}
use dbank.Store.Accounts.Lookup.{DeliversOnly}
use dbank.Store.Transactions.Posted.{Posted}
use dbank.Service.Bank.{Bank}
use dbank.Service.Transactions.{
  CreateTransactionRequest, CreateTransactionResponse, Decimals, create_transaction_handler,
  store_request,
}
use dbank.Service.Transactions.Ended.{Written, Ended, create_transaction_handler-Ended}
use dbank.Service.Transactions.Money.{IdsShared, IsExact, Moved, Moved-total, Written-Moved}

-- No balance is negative.
abbrev pub IsCovered : List Account → Type 0
IsCovered = All (λ a. pos 0 ≤ℤ a.balance)

-- Tables in which every account has the id of its user, no two accounts share an id, no balance is
-- negative, and the sum of all balances is `sum`.
pub record Solvent (sum : ℤ) (db : Database) : Type 0 where
  pub unique : IsUnique db.accounts
  pub shared : IdsShared db
  pub covered : IsCovered db.accounts
  pub total_is : total db.accounts ≡ sum

-- Balances from 0 to `sum` come back from a float64 as they were, and are stored without rounding.
pub record ExactUpTo {F : Type 0} (sum : ℤ) (fl : Float64 F) (d : Driver) : Type 0 where
  pub floats : (v : ℤ) → pos 0 ≤ℤ v → v ≤ℤ sum → fl.new_from_float (fl.scan v) ≡ v
  pub stores : (v s : ℤ) → d.numeric v ≡ some s → s ≡ v

total-nonneg : (accs : List Account) → IsCovered accs → pos 0 ≤ℤ total accs
total-nonneg [] h = omega int_laws
total-nonneg (a ∷ accs) h = let rest = total-nonneg accs h.1 in let first = h.0 in omega int_laws

-- No balance is above the sum.
balance-le-total :
    (sum : ℤ) (accs : List Account)
    → IsCovered accs
    → total accs ≤ℤ sum
    → All (λ a. (pos 0 ≤ℤ a.balance) × (a.balance ≤ℤ sum)) accs
balance-le-total sum [] h k = tt
balance-le-total sum (a ∷ accs) h k =
    let first = h.0 in
    let rest = total-nonneg accs h.1 in
    ((h.0, omega int_laws), balance-le-total sum accs h.1 (omega int_laws))

updated-IsCovered :
    (k : String) (v : ℤ) (accs : List Account)
    → pos 0 ≤ℤ v
    → IsCovered accs
    → IsCovered (updated k v accs)
updated-IsCovered k v [] h c = tt
updated-IsCovered k v (a ∷ accs) h c =
    let first = c.0 in (ground arith, updated-IsCovered k v accs h c.1)

user_pk-balance_to : (k : String) (v : ℤ) (a : Account) → (balance_to k v a).user_pk ≡ a.user_pk
user_pk-balance_to k v a = ground arith

-- Writing a balance changes no id and no owner.
updated-owned :
    (k : String) (v : ℤ) (u : User) (accs : List Account)
    → All (λ a. a.user_pk ≡ u.pk → a.id ≡ u.id) accs
    → All (λ a. a.user_pk ≡ u.pk → a.id ≡ u.id) (updated k v accs)
updated-owned k v u [] h = tt
updated-owned k v u (a ∷ accs) h = (
  (λ e. id-balance_to k v a ∙ h.0 (sym (user_pk-balance_to k v a) ∙ e)),
  updated-owned k v u accs h.1,
)

updated-IdsShared :
    (k : String) (v : ℤ) (accs : List Account) (users : List User)
    → All (λ u. All (λ a. a.user_pk ≡ u.pk → a.id ≡ u.id) accs) users
    → All (λ u. All (λ a. a.user_pk ≡ u.pk → a.id ≡ u.id) (updated k v accs)) users
updated-IdsShared k v accs users =
    All-map (λ u. All (λ a. a.user_pk ≡ u.pk → a.id ≡ u.id) accs)
      (λ u. All (λ a. a.user_pk ≡ u.pk → a.id ≡ u.id) (updated k v accs)) users
      (λ u. updated-owned k v u accs)

-- A covered amount that moves leaves the tables solvent.
Moved-Solvent :
    (sum : ℤ) (before after : Database)
    → Solvent sum before
    → after.users ≡ before.users
    → Moved before.accounts after.accounts
    → Solvent sum after
Moved-Solvent sum before after s same m =
    let mid = updated m.from.id (m.from.balance -ℤ m.amount) before.accounts in
    let more = m.positive in
    let enough = m.covered in
    let had = All-Member (λ (a : Account). pos 0 ≤ℤ a.balance) before.accounts s.covered m.to_is in
    let left : pos 0 ≤ℤ m.from.balance -ℤ m.amount = omega int_laws in
    let grown : pos 0 ≤ℤ m.to.balance +ℤ m.amount = omega int_laws in
    record {
      unique = subst IsUnique (sym m.after_is) (
          updated-IsUnique m.to.id (m.to.balance +ℤ m.amount) mid
            (updated-IsUnique m.from.id (m.from.balance -ℤ m.amount) before.accounts s.unique));
      shared =
          subst₂ (λ users accs. All (λ u. All (λ a. a.user_pk ≡ u.pk → a.id ≡ u.id) accs) users)
            (sym same) (sym m.after_is)
            (updated-IdsShared m.to.id (m.to.balance +ℤ m.amount) mid before.users (
              updated-IdsShared m.from.id (m.from.balance -ℤ m.amount) before.accounts before.users
                s.shared));
      covered = subst IsCovered (sym m.after_is) (
          updated-IsCovered m.to.id (m.to.balance +ℤ m.amount) mid grown (
            updated-IsCovered m.from.id (m.from.balance -ℤ m.amount) before.accounts left
              s.covered));
      total_is = Moved-total before.accounts after.accounts s.unique m ∙ s.total_is;
    }

module _ {F : Type 0} (fl : Float64 F) (dec : Decimals) (d : Driver) where
  pub Solvent-IsExact :
      (sum : ℤ) (db : Database) → ExactUpTo sum fl d → Solvent sum db → IsExact fl d db.accounts
  Solvent-IsExact sum db x s = record {
    floats =
        All-map (λ a. (pos 0 ≤ℤ a.balance) × (a.balance ≤ℤ sum))
          (λ a. fl.new_from_float (fl.scan a.balance) ≡ a.balance) db.accounts
          (λ a (low, high). x.floats a.balance low high)
          (balance-le-total sum db.accounts s.covered
            (subst (λ t. total db.accounts ≤ℤ t) s.total_is (omega arith)));
    stores = x.stores;
  }

  users-Posted :
      (now : ℕ) (req : TransactionRequest) (before after : Database)
      → Posted d now req before after
      → after.users ≡ before.users
  users-Posted now req before after p =
      ap (λ (t : Database). t.users) p.recorded.after_is
      ∙ ap (λ (t : Database). t.users) p.credit.after_is
      ∙ ap (λ (t : Database). t.users) p.debit.after_is

  module _ (sum : ℤ) (exact : ExactUpTo sum fl d) (req : CreateTransactionRequest) where
    Written-Solvent :
        (before after : Database)
        → Solvent sum before
        → Written fl dec d req before after
        → Solvent sum after
    Written-Solvent before after s w =
        Moved-Solvent sum before after s
          (users-Posted w.now (store_request fl dec d req w.planned) before after w.posted)
          (Written-Moved fl dec d req before after s.shared (Solvent-IsExact sum before exact s) w)

    Ended-Solvent :
        (mq : Broker) (b b' : Bank) (r : Result CreateTransactionResponse)
        → Solvent sum b.world.db
        → Ended fl dec d mq req b (r, b')
        → Solvent sum b'.world.db
    Ended-Solvent mq b b' (ok _) s (w, _, _) = Written-Solvent b.world.db b'.world.db s w
    Ended-Solvent mq b b' (err _) s (inl same, _) = subst (Solvent sum) (sym same) s
    Ended-Solvent mq b b' (err _) s (inr (_, w), _) = Written-Solvent b.world.db b'.world.db s w

    -- A transfer, however it ends, leaves solvent tables solvent, with the same sum of all balances.
    pub create_transaction_handler-Solvent :
        (mq : Broker) (b : Bank)
        → DeliversOnly d
        → Solvent sum b.world.db
        → Solvent sum (create_transaction_handler fl dec d mq req b).1.world.db
    create_transaction_handler-Solvent mq b only s =
        let (r, b') = create_transaction_handler fl dec d mq req b in
        Ended-Solvent mq b b' r s (create_transaction_handler-Ended fl dec d mq req b only)
