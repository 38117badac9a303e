-- ===== src/Service/Interleaving/LostUpdate.antt =====
-- Two transfers from one account that were planned from the same tables.
use mathlib.Core.List.{Memᴰ as Member}
use mathlib.Core.List.Memᴰ as Memᴰ
use dbank.Prelude.{String, ◌≡◌, ◌≢◌, refl, sym, ◌∙◌, ap, subst, List, [], ◌∷◌}
use dbank.Prelude.Int.{ℤ, pos, ◌+ℤ◌, ◌-ℤ◌, ◌<ℤ◌, int_laws, pos_part, neg_part}
use dbank.Prelude.Member.{All-Member}
use dbank.Status.{ok}
use dbank.Sql.{Account, Driver, Database}
use dbank.Broker.{Broker}
use dbank.Store.Requests.{Float64}
use dbank.Store.Balances.{
  total, IsUnique, updated, updated-IsUnique, Member-updated, total-updated, balance_to_self,
}
use dbank.Store.Updates.{balance_to}
use dbank.Store.Accounts.Lookup.{DeliversOnly}
use dbank.Service.Bank.{Bank}
use dbank.Service.Transactions.{
  CreateTransactionRequest, CreateTransactionResponse, Decimals, Plan, plan,
}
use dbank.Service.Transactions.Guards.{Planned, plan-Planned}
use dbank.Service.Transactions.Money.{
  IdsShared, IsExact, shared-id, Posted-updates, Planned-distinct,
}
use dbank.Service.Interleaving.{complete}
use dbank.Service.Interleaving.Stale.{complete-Posted}

-- The row whose balance was written.
Member-written :
    (k : String) (v : ℤ) {a : Account} (accs : List Account)
    → a.id ≡ k
    → Member a accs
    → Member (record a { balance = v }) (updated k v accs)
Member-written k v {a} accs e m =
    subst (λ b. Member b (updated k v accs)) (balance_to_self k v a e) (Memᴰ.map (balance_to k v) m)

-- Ids are unique, so that two rows with one id are one row.
same_row :
    {a b : Account} (accs : List Account)
    → IsUnique accs
    → Member a accs
    → Member b accs
    → a.id ≡ b.id
    → a ≡ b
same_row [] u m n e = elim m [ ]
same_row (c ∷ accs) u (Member.head p) (Member.head q) e = p ∙ sym q
same_row (c ∷ accs) u (Member.head p) (Member.tail n) e =
    absurd (All-Member (λ x. x.id ≢ c.id) accs u.0 n (sym e ∙ ap (λ x. x.id) p))
same_row (c ∷ accs) u (Member.tail m) (Member.head q) e =
    absurd (All-Member (λ x. x.id ≢ c.id) accs u.0 m (e ∙ ap (λ x. x.id) q))
same_row (c ∷ accs) u (Member.tail m) (Member.tail n) e = same_row accs u.1 m n e

-- Four writes, the third of a balance that was read before the first.
chain :
    (t t₁ t₂ t₃ t₄ f x y a b : ℤ)
    → t₁ +ℤ f ≡ t +ℤ (f -ℤ a)
    → t₂ +ℤ x ≡ t₁ +ℤ (x +ℤ a)
    → t₃ +ℤ (f -ℤ a) ≡ t₂ +ℤ (f -ℤ b)
    → t₄ +ℤ y ≡ t₃ +ℤ (y +ℤ b)
    → t₄ ≡ t +ℤ a
chain t t₁ t₂ t₃ t₄ f x y a b h₁ h₂ h₃ h₄ = omega (
  int_laws,
  ap pos_part h₁,
  ap neg_part h₁,
  ap pos_part h₂,
  ap neg_part h₂,
  ap pos_part h₃,
  ap neg_part h₃,
  ap pos_part h₄,
  ap neg_part h₄,
)

module _ (from x y : Account) (a b : ℤ) where
  abbrev once : List Account → List Account
  once accs = updated x.id (x.balance +ℤ a) (updated from.id (from.balance -ℤ a) accs)

  abbrev twice : List Account → List Account
  twice accs = updated y.id (y.balance +ℤ b) (updated from.id (from.balance -ℤ b) (once accs))

  -- The second debit overwrites the first.
  total-twice :
      (accs : List Account)
      → IsUnique accs
      → Member from accs
      → Member x accs
      → Member y accs
      → x.id ≢ from.id
      → y.id ≢ from.id
      → y.id ≢ x.id
      → total (twice accs) ≡ total accs +ℤ a
  total-twice accs u mf mx my xf yf yx =
      let less : Account = record from { balance = from.balance -ℤ a } in
      let one = updated from.id (from.balance -ℤ a) accs in
      let u₁ = updated-IsUnique from.id (from.balance -ℤ a) accs u in
      let x₁ = Member-updated from.id (from.balance -ℤ a) accs xf mx in
      let y₁ = Member-updated from.id (from.balance -ℤ a) accs yf my in
      let two = once accs in
      let u₂ = updated-IsUnique x.id (x.balance +ℤ a) one u₁ in
      let less₂ : Member less two =
        Member-updated x.id (x.balance +ℤ a) one (λ e. xf (sym e))
          (Member-written from.id (from.balance -ℤ a) accs refl mf) in
      let y₂ = Member-updated x.id (x.balance +ℤ a) one yx y₁ in
      let three = updated from.id (from.balance -ℤ b) two in
      let u₃ = updated-IsUnique from.id (from.balance -ℤ b) two u₂ in
      let y₃ = Member-updated from.id (from.balance -ℤ b) two yf y₂ in
      chain (total accs) (total one) (total two) (total three) (total (twice accs)) from.balance
        x.balance y.balance a b (total-updated from.id (from.balance -ℤ a) accs u mf refl)
        (total-updated x.id (x.balance +ℤ a) one u₁ x₁ refl)
        (total-updated from.id (from.balance -ℤ b) two u₂ less₂ refl)
        (total-updated y.id (y.balance +ℤ b) three u₃ y₃ refl)

module _ {F : Type 0} (fl : Float64 F) (dec : Decimals) (d : Driver) where
  -- The accounts of two plans of one user are one account.
  one_sender :
      (db : Database) (req₁ req₂ : CreateTransactionRequest) (p₁ p₂ : Plan F)
      → IsUnique db.accounts
      → IdsShared db
      → (v₁ : Planned fl dec d req₁ db p₁) (v₂ : Planned fl dec d req₂ db p₂)
      → p₂.from_account.id ≡ p₁.from_account.id
      → v₂.sender.account ≡ v₁.sender.account
  one_sender db req₁ req₂ p₁ p₂ u h v₁ v₂ e =
      same_row db.accounts u v₂.sender.account_is v₁.sender.account_is (
        shared-id fl dec d req₂ v₂.sender h
        ∙ sym (ap (λ a. a.id) v₂.sender.answer_is)
        ∙ e
        ∙ ap (λ a. a.id) v₁.sender.answer_is
        ∙ sym (shared-id fl dec d req₁ v₁.sender h))

  two_receivers :
      (db : Database) (req₁ req₂ : CreateTransactionRequest) (p₁ p₂ : Plan F)
      → IdsShared db
      → (v₁ : Planned fl dec d req₁ db p₁) (v₂ : Planned fl dec d req₂ db p₂)
      → p₂.to_account.id ≢ p₁.to_account.id
      → v₂.receiver.account.id ≢ v₁.receiver.account.id
  two_receivers db req₁ req₂ p₁ p₂ h v₁ v₂ n e = n (
      ap (λ a. a.id) v₂.receiver.answer_is
      ∙ sym (shared-id fl dec d req₂ v₂.receiver h)
      ∙ e
      ∙ shared-id fl dec d req₁ v₁.receiver h
      ∙ sym (ap (λ a. a.id) v₁.receiver.answer_is))

  module _ (mq : Broker) (req₁ req₂ : CreateTransactionRequest) (p₁ p₂ : Plan F) where
    -- Two transfers of one user to two others, that both plan before either writes, and that both
    -- return: the second debit overwrites the first, so that the money in all accounts has grown by
    -- the first amount, which is positive. The conditions: every account has the id of its user, no
    -- two accounts share an id, a query delivers only its own rows, the balances survive a float64,
    -- and a decimal that is stored is not rounded.
    pub complete-lost_update :
        (b b₁ b₂ b₃ b₄ : Bank) {r₁ r₂ : CreateTransactionResponse}
        → DeliversOnly d
        → IsUnique b.world.db.accounts
        → IdsShared b.world.db
        → IsExact fl d b.world.db.accounts
        → plan fl dec d req₁ b ≡ (ok p₁, b₁)
        → plan fl dec d req₂ b₁ ≡ (ok p₂, b₂)
        → complete fl dec d mq req₁ p₁ b₂ ≡ (ok r₁, b₃)
        → complete fl dec d mq req₂ p₂ b₃ ≡ (ok r₂, b₄)
        → p₂.from_account.id ≡ p₁.from_account.id
        → p₂.to_account.id ≢ p₁.to_account.id
        → (pos 0 <ℤ p₁.amount)
          × (total b₄.world.db.accounts ≡ total b.world.db.accounts +ℤ p₁.amount)
    complete-lost_update b b₁ b₂ b₃ b₄ only u h x e₁ e₂ e₃ e₄ same differ =
        let db = b.world.db in
        let (v₁, now₁) = plan-Planned fl dec d only db b.exchange req₁ b b₁ (refl, refl) e₁ in
        let (v₂, now₂) = plan-Planned fl dec d only db b.exchange req₂ b₁ b₂ now₁ e₂ in
        let from = v₁.sender.account in
        let sender = one_sender db req₁ req₂ p₁ p₂ u h v₁ v₂ same in
        let (to₁, to₂) : Account × Account = (v₁.receiver.account, v₂.receiver.account) in
        let first : b₃.world.db.accounts ≡ once from to₁ to₂ p₁.amount p₂.amount db.accounts =
          Posted-updates fl dec d req₁ p₁ db b₂.world.db b₃.world.db h x v₁
            (complete-Posted fl dec d mq req₁ p₁ b₂ b₃ e₃)
          ∙ ap (λ t. once from to₁ to₂ p₁.amount p₂.amount t.accounts) now₂.0 in
        let second : b₄.world.db.accounts ≡ twice from to₁ to₂ p₁.amount p₂.amount db.accounts =
          Posted-updates fl dec d req₂ p₂ db b₃.world.db b₄.world.db h x v₂
            (complete-Posted fl dec d mq req₂ p₂ b₃ b₄ e₄)
          ∙ ap
              (λ s.
                updated to₂.id (to₂.balance +ℤ p₂.amount)
                  (updated s.id (s.balance -ℤ p₂.amount) b₃.world.db.accounts))
              sender
          ∙ ap
              (λ accs.
                updated to₂.id (to₂.balance +ℤ p₂.amount)
                  (updated from.id (from.balance -ℤ p₂.amount) accs))
              first in
        (
          v₁.request.positive,
          ap total second
              ∙ total-twice from to₁ to₂ p₁.amount p₂.amount db.accounts u v₁.sender.account_is
                  v₁.receiver.account_is v₂.receiver.account_is
                  (Planned-distinct fl dec d req₁ p₁ db h v₁)
                  (subst (λ s. to₂.id ≢ s.id) sender (Planned-distinct fl dec d req₂ p₂ db h v₂))
                  (two_receivers db req₁ req₂ p₁ p₂ h v₁ v₂ differ),
        )
