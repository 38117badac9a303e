-- ===== src/Service/Transactions/Money.antt =====
-- What a transfer that was written has done to the balances. CreateTransaction of
-- app/service/transactions.go reads both accounts by the id of their user, and updates by the id of
-- the account.
use mathlib.Core.List.{Memᴰ as Member}
use mathlib.Core.Option.{some-injective}
use dbank.Prelude.{ℕ, String, ◌≡◌, refl, ap, ap₂, sym, ◌∙◌, ◌≢◌, subst, some, List, All}
use dbank.Prelude.Int.{ℤ, pos, ◌+ℤ◌, ◌-ℤ◌, ◌≤ℤ◌, ◌<ℤ◌, int_laws, pos_part, neg_part}
use dbank.Prelude.Member.{All-Member, All-map}
use dbank.Sql.{Account, Database, Driver}
use dbank.Store.Requests.{Float64, AccountDetails}
use dbank.Store.Balances.{
  total, IsUnique, updated, updated-none, updated-IsUnique, Member-updated, total-updated,
}
use dbank.Store.Accounts.Lookup.{Answers}
use dbank.Service.Transactions.{CreateTransactionRequest, Decimals, Plan, store_request}
use dbank.Service.Transactions.Guards.{Planned}
use dbank.Store.Transactions.Posted.{Posted}
use dbank.Service.Transactions.Ended.{Written}

-- No account has the id of a user.
abbrev pub IdsDisjoint : Database → Type 0
IdsDisjoint db = All (λ u. All (λ a. a.id ≢ u.id) db.accounts) db.users

module _ {F : Type 0} (fl : Float64 F) (dec : Decimals) (d : Driver)
    (req : CreateTransactionRequest) where
  -- The accounts after the two updates.
  accounts_after :
      (planned : Plan F) {now : ℕ} (before after : Database)
      (p : Posted d now (store_request fl dec d req planned) before after)
      → after.accounts
        ≡ updated p.credit.key p.credit.stored (updated p.debit.key p.debit.stored before.accounts)
  accounts_after planned before after p =
      ap (λ t. t.accounts) p.recorded.after_is
      ∙ ap (λ t. t.accounts) p.credit.after_is
      ∙ ap (λ t. updated p.credit.key p.credit.stored t.accounts) p.debit.after_is

  some_key : {k j : String} (id : String) → d.uuid id ≡ some k → d.uuid id ≡ some j → k ≡ j
  some_key id e f = some-injective _ _ (sym e ∙ f)

  -- The key of an update is the id of the user that was read.
  pub key-user :
      {k id : String} {db : Database} {answer : AccountDetails F} (a : Answers fl d id db answer)
      → d.uuid id ≡ some k
      → a.user.id ≡ k
  key-user {id = id} a e = a.found ∙ some_key id a.key_is e

  not_an_account :
      (k id : String) (db : Database) (answer : AccountDetails F)
      → IdsDisjoint db
      → Answers fl d id db answer
      → d.uuid id ≡ some k
      → All (λ a. a.id ≢ k) db.accounts
  not_an_account k id db answer h a e =
      All-map (λ c. c.id ≢ a.user.id) (λ c. c.id ≢ k) db.accounts
        (λ c n q. n (q ∙ sym (key-user a e)))
        (All-Member (λ u. All (λ c. c.id ≢ u.id) db.accounts) db.users h a.user_is)

  -- Where no account has the id of a user, a transfer that was written has moved nothing: every
  -- balance is as it was.
  pub Written-moves_nothing :
      (before after : Database)
      → IdsDisjoint before
      → Written fl dec d req before after
      → after.accounts ≡ before.accounts
  Written-moves_nothing before after h w =
      let debit = w.posted.debit in
      let credit = w.posted.credit in
      let from = not_an_account debit.key _ before _ h w.plan_is.sender debit.key_is in
      let to = not_an_account credit.key _ before _ h w.plan_is.receiver credit.key_is in
      accounts_after w.planned before after w.posted
      ∙ ap (updated credit.key credit.stored)
          (updated-none debit.key debit.stored before.accounts from)
      ∙ updated-none credit.key credit.stored before.accounts to

-- The account of each user has that user's id.
abbrev pub IdsShared : Database → Type 0
IdsShared db = All (λ u. All (λ a. a.user_pk ≡ u.pk → a.id ≡ u.id) db.accounts) db.users

-- Every balance comes back from a float64 as it was, and a decimal that is stored is not rounded.
pub record IsExact {F : Type 0} (fl : Float64 F) (d : Driver) (accs : List Account) : Type 0 where
  pub floats : All (λ a. fl.new_from_float (fl.scan a.balance) ≡ a.balance) accs
  pub stores : (v s : ℤ) → d.numeric v ≡ some s → s ≡ v

-- An amount that moved from one account to another, which covered it.
pub record Moved (before after : List Account) : Type 0 where
  pub amount : ℤ
  pub from : Account
  pub to : Account
  pub positive : pos 0 <ℤ amount
  pub covered : amount ≤ℤ from.balance
  pub from_is : Member from before
  pub to_is : Member to before
  pub distinct : to.id ≢ from.id
  pub after_is :
      after ≡ updated to.id (to.balance +ℤ amount) (updated from.id (from.balance -ℤ amount) before)

cancel : (t m u f g x : ℤ) → m +ℤ f ≡ t +ℤ (f -ℤ x) → u +ℤ g ≡ m +ℤ (g +ℤ x) → u ≡ t
cancel t m u f g x h k =
    omega (int_laws, ap pos_part h, ap neg_part h, ap pos_part k, ap neg_part k)

-- Money that moves is neither made nor lost.
pub Moved-total :
    (before after : List Account)
    → IsUnique before
    → Moved before after
    → total after ≡ total before
Moved-total before after u m =
    let mid = updated m.from.id (m.from.balance -ℤ m.amount) before in
    let first = total-updated m.from.id (m.from.balance -ℤ m.amount) before u m.from_is refl in
    let there = Member-updated m.from.id (m.from.balance -ℤ m.amount) before m.distinct m.to_is in
    let uniq = updated-IsUnique m.from.id (m.from.balance -ℤ m.amount) before u in
    let second = total-updated m.to.id (m.to.balance +ℤ m.amount) mid uniq there refl in
    rw m.after_is
      (cancel (total before) (total mid) _ m.from.balance m.to.balance m.amount first second)

module _ {F : Type 0} (fl : Float64 F) (dec : Decimals) (d : Driver)
    (req : CreateTransactionRequest) where
  pub shared-id :
      {id : String} {db : Database} {answer : AccountDetails F} (a : Answers fl d id db answer)
      → IdsShared db
      → a.account.id ≡ a.user.id
  shared-id {db = db} a h =
      All-Member (λ c. c.user_pk ≡ a.user.pk → c.id ≡ a.user.id) db.accounts
        (All-Member (λ u. All (λ c. c.user_pk ≡ u.pk → c.id ≡ u.id) db.accounts) db.users h
          a.user_is)
        a.account_is a.owner

  read-eq :
      {id : String} {db : Database} {answer : AccountDetails F} (a : Answers fl d id db answer)
      → IsExact fl d db.accounts
      → fl.new_from_float answer.balance ≡ a.account.balance
  read-eq {db = db} a x =
      ap (λ v. fl.new_from_float v.balance) a.answer_is
      ∙ All-Member (λ c. fl.new_from_float (fl.scan c.balance) ≡ c.balance) db.accounts x.floats
          a.account_is

  -- The accounts after a transfer, by the accounts of the tables that it was planned from; those may
  -- be older than the tables that it was written to.
  pub Posted-updates :
      (planned : Plan F) {now : ℕ} (read before after : Database)
      → IdsShared read
      → IsExact fl d read.accounts
      → (v : Planned fl dec d req read planned)
      → Posted d now (store_request fl dec d req planned) before after
      → after.accounts
        ≡ updated v.receiver.account.id (v.receiver.account.balance +ℤ planned.amount) (
            updated v.sender.account.id
              (v.sender.account.balance -ℤ planned.amount)
              before.accounts)
  Posted-updates planned read before after h x v p =
      let from = v.sender.account in
      let to = v.receiver.account in
      let from_key : p.debit.key ≡ from.id =
        sym (shared-id v.sender h ∙ key-user fl dec d req v.sender p.debit.key_is) in
      let to_key : p.credit.key ≡ to.id =
        sym (shared-id v.receiver h ∙ key-user fl dec d req v.receiver p.credit.key_is) in
      let debited : p.debit.stored ≡ from.balance -ℤ planned.amount =
        x.stores _ _ p.debit.stored_is ∙ ap (λ b. b -ℤ planned.amount) (read-eq v.sender x) in
      let credited : p.credit.stored ≡ to.balance +ℤ planned.amount =
        x.stores _ _ p.credit.stored_is ∙ ap (λ b. b +ℤ planned.amount) (read-eq v.receiver x) in
      accounts_after fl dec d req planned before after p
      ∙ ap₂ (λ k b. updated k b (updated p.debit.key p.debit.stored before.accounts)) to_key
          credited
      ∙ ap₂ (λ k b. updated to.id (to.balance +ℤ planned.amount) (updated k b before.accounts))
          from_key debited

  -- The two accounts of a plan are different.
  pub Planned-distinct :
      (planned : Plan F) (read : Database)
      → IdsShared read
      → (v : Planned fl dec d req read planned) → v.receiver.account.id ≢ v.sender.account.id
  Planned-distinct planned read h v e = v.distinct (
      ap (λ b. b.id) v.sender.answer_is
      ∙ sym (shared-id v.sender h)
      ∙ sym e
      ∙ shared-id v.receiver h
      ∙ sym (ap (λ b. b.id) v.receiver.answer_is))

  pub Written-Moved :
      (before after : Database)
      → IdsShared before
      → IsExact fl d before.accounts
      → Written fl dec d req before after
      → Moved before.accounts after.accounts
  Written-Moved before after h x w = record {
    amount = w.planned.amount;
    from = w.plan_is.sender.account;
    to = w.plan_is.receiver.account;
    positive = w.plan_is.request.positive;
    covered = subst (λ b. w.planned.amount ≤ℤ b) (read-eq w.plan_is.sender x) w.plan_is.covered;
    from_is = w.plan_is.sender.account_is;
    to_is = w.plan_is.receiver.account_is;
    distinct = Planned-distinct w.planned before h w.plan_is;
    after_is = Posted-updates w.planned before before after h x w.plan_is w.posted;
  }
