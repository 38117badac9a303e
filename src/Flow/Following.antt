-- ===== src/Flow/Following.antt =====
-- What a transfer that app/service/transactions.go has written means for accounts that follow what is
-- booked for them.
use dbank.Prelude.{ℕ, String, ◌≡◌, ap₂, sym, ◌∙◌, subst, some, ◌==◌, if◌then◌else◌}
use dbank.Prelude.Int.{ℤ, pos, ◌+ℤ◌, ◌-ℤ◌}
use dbank.Sql.{Database, Driver}
use dbank.Broker.{Broker}
use dbank.Store.Requests.{Float64, AccountDetails}
use dbank.Store.Balances.{IsUnique}
use dbank.Store.Accounts.Lookup.{Answers}
use dbank.Service.Transactions.{CreateTransactionRequest, Decimals, event_of}
use dbank.Service.Transactions.Ended.{Written}
use dbank.Service.Transactions.Money.{
  IdsShared, IsExact, shared-id, key-user, Posted-updates, Planned-distinct,
}
use dbank.Ledger.Entries.{Mongo}
use dbank.Ledger.Accounts.{movement}
use dbank.Flow.Agreement.{Follows, unique-Alike, transferred-Follows}

module _ {F : Type 0} (fl : Float64 F) (dec : Decimals) (d : Driver) (mq : Broker) (m : Mongo)
    (req : CreateTransactionRequest) (opening : String → ℤ) where
  -- The id of a request is that of the account which was read, where it is written canonically.
  read-id :
      {id : String} {db : Database} {answer : AccountDetails F} (a : Answers fl d id db answer)
      → IdsShared db
      → d.uuid id ≡ some id
      → a.account.id ≡ id
  read-id a shared canonical = shared-id fl dec d req a shared ∙ key-user fl dec d req a canonical

  -- Accounts that follow what is booked for them do so after a transfer, once its event is booked.
  pub Written-Follows :
      (before after : Database) (booked booked' : String → ℤ) (now : ℕ)
      → IsUnique before.accounts
      → IdsShared before
      → IsExact fl d before.accounts
      → d.uuid req.from_account_id ≡ some req.from_account_id
      → d.uuid req.to_account_id ≡ some req.to_account_id
      → (w : Written fl dec d req before after)
      → ((id : String) → booked' id ≡ booked id +ℤ movement (event_of req now) w.planned.amount id)
      → Follows opening before.accounts booked
      → Follows opening after.accounts booked'
  Written-Follows before after booked booked' now unique shared exact cf ct w grown h =
      let v = w.plan_is in
      let from = v.sender.account in
      let to = v.receiver.account in
      let from_is : from.id ≡ req.from_account_id = read-id v.sender shared cf in
      let to_is : to.id ≡ req.to_account_id = read-id v.receiver shared ct in
      subst (λ accs. Follows opening accs booked')
        (sym (Posted-updates fl dec d req w.planned before before after shared exact v w.posted))
        (transferred-Follows opening from to w.planned.amount
          (Planned-distinct fl dec d req w.planned before shared v) before.accounts booked booked'
          (unique-Alike from before.accounts unique v.sender.account_is)
          (unique-Alike to before.accounts unique v.receiver.account_is)
          (λ id.
            grown id
            ∙ ap₂
                (λ t f.
                  booked id
                  +ℤ ((if t == id then w.planned.amount else pos 0)
                      -ℤ (if f == id then w.planned.amount else pos 0)))
                (sym to_is) (sym from_is))
          h)
