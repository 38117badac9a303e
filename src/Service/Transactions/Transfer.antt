-- ===== src/Service/Transactions/Transfer.antt =====
-- The money under a call of CreateTransaction of app/service/transactions.go.
use dbank.Prelude.{◌⊎◌, ℕ, ◌≡◌, refl, sym, ◌∙◌, ap, subst, none, inl, inr}
use dbank.Status.{Error, Result, ok, err}
use dbank.Sql.{Driver, Database, transactions}
use dbank.Sql.Schema.{initial_columns}
use mathlib.Core.Bool.{false≢true}
use mathlib.Core.Option.{none-ne-some}
use dbank.Broker.{Broker}
use dbank.Store.Requests.{Float64}
use dbank.Store.Accounts.Lookup.{DeliversOnly}
use dbank.Service.Bank.{Bank}
use dbank.Service.Transactions.{
  CreateTransactionRequest, CreateTransactionResponse, Decimals, create_transaction_handler,
}
use dbank.Service.Transactions.Ended.{Written, Ended, create_transaction_handler-Ended}
use dbank.Service.Transactions.Money.{IdsDisjoint, Written-moves_nothing}

module _ {F : Type 0} (fl : Float64 F) (dec : Decimals) (d : Driver) (mq : Broker)
    (req : CreateTransactionRequest) where
  handler-Written :
      (b b' : Bank) {response : CreateTransactionResponse}
      → DeliversOnly d
      → create_transaction_handler fl dec d mq req b ≡ (ok response, b')
      → Written fl dec d req b.world.db b'.world.db
  handler-Written b b' only h =
      (subst (Ended fl dec d mq req b) h
        (create_transaction_handler-Ended fl dec d mq req b only)).0

  -- If no account has the id of a user, then a transfer that returns has moved nothing: it reports
  -- success while every account is as it was. The condition on the environment: a query delivers
  -- only its own rows.
  pub create_transaction_handler-moves_nothing :
      (b b' : Bank) {response : CreateTransactionResponse}
      → DeliversOnly d
      → IdsDisjoint b.world.db
      → create_transaction_handler fl dec d mq req b ≡ (ok response, b')
      → (b'.world.db.accounts ≡ b.world.db.accounts) × (response.status ≡ "success")
  create_transaction_handler-moves_nothing b b' only disjoint h = (
    Written-moves_nothing fl dec d req b.world.db b'.world.db disjoint
        (handler-Written b b' only h),
    ap (λ r. r.status)
        (subst (Ended fl dec d mq req b) h
          (create_transaction_handler-Ended fl dec d mq req b only)).1,
  )

  no_row :
      (db db' : Database)
      → d.columns transactions ≡ initial_columns transactions
      → ¬ Written fl dec d req db db'
  no_row db db' schema w = false≢true (rw schema at w.posted.recorded.known)

  -- The id of the new row, a UUID, is scanned into an int.
  no_number :
      (db db' : Database) → ((n : ℕ) → d.to_int (d.new_id n) ≡ none) → ¬ Written fl dec d req db db'
  no_number db db' unreadable w =
      let r = w.posted.recorded in
      none-ne-some _ (sym (unreadable r.call) ∙ sym (ap d.to_int r.id_is) ∙ r.read_back)

  -- Where no transfer can be written, a call fails.
  abbrev Failing : Bank → Result CreateTransactionResponse × Bank → Type 0
  Failing b (r, b') =
      ((e : Error) × (r ≡ err e)) × (b'.world.db ≡ b.world.db) × (b'.exchange ≡ b.exchange)

  fails :
      (b : Bank) (r : Result CreateTransactionResponse) (b' : Bank)
      → ((db db' : Database) → ¬ Written fl dec d req db db')
      → Ended fl dec d mq req b (r, b')
      → Failing b (r, b')
  fails b (ok _) b' never (w, _, _) = absurd (never b.world.db b'.world.db w)
  fails b (err e) b' never (inl same, quiet) = ((e, refl), same, quiet)
  fails b (err e) b' never (inr (_, w), quiet) = absurd (never b.world.db b'.world.db w)

  handler-fails :
      (b : Bank)
      → DeliversOnly d
      → ((db db' : Database) → ¬ Written fl dec d req db db')
      → Failing b (create_transaction_handler fl dec d mq req b)
  handler-fails b only never =
      let (r, b') = create_transaction_handler fl dec d mq req b in
      fails b r b' never (create_transaction_handler-Ended fl dec d mq req b only)

  -- With the columns that the migration gives dbank_transactions, and also where no key that the
  -- database draws for a transaction can be read into an int, every call fails, changes no table and
  -- publishes nothing. The condition on the environment: a query delivers only its own rows.
  pub create_transaction_handler-fails :
      (b : Bank)
      → DeliversOnly d
      → (d.columns transactions ≡ initial_columns transactions)
        ⊎ ((n : ℕ) → d.to_int (d.new_id n) ≡ none)
      → ((e : Error) × ((create_transaction_handler fl dec d mq req b).0 ≡ err e))
        × ((create_transaction_handler fl dec d mq req b).1.world.db ≡ b.world.db)
        × ((create_transaction_handler fl dec d mq req b).1.exchange ≡ b.exchange)
  create_transaction_handler-fails b only (inl schema) =
      handler-fails b only (λ db db' w. no_row db db' schema w)
  create_transaction_handler-fails b only (inr unreadable) =
      handler-fails b only (λ db db' w. no_number db db' unreadable w)
