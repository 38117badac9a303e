-- ===== src/Store/Validity/Effects.antt =====
-- The constraints under the SELECTs of app/store/store.go and the statements of CreateTransaction.
use dbank.Prelude.{ℕ, ◌≡◌, sym, inl, inr, map, Option-cases, subst, some, String, arith}
use dbank.Prelude.Int.{ℤ}
use dbank.Sql.{Database, Driver, Reply}
use dbank.Store.Requests.{Float64, TransactionRequest}
use dbank.Store.Queries.{
  Effect, find_user_pk, find_account, find_updated, find_page, find_transaction,
}
use dbank.Store.Updates.{set_balance, balance_to, insert_transaction}
use dbank.Store.Validity.{IsValid}
use dbank.Store.Validity.Rows.{ValidAccounts-map}

abbrev pub Preserves : {A : Type 0} → Effect A → Type 0
Preserves {A} effect =
    (db db' : Database) (r : Reply A) → IsValid db → effect db ≡ some (r, db') → IsValid db'

-- A statement that leaves the tables as they are.
reads :
    {A : Type 0} (effect : Effect A)
    → ((db db' : Database) (r : Reply A) → effect db ≡ some (r, db') → db' ≡ db)
    → Preserves effect
reads effect same db db' r v e = subst IsValid (sym (same db db' r e)) v

module _ {F : Type 0} (fl : Float64 F) (d : Driver) where
  pub find_account-Preserves : (id : String) → Preserves (find_account fl d id)
  unfolding find_account
  find_account-Preserves id = reads (find_account fl d id) (λ db db' r e. ground arith)

  pub find_updated-Preserves : (pk : ℕ) → Preserves (find_updated fl d pk)
  unfolding find_updated
  find_updated-Preserves pk = reads (find_updated fl d pk) (λ db db' r e. ground arith)

  pub find_page-Preserves : (limit offset : ℕ) → Preserves (find_page fl d limit offset)
  unfolding find_page
  find_page-Preserves limit offset =
      reads (find_page fl d limit offset) (λ db db' r e. ground arith)

module _ (d : Driver) where
  pub find_user_pk-Preserves : (id : String) → Preserves (find_user_pk d id)
  unfolding find_user_pk
  find_user_pk-Preserves id = reads (find_user_pk d id) (λ db db' r e. ground arith)

  pub find_transaction-Preserves : (id : String) → Preserves (find_transaction d id)
  unfolding find_transaction
  find_transaction-Preserves id = reads (find_transaction d id) (λ db db' r e. ground arith)

  pub insert_transaction-Preserves :
      (now n : ℕ) (req : TransactionRequest) → Preserves (insert_transaction d now n req)
  unfolding insert_transaction
  insert_transaction-Preserves now n req db db' r v e =
      let users : db'.users ≡ db.users = ground arith in
      let accounts : db'.accounts ≡ db.accounts = ground arith in
      let next : db'.next_user ≡ db.next_user = ground arith in
      let next' : db'.next_account ≡ db.next_account = ground arith in
      rw (users, accounts, next, next') v

  pub set_balance-Preserves : (id : String) (b : ℤ) → Preserves (set_balance d id b)
  unfolding set_balance
  set_balance-Preserves id b db db' r v e = elim (Option-cases (d.numeric b)) [
    | inl bad ↦ cc
    | inr (stored, fits) ↦ elim (Option-cases (d.uuid id)) [
      | inl bad ↦ ground arith
      | inr (key, is_uuid) ↦
          let done : record db { accounts = map (balance_to key stored) db.accounts } ≡ db' =
            ground arith in
          subst IsValid done (
            v.0,
            ValidAccounts-map (balance_to key stored) db.accounts db.users db.next_account
                (λ a. (ground arith, ground arith, ground arith, ground arith)) v.1,
          )
    ]
  ]
