-- ===== src/Store/Validity/Operations.antt =====
-- The constraints under a statement, a transaction, DeleteAccount, CreateTransaction and
-- GetTransaction, whether they return or fail.
use dbank.Prelude.{ℕ, String, Bool, ◌≡◌, sym, subst, Option-cases, ◌⊎◌, inl, inr, arith}
use dbank.Prelude.Int.{ℤ}
use dbank.Status.{Error, Exec}
use dbank.Status.Keeps.{Keeps, >>=-Keeps}
use dbank.Sql.{Driver, World, statement, checked, tick}
use dbank.Tx.{run_in_tx}
use dbank.Store.Requests.{TransactionRequest}
use dbank.Store.Queries.{Effect}
use dbank.Store.Queries.{find_user_pk, find_transaction}
use dbank.Store.Updates.{delete_accounts, delete_user, set_balance, insert_transaction}
use dbank.Store.Accounts.{user_pk_of, remove_accounts, remove_user, delete_body, delete_account}
use dbank.Store.Transactions.{
  update_balance, record_transaction, transaction_body, create_transaction, get_transaction,
}
use dbank.Store.Validity.Writes.{delete_user-Preserves, delete_accounts-Preserves}
use dbank.Store.Validity.Effects.{
  find_user_pk-Preserves, find_transaction-Preserves, insert_transaction-Preserves,
  set_balance-Preserves,
}
use dbank.Store.Validity.{Sound, IsValid}
use dbank.Store.Validity.Effects.{Preserves}

module _ (d : Driver) where
  pub checked-Keeps :
      {A : Type 0} (u f n : Error) (known : Bool) (effect : Effect A)
      → Preserves effect
      → Keeps Sound (checked u f n (statement d known effect))
  unfolding statement checked
  checked-Keeps u f n known effect p w v = elim (Option-cases (effect w.db)) [
    | inl fails ↦
        let same : (statement d known effect w).1.db ≡ w.db = ground arith in
        subst IsValid (sym same) v
    | inr ((r, db'), e) ↦
        let ends : ((statement d known effect w).1.db ≡ w.db)
            ⊎ ((statement d known effect w).1.db ≡ db') =
          ground arith in
        elim ends [
          | inl same ↦ subst IsValid (sym same) v
          | inr done ↦ subst IsValid (sym done) (p w.db db' r v e)
        ]
  ]

  pub run_in_tx-Keeps :
      {A : Type 0} (fn : Exec World A) → Keeps Sound fn → Keeps Sound (run_in_tx d fn)
  unfolding run_in_tx
  run_in_tx-Keeps fn k w v =
      let ends : ((run_in_tx d fn w).1.db ≡ w.db) ⊎ ((run_in_tx d fn w).1.db ≡ (fn (tick w)).1.db) =
        ground arith in
      elim ends [
        | inl same ↦ subst IsValid (sym same) v
        | inr done ↦ subst IsValid (sym done) (k (tick w) v)
      ]

  pub user_pk_of-Keeps : (id : String) → Keeps Sound (user_pk_of d id)
  unfolding user_pk_of
  user_pk_of-Keeps id = checked-Keeps _ _ _ _ (find_user_pk d id) (find_user_pk-Preserves d id)

  remove_accounts-Keeps : (now pk : ℕ) → Keeps Sound (remove_accounts d now pk)
  unfolding remove_accounts
  remove_accounts-Keeps now pk =
      checked-Keeps _ _ _ _ (delete_accounts now pk) (delete_accounts-Preserves now pk)

  remove_user-Keeps : (now pk : ℕ) → Keeps Sound (remove_user d now pk)
  unfolding remove_user
  remove_user-Keeps now pk =
      checked-Keeps _ _ _ _ (delete_user now pk) (delete_user-Preserves now pk)

  pub delete_account-Keeps : (id : String) → Keeps Sound (delete_account d id)
  unfolding delete_account delete_body
  delete_account-Keeps id w =
      run_in_tx-Keeps (delete_body d (d.clock w.calls) id)
        (>>=-Keeps Sound (user_pk_of d id) _ (user_pk_of-Keeps id) (λ pk.
          >>=-Keeps Sound (remove_accounts d (d.clock w.calls) pk) _
            (remove_accounts-Keeps (d.clock w.calls) pk)
            (λ _. remove_user-Keeps (d.clock w.calls) pk)))
        w

  update_balance-Keeps : (id : String) (b : ℤ) → Keeps Sound (update_balance d id b)
  unfolding update_balance
  update_balance-Keeps id b =
      checked-Keeps _ _ _ _ (set_balance d id b) (set_balance-Preserves d id b)

  record_transaction-Keeps :
      (now : ℕ) (req : TransactionRequest) → Keeps Sound (record_transaction d now req)
  unfolding record_transaction
  record_transaction-Keeps now req w =
      checked-Keeps _ _ _ _ (insert_transaction d now w.calls req)
        (insert_transaction-Preserves d now w.calls req) w

  transaction_body-Keeps :
      (now : ℕ) (req : TransactionRequest) → Keeps Sound (transaction_body d now req)
  unfolding transaction_body
  transaction_body-Keeps now req =
      >>=-Keeps Sound (update_balance d req.from_account_id req.from_account_balance) _
        (update_balance-Keeps req.from_account_id req.from_account_balance)
        (λ _.
          >>=-Keeps Sound (update_balance d req.to_account_id req.to_account_balance) _
            (update_balance-Keeps req.to_account_id req.to_account_balance)
            (λ _.
              >>=-Keeps Sound (record_transaction d now req) _ (record_transaction-Keeps now req)
                (λ _ w v. v)))

  pub create_transaction-Keeps :
      (req : TransactionRequest) (w : World) → Sound w → Sound (create_transaction d req w).2
  unfolding create_transaction
  create_transaction-Keeps req w =
      run_in_tx-Keeps (transaction_body d (d.clock w.calls) req)
        (transaction_body-Keeps (d.clock w.calls) req) w

  pub get_transaction-Keeps : (id : String) → Keeps Sound (get_transaction d id)
  unfolding get_transaction
  get_transaction-Keeps id =
      checked-Keeps _ _ _ _ (find_transaction d id) (find_transaction-Preserves d id)
