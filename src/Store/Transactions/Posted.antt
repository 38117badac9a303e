-- ===== src/Store/Transactions/Posted.antt =====
-- What CreateTransaction of app/store/store.go has written when it returns.
use dbank.Prelude.{
  refl, true, ℕ, String, ◌≡◌, inl, inr, some, [], ◌∷◌, ◌++◌, map, ap, arith, Option-cases,
}
use mathlib.Core.Path.{subst}
use dbank.Prelude.Int.{ℤ}
use dbank.Status.{⊤, ok, status, not_found}
use dbank.Sql.{Driver, Database, World, row}
use dbank.Sql.Steps.{>>=-eq-ok, statement-eq-ok}
use dbank.Store.Requests.{TransactionRequest}
use dbank.Store.Updates.{balance_to, set_balance, transaction_row, insert_transaction}
use dbank.Store.Transactions.{
  build_error, execute_error, knows_balance, knows_transaction, update_balance, record_transaction,
  transaction_body,
}

module _ (d : Driver) where
  -- One UPDATE of a balance: the key and the value that it found, and the tables after it.
  pub record Updated (id : String) (v : ℤ) (before after : Database) : Type 0 where
    pub key : String
    pub stored : ℤ
    pub key_is : d.uuid id ≡ some key
    pub stored_is : d.numeric v ≡ some stored
    pub after_is : after ≡ record before { accounts = map (balance_to key stored) before.accounts }

  set_balance-Updated :
      (id : String) (v : ℤ) (db db' : Database)
      → set_balance d id v db ≡ some (row tt, db')
      → Updated id v db db'
  unfolding set_balance
  set_balance-Updated id v db db' h = elim (Option-cases (d.numeric v)) [
    | inl e ↦ absurd (ground arith)
    | inr (n, e) ↦ elim (Option-cases (d.uuid id)) [
      | inl e' ↦ absurd (ground arith)
      | inr (k, e') ↦ record {
        key = k;
        stored = n;
        key_is = e';
        stored_is = e;
        after_is = ground arith;
      }
    ]
  ]

  update_balance-Updated :
      (id : String) (v : ℤ) (w w' : World) {u : ⊤}
      → update_balance d id v w ≡ (ok u, w')
      → Updated id v w.db w'.db
  unfolding update_balance
  update_balance-Updated id v w w' h =
      set_balance-Updated id v w.db w'.db
        (statement-eq-ok d build_error execute_error execute_error (knows_balance d)
          (set_balance d id v) w w' h).2

  -- The INSERT of the transaction: the row that it appends.
  pub record Recorded (now : ℕ) (req : TransactionRequest) (before after : Database) : Type 0 where
    pub id : String
    pub stored : ℤ
    pub call : ℕ
    pub number : ℕ
    pub known : knows_transaction d ≡ true
    pub id_is : id ≡ d.new_id call
    pub read_back : d.to_int id ≡ some number
    pub stored_is : d.numeric req.amount ≡ some stored
    pub after_is : after ≡ record before {
      transactions = before.transactions ++ transaction_row now req id stored ∷ [];
    }

  insert_transaction-Recorded :
      (now n : ℕ) (req : TransactionRequest) (db db' : Database) {k : ℕ}
      → knows_transaction d ≡ true
      → insert_transaction d now n req db ≡ some (row k, db')
      → Recorded now req db db'
  unfolding insert_transaction
  insert_transaction-Recorded now n req db db' cols h = elim (Option-cases (d.numeric req.amount)) [
    | inl e ↦ absurd (ground arith)
    | inr (v, e) ↦ elim (Option-cases (d.to_int (d.new_id n))) [
      | inl e' ↦ absurd (ground arith)
      | inr (k, e') ↦ record {
        id = d.new_id n;
        stored = v;
        call = n;
        number = k;
        known = cols;
        id_is = refl;
        read_back = e';
        stored_is = e;
        after_is = ground arith;
      }
    ]
  ]

  record_transaction-Recorded :
      (now : ℕ) (req : TransactionRequest) (w w' : World) {k : ℕ}
      → record_transaction d now req w ≡ (ok k, w')
      → Recorded now req w.db w'.db
  unfolding record_transaction
  record_transaction-Recorded now req w w' h =
      let (known, _, effect) =
        statement-eq-ok d build_error execute_error (status not_found "transaction not found")
          (knows_transaction d) (insert_transaction d now w.calls req) w w' h in
      insert_transaction-Recorded now w.calls req w.db w'.db known effect

  -- The three writes of CreateTransaction, taken together.
  pub record Posted (now : ℕ) (req : TransactionRequest) (before after : Database) : Type 0 where
    pub debited : Database
    pub credited : Database
    pub debit : Updated req.from_account_id req.from_account_balance before debited
    pub credit : Updated req.to_account_id req.to_account_balance debited credited
    pub recorded : Recorded now req credited after

  pub transaction_body-Posted :
      (now : ℕ) (req : TransactionRequest) (w w' : World) {u : ⊤}
      → transaction_body d now req w ≡ (ok u, w')
      → Posted now req w.db w'.db
  unfolding transaction_body
  transaction_body-Posted now req w w' h =
      let (_, w₁, e₁, h₁) =
        >>=-eq-ok (update_balance d req.from_account_id req.from_account_balance) _ w w' h in
      let (_, w₂, e₂, h₂) =
        >>=-eq-ok (update_balance d req.to_account_id req.to_account_balance) _ w₁ w' h₁ in
      let (_, w₃, e₃, h₃) = >>=-eq-ok (record_transaction d now req) _ w₂ w' h₂ in
      record {
        debited = w₁.db;
        credited = w₂.db;
        debit = update_balance-Updated _ _ w w₁ e₁;
        credit = update_balance-Updated _ _ w₁ w₂ e₂;
        recorded =
            subst (λ v. Recorded now req w₂.db v.db) (ap (λ p. p.1) h₃)
              (record_transaction-Recorded now req w₂ w₃ e₃);
      }
