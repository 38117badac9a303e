-- ===== src/Store/Accounts/Creating.antt =====
-- How CreateAccount of app/store/store.go ends.
use mathlib.Core.Path.{subst}
use dbank.Prelude.{
  ℕ, ◌+◌, ◌≡◌, sym, String, false, ◌||◌, none, some, [], ◌∷◌, ◌++◌, ◌==◌, Option-cases, ◌⊎◌, inl,
  inr, arith,
}
use dbank.Prelude.Int.{ℤ}
use dbank.Status.{⊤, Result, ok, err}
use dbank.Sql.{Driver, Database, World, User, Account, row, lost, tick}
use dbank.Sql.Steps.{>>=-eq-ok, statement-eq-ok}
use dbank.Tx.{run_in_tx}
use dbank.Tx.Atomic.{AllOrNothing, run_in_tx-AllOrNothing}
use dbank.Store.Requests.{Float64, CreateUserRequest}
use dbank.Store.Queries.{any}
use dbank.Store.Inserts.{insert_user, insert_account}
use dbank.Store.Accounts.{
  internal_error, knows_user, knows_account, add_user, add_account, create_body, create_account,
}

module _ {F : Type 0} (fl : Float64 F) (d : Driver) (now : ℕ) (req : CreateUserRequest F) where
  -- The user that a request describes, and its account.
  abbrev pub new_user_row : ℕ → String → User
  new_user_row pk key = record {
    pk = pk;
    id = key;
    username = req.username;
    email = req.email;
    password = req.password;
    created_at = now;
    updated_at = now;
    deleted_at = none;
  }

  abbrev pub new_account_row : ℕ → ℕ → String → ℤ → Account
  new_account_row pk user_pk key stored = record {
    pk = pk;
    id = key;
    user_pk = user_pk;
    account_type = req.account_type;
    account_number = req.account_number;
    balance = stored;
    currency = req.currency;
    status = req.status;
    account_name = req.account_name;
    created_at = now;
    updated_at = now;
    deleted_at = none;
  }

  abbrev with_user : String → Database → Database
  with_user key db = record db {
    users = db.users ++ new_user_row db.next_user key ∷ [];
    next_user = db.next_user + 1;
  }

  -- One user and one account, of that user, have been appended, and no other row has their keys.
  pub record Created (before after : Database) : Type 0 where
    pub user_key : String
    pub account_key : String
    pub stored : ℤ
    pub user_key_is : d.uuid req.id ≡ some user_key
    pub account_key_is : d.uuid req.account_id ≡ some account_key
    pub stored_is : fl.bind req.balance ≡ some stored
    pub user_fresh :
        any
          (λ u. u.id == user_key || u.username == req.username || u.email == req.email)
          before.users
        ≡ false
    pub account_fresh :
        any (λ a. a.id == account_key || a.account_number == req.account_number) before.accounts
        ≡ false
    pub after_is : after ≡ record before {
      users = before.users ++ new_user_row before.next_user user_key ∷ [];
      accounts =
          before.accounts
          ++ new_account_row before.next_account before.next_user account_key stored ∷ [];
      next_user = before.next_user + 1;
      next_account = before.next_account + 1;
    }

  insert_user-Inserted :
      (db db' : Database) {pk : ℕ}
      → insert_user fl d now req db ≡ some (row pk, db')
      → (key : String) × (d.uuid req.id ≡ some key)
        × (any (λ u. u.id == key || u.username == req.username || u.email == req.email) db.users
            ≡ false)
        × (pk ≡ db.next_user)
        × (db' ≡ with_user key db)
  unfolding insert_user
  insert_user-Inserted db db' h = elim (Option-cases (d.uuid req.id)) [
    | inl e ↦ absurd (ground arith)
    | inr (key, e) ↦ (key, e, ground arith, ground arith, ground arith)
  ]

  insert_account-Inserted :
      (pk : ℕ) (db db' : Database) {u : ⊤}
      → insert_account fl d now req pk db ≡ some (row u, db')
      → (key : String) × (stored : ℤ) × (d.uuid req.account_id ≡ some key)
        × (fl.bind req.balance ≡ some stored)
        × (any (λ a. a.id == key || a.account_number == req.account_number) db.accounts ≡ false)
        × (db' ≡ record db {
          accounts = db.accounts ++ new_account_row db.next_account pk key stored ∷ [];
          next_account = db.next_account + 1;
        })
  unfolding insert_account
  insert_account-Inserted pk db db' h = elim (Option-cases (d.uuid req.account_id)) [
    | inl e ↦ absurd (ground arith)
    | inr (key, e) ↦ elim (Option-cases (fl.bind req.balance)) [
      | inl e' ↦ absurd (ground arith)
      | inr (stored, e') ↦ (key, stored, e, e', ground arith, ground arith)
    ]
  ]

  Inserted-Created :
      (db db₁ db' : Database) (key : String) {pk : ℕ} {u : ⊤}
      → d.uuid req.id ≡ some key
      → (any (λ u. u.id == key || u.username == req.username || u.email == req.email) db.users
          ≡ false)
      → pk ≡ db.next_user
      → db₁ ≡ with_user key db
      → insert_account fl d now req pk db₁ ≡ some (row u, db')
      → Created db db'
  Inserted-Created db db₁ db' key {pk} {u} key_is fresh pk_is grown h =
      let (account_key, stored, k, s, unused, after) =
        insert_account-Inserted db.next_user (with_user key db) db' (
          subst (λ n. insert_account fl d now req n (with_user key db) ≡ some (row u, db')) pk_is
            (subst (λ x. insert_account fl d now req pk x ≡ some (row u, db')) grown h)) in
      record {
        user_key = key;
        account_key = account_key;
        stored = stored;
        user_key_is = key_is;
        account_key_is = k;
        stored_is = s;
        user_fresh = fresh;
        account_fresh = unused;
        after_is = after;
      }

  add_user-effect :
      (w w' : World) {pk : ℕ}
      → add_user fl d now req w ≡ (ok pk, w')
      → insert_user fl d now req w.db ≡ some (row pk, w'.db)
  unfolding add_user
  add_user-effect w w' h =
      (statement-eq-ok d (internal_error "failed to build SQL query")
        (internal_error "failed to execute SQL query")
        (internal_error "failed to execute SQL query") (knows_user d) (insert_user fl d now req) w
        w' h).2

  add_account-effect :
      (pk : ℕ) (w w' : World) {u : ⊤}
      → add_account fl d now req pk w ≡ (ok u, w')
      → insert_account fl d now req pk w.db ≡ some (row u, w'.db)
  unfolding add_account
  add_account-effect pk w w' h =
      (statement-eq-ok d (internal_error "failed to build SQL query")
        (internal_error "failed to execute SQL query")
        (internal_error "failed to execute SQL query") (knows_account d)
        (insert_account fl d now req pk) w w' h).2

  create_body-Created :
      (w w' : World) {u : ⊤} → create_body fl d now req w ≡ (ok u, w') → Created w.db w'.db
  unfolding create_body
  create_body-Created w w' h =
      let (pk, w₁, e₁, h₁) = >>=-eq-ok (add_user fl d now req) _ w w' h in
      let (key, key_is, fresh, pk_is, grown) =
        insert_user-Inserted w.db w₁.db (add_user-effect w w₁ e₁) in
      Inserted-Created w.db w₁.db w'.db key key_is fresh pk_is grown
        (add_account-effect pk w₁ w' h₁)

module _ {F : Type 0} (fl : Float64 F) (d : Driver) (req : CreateUserRequest F) (w : World) where
  -- What a call that began at `w` has done, by its result.
  abbrev pub Opened : Result ⊤ × World → Type 0
  Opened (ok _, w') = Created fl d (d.clock w.calls) req w.db w'.db
  Opened (err _, w') =
      (w'.db ≡ w.db)
      ⊎ (((n : ℕ) × (d.commit n ≡ lost)) × Created fl d (d.clock w.calls) req w.db w'.db)

  abbrev body : World → Result ⊤ × World
  body = create_body fl d (d.clock w.calls) req

  body-Created :
      (a : ⊤) (w' : World)
      → (body (tick w)).0 ≡ ok a
      → w'.db ≡ (body (tick w)).1.db
      → Created fl d (d.clock w.calls) req w.db w'.db
  body-Created a w' e h =
      subst (λ db. Created fl d (d.clock w.calls) req w.db db) (sym h)
        (create_body-Created fl d (d.clock w.calls) req (tick w) (body (tick w)).1
          (λ i. (e i, (body (tick w)).1)))

  open_account : (r : Result ⊤) (w' : World) → AllOrNothing d body w (r, w') → Opened (r, w')
  open_account (ok a) w' (e, h, _) = body-Created a w' e h
  open_account (err x) w' (inl same) = inl same
  open_account (err x) w' (inr (a, e, h, gone, _)) =
      inr (((body (tick w)).1.calls, gone), body-Created a w' e h)

  -- A call that returns has appended one user and one account of that user, under keys that were
  -- free, and nothing else. One that fails has written nothing, unless the reply to its commit was
  -- lost, in which case it has appended both.
  pub create_account-Opened : Opened (create_account fl d req w)
  unfolding create_account
  create_account-Opened =
      let (r, w') = run_in_tx d body w in open_account r w' (run_in_tx-AllOrNothing d body w)
