-- ===== src/Store/Accounts/Updating.antt =====
-- What the transaction function of UpdateAccount in app/store/store.go has written when it returns.
pub mod Changing
use mathlib.Core.List.{Memᴰ as Member}
use mathlib.Core.Path.{subst}
use mathlib.Core.Option.{some-injective}
use dbank.Prelude.Member.{Member-select}
use dbank.Prelude.{
  ℕ, ◌≡◌, sym, ◌∙◌, String, Bool, true, false, not, ◌&&◌, ◌||◌, none, some, List, [], ◌∷◌, eqb,
  ◌==◌, if◌then◌else◌, Option-cases, Bool-cases, ap, arith, select, ◌⊎◌, inl, inr,
}
use dbank.Prelude.Int.{ℤ}
use dbank.Status.{⊤, Result, ok, err, pure}
use dbank.Sql.{
  Driver, Database, World, User, Account, row, lost, tick, users, accounts, Reply, knows, of_table,
}
use dbank.Sql.Steps.{>>=-eq-ok, statement-eq-ok}
use dbank.Tx.{run_in_tx}
use dbank.Tx.Atomic.{AllOrNothing, run_in_tx-AllOrNothing}
use dbank.Store.Requests.{Float64, AccountDetails, UpdateAccountRequest}
use dbank.Store.Queries.{any, first, details, join, find_updated}
use dbank.Store.Updates.{update_users, update_accounts, set_user_names, set_password}
use dbank.Store.Inserts.{set_account}
use dbank.Store.Accounts.{
  internal_error, user_pk_of, update_user, update_password, update_details, updated_details,
  update_body, update_account, details_columns,
}
use dbank.Store.Accounts.Lookup.{DeliversOnly, first-eq-row, join-Member}
use dbank.Store.Accounts.Deleting.{find_user_pk-user, user_pk_of-effect}
use dbank.Store.Validity.{has_user}

module _ {F : Type 0} (fl : Float64 F) (d : Driver) (now : ℕ) (req : UpdateAccountRequest F) where
  abbrev renamed : User → User
  renamed u = record u { username = req.username; email = req.email; updated_at = now }

  -- The password stays where the request has none.
  abbrev passworded : ℕ → List User → List User
  passworded pk us =
      if req.password == ""
      then us
      else update_users pk (λ u. record u { password = req.password }) us

  abbrev pub revised : ℤ → Account → Account
  revised stored a = record a {
    account_name = req.account_name;
    account_type = req.account_type;
    balance = stored;
    currency = req.currency;
    status = req.status;
    updated_at = now;
  }

  -- The three writes, one after another.
  abbrev named : ℕ → Database → Database
  named pk db = record db { users = update_users pk renamed db.users }

  abbrev secured : ℕ → Database → Database
  secured pk db = record db { users = passworded pk db.users }

  abbrev changed : ℕ → ℤ → Database → Database
  changed pk stored db = record db { accounts = update_accounts pk (revised stored) db.accounts }

  -- The row of one user, and the rows of its accounts, have the data of the request; the answer is
  -- read from them.
  pub record Revised (before after : Database) (answer : AccountDetails F) : Type 0 where
    pub key : String
    pub user : User
    pub stored : ℤ
    pub key_is : d.uuid req.id ≡ some key
    pub user_is : Member user before.users
    pub found : user.id ≡ key
    pub stored_is : fl.bind req.balance ≡ some stored
    pub after_is : after ≡ changed user.pk stored (secured user.pk (named user.pk before))
    pub answer_user : User
    pub answer_account : Account
    pub answer_user_is : Member answer_user after.users
    pub answer_account_is : Member answer_account after.accounts
    pub same_user : answer_user.pk ≡ user.pk
    pub owner : answer_account.user_pk ≡ answer_user.pk
    pub answer_is : answer ≡ details fl d (answer_user, answer_account)

  update_user-effect :
      (pk : ℕ) (w w' : World) {u : ⊤}
      → update_user fl d now pk req w ≡ (ok u, w')
      → w'.db ≡ named pk w.db
  unfolding update_user set_user_names
  update_user-effect pk w w' h =
      let effect =
        (statement-eq-ok d _ _ _ _ (set_user_names now pk req.username req.email) w w' h).2 in
      ground arith

  update_password-effect :
      (pk : ℕ) (w w' : World) {u : ⊤}
      → update_password d pk req.password w ≡ (ok u, w')
      → w'.db ≡ secured pk w.db
  unfolding update_password set_password
  update_password-effect pk w w' {u} h = elim (Bool-cases (req.password == "")) [
    | inl e ↦
        let h' : ◌≡◌ {A = Result ⊤ × World} (pure tt w) (ok u, w') = rw (e, update_password) at h in
        rw e (ap (λ p. p.1.db) (sym h'))
    | inr e ↦
        let h' = rw (e, update_password) at h in
        let effect = (statement-eq-ok d _ _ _ _ (set_password pk req.password) w w' h').2 in
        rw e (ap (λ p. p.1) (sym (some-injective _ _ effect)))
  ]

  update_details-effect :
      (pk : ℕ) (w w' : World) {u : ⊤}
      → update_details fl d now pk req w ≡ (ok u, w')
      → (stored : ℤ) × (fl.bind req.balance ≡ some stored) × (w'.db ≡ changed pk stored w.db)
  unfolding update_details set_account
  update_details-effect pk w w' h =
      let effect = (statement-eq-ok d _ _ _ _ (set_account fl d now pk req) w w' h).2 in
      elim (Option-cases (fl.bind req.balance)) [
        | inl e ↦ absurd (ground arith)
        | inr (stored, e) ↦ (stored, e, ground arith)
      ]

  updated_details-effect :
      (pk : ℕ) (w w' : World) {answer : AccountDetails F}
      → DeliversOnly d
      → updated_details fl d pk w ≡ (ok answer, w')
      → (w'.db ≡ w.db)
        × (u : User) × (a : Account) × Member u w.db.users
        × Member a w.db.accounts
        × (u.pk ≡ pk)
        × (a.user_pk ≡ u.pk)
        × (answer ≡ details fl d (u, a))
  unfolding updated_details find_updated
  updated_details-effect pk w w' {answer} only h =
      let effect = (statement-eq-ok d _ _ _ _ (find_updated fl d pk) w w' h).2 in
      let matches = λ (r : User × Account). eqb r.0.pk pk in
      let rows = select matches (join w.db.users w.db.accounts) in
      let same : ◌≡◌ {A = Reply (AccountDetails F) × Database}
          (first (details fl d) (d.order rows), w.db) (row answer, w'.db) =
        some-injective _ _ effect in
      let (r, m, q) = first-eq-row (details fl d) (d.order rows) (ap (λ p. p.0) same) in
      let (t, m') = Member-select matches (join w.db.users w.db.accounts) (only r rows m) in
      let (own, mu, ma) = join-Member w.db.users w.db.accounts m' in
      (sym (ap (λ p. p.1) same), r.0, r.1, mu, ma, ground arith, own, sym q)

  three_writes :
      (pk n : ℕ) (stored : ℤ) (before db₁ db₂ db₃ db₄ after : Database)
      → db₁ ≡ before
      → db₂ ≡ named n db₁
      → db₃ ≡ secured n db₂
      → db₄ ≡ changed n stored db₃
      → after ≡ db₄
      → pk ≡ n
      → after ≡ changed pk stored (secured pk (named pk before))
  three_writes pk n stored before db₁ db₂ db₃ db₄ after start e₂ e₃ e₄ last same =
      last
      ∙ e₄
      ∙ ap (changed n stored) (e₃ ∙ ap (secured n) (e₂ ∙ ap (named n) start))
      ∙ ap (λ k. changed k stored (secured k (named k before))) (sym same)

  pub update_body-Revised :
      (w w' : World) {answer : AccountDetails F}
      → DeliversOnly d
      → update_body fl d now req w ≡ (ok answer, w')
      → Revised w.db w'.db answer
  unfolding update_body
  update_body-Revised w w' only h =
      let (pk, w₁, e₁, h₁) = >>=-eq-ok (user_pk_of d req.id) _ w w' h in
      let (_, w₂, e₂, h₂) = >>=-eq-ok (update_user fl d now pk req) _ w₁ w' h₁ in
      let (_, w₃, e₃, h₃) = >>=-eq-ok (update_password d pk req.password) _ w₂ w' h₂ in
      let (_, w₄, e₄, h₄) = >>=-eq-ok (update_details fl d now pk req) _ w₃ w' h₃ in
      let (key, user, k, m, f, p, start) =
        find_user_pk-user d now req.id w.db w₁.db (user_pk_of-effect d now req.id w w₁ e₁) in
      let renames = update_user-effect pk w₁ w₂ e₂ in
      let secret = update_password-effect pk w₂ w₃ e₃ in
      let (stored, fits, change) = update_details-effect pk w₃ w₄ e₄ in
      let (last, u, a, mu, ma, pk_is, own, read) = updated_details-effect pk w₄ w' only h₄ in
      record {
        key = key;
        user = user;
        stored = stored;
        key_is = k;
        user_is = m;
        found = f;
        stored_is = fits;
        after_is =
            three_writes user.pk pk stored w.db w₁.db w₂.db w₃.db w₄.db w'.db start renames secret
              change last p;
        answer_user = u;
        answer_account = a;
        answer_user_is = subst (λ db. Member u db.users) (sym last) mu;
        answer_account_is = subst (λ db. Member a db.accounts) (sym last) ma;
        same_user = pk_is ∙ sym p;
        owner = own;
        answer_is = read;
      }
