-- ===== src/Store/Accounts/Deleting.antt =====
-- What DeleteAccount of app/store/store.go leaves for GetAccount.
use mathlib.Core.List.{Memᴰ as Member}
use mathlib.Core.List.Memᴰ as Memᴰ
use mathlib.Core.Path.{subst}
use mathlib.Core.Option.{some-injective}
use dbank.Prelude.Member.{Member-select}
use dbank.Prelude.{
  ℕ, ◌≡◌, ◌≢◌, sym, ◌∙◌, String, false, ◌&&◌, none, some, List, [], ◌∷◌, eqb, eq_iff, ◌==◌,
  if◌then◌else◌, Option-cases, Bool-cases, ap, arith, select, inl, inr,
}
use dbank.Status.{⊤, ok, status, not_found}
use dbank.Sql.{Driver, Database, World, User, row, tick, users, accounts, Reply, knows, of_table}
use dbank.Sql.Steps.{>>=-eq-ok, statement-eq-ok}
use dbank.Tx.Atomic.{AllOrNothing, run_in_tx-AllOrNothing}
use dbank.Store.Requests.{Float64, AccountDetails}
use dbank.Store.Queries.{first, find_user_pk, is_null}
use dbank.Store.Updates.{update_users, delete_accounts, delete_user}
use dbank.Store.Accounts.{
  internal_error, user_pk_of, remove_accounts, remove_user, delete_body, delete_account,
  get_account,
}
use dbank.Store.Accounts.Lookup.{DeliversOnly, Answers, get_account-Answers, first-eq-row}

-- A user is known by its id: the id column is UNIQUE.
abbrev pub IdsUnique : List User → Type 0
IdsUnique us = (u v : User) → Member u us → Member v us → u.id ≡ v.id → u.pk ≡ v.pk

module _ (d : Driver) (now : ℕ) (id : String) where
  -- The user that DeleteAccount finds, and the users after it.
  record Removed (before after : Database) : Type 0 where
    key : String
    user : User
    key_is : d.uuid id ≡ some key
    user_is : Member user before.users
    found : user.id ≡ key
    users_are :
        after.users ≡ update_users user.pk (λ u. record u { deleted_at = some now }) before.users

  pub find_user_pk-user :
      (db db' : Database) {pk : ℕ}
      → find_user_pk d id db ≡ some (row pk, db')
      → (key : String) × (u : User) × (d.uuid id ≡ some key)
        × Member u db.users
        × (u.id ≡ key)
        × (u.pk ≡ pk)
        × (db' ≡ db)
  unfolding find_user_pk
  find_user_pk-user db db' {pk} h = elim (Option-cases (d.uuid id)) [
    | inl e ↦ absurd (ground arith)
    | inr (key, e) ↦
        let matches = λ (u : User). u.id == key && is_null u.deleted_at in
        let same : ◌≡◌ {A = Reply ℕ × Database}
            (first (λ (u : User). u.pk) (select matches db.users), db) (row pk, db') =
          some-injective _ _ (rw (e, find_user_pk) at h) in
        let (u, m, q) =
          first-eq-row (λ (u : User). u.pk) (select matches db.users) (ap (λ p. p.0) same) in
        let (t, m') = Member-select matches db.users m in
        (key, u, e, m', ground (arith, eq_iff u.id key), q, sym (ap (λ p. p.1) same))
  ]

  pub user_pk_of-effect :
      (w w' : World) {pk : ℕ}
      → user_pk_of d id w ≡ (ok pk, w')
      → find_user_pk d id w.db ≡ some (row pk, w'.db)
  unfolding user_pk_of
  user_pk_of-effect w w' h =
      (statement-eq-ok d (internal_error "failed to build SQL query")
        (internal_error "failed to get user pk") (status not_found "user not found")
        (knows d (of_table users ("pk" ∷ "id" ∷ "deleted_at" ∷ []))) (find_user_pk d id) w w' h).2

  users-remove_accounts :
      (pk : ℕ) (w w' : World) {u : ⊤}
      → remove_accounts d now pk w ≡ (ok u, w')
      → w'.db.users ≡ w.db.users
  unfolding remove_accounts delete_accounts
  users-remove_accounts pk w w' h =
      let effect =
        (statement-eq-ok d (internal_error "failed to build account delete SQL")
          (internal_error "failed to delete account") (internal_error "failed to delete account")
          (knows d (of_table accounts ("deleted_at" ∷ "user_pk" ∷ []))) (delete_accounts now pk) w
          w' h).2 in
      ap (λ p. p.1.users) (sym (some-injective _ _ effect))

  users-remove_user :
      (pk : ℕ) (w w' : World) {u : ⊤}
      → remove_user d now pk w ≡ (ok u, w')
      → w'.db.users ≡ update_users pk (λ u. record u { deleted_at = some now }) w.db.users
  unfolding remove_user delete_user
  users-remove_user pk w w' h =
      let effect =
        (statement-eq-ok d (internal_error "failed to build user delete SQL")
          (internal_error "failed to delete user") (internal_error "failed to delete user")
          (knows d (of_table users ("deleted_at" ∷ "pk" ∷ []))) (delete_user now pk) w w' h).2 in
      ap (λ p. p.1.users) (sym (some-injective _ _ effect))

  delete_body-Removed :
      (w w' : World) {u : ⊤} → delete_body d now id w ≡ (ok u, w') → Removed w.db w'.db
  unfolding delete_body
  delete_body-Removed w w' h =
      let (pk, w₁, e₁, h₁) = >>=-eq-ok (user_pk_of d id) _ w w' h in
      let (_, w₂, e₂, h₂) = >>=-eq-ok (remove_accounts d now pk) _ w₁ w' h₁ in
      let (key, user, k, m, f, p, same) =
        find_user_pk-user w.db w₁.db (user_pk_of-effect w w₁ e₁) in
      let marked = λ (n : ℕ). update_users n (λ (u : User). record u { deleted_at = some now }) in
      record {
        key = key;
        user = user;
        key_is = k;
        user_is = m;
        found = f;
        users_are =
            users-remove_user pk w₂ w' h₂
            ∙ ap (marked pk) (users-remove_accounts pk w₁ w₂ e₂ ∙ ap (λ db. db.users) same)
            ∙ ap (λ n. marked n w.db.users) (sym p);
      }

  -- A user that a deletion leaves undeleted is one it did not touch.
  Member-Removed :
      (pk : ℕ) (us : List User) (u : User)
      → u.deleted_at ≡ none
      → Member u (update_users pk (λ v. record v { deleted_at = some now }) us)
      → Member u us × (eqb u.pk pk ≡ false)
  Member-Removed pk us u alive m =
      let (v, m', e) =
        Memᴰ.of_map (λ v. if eqb v.pk pk then record v { deleted_at = some now } else v) us m in
      elim (Bool-cases (eqb v.pk pk)) [
        | inl t ↦ absurd (ground arith)
        | inr f ↦ (
          subst (λ x. Member x us) (rw f at e) m',
          subst (λ (x : User). eqb x.pk pk ≡ false) (rw f at e) f,
        )
      ]

module _ {F : Type 0} (fl : Float64 F) (d : Driver) (id : String) where
  Answers-Removed :
      (now : ℕ) (before after : Database) (answer : AccountDetails F)
      → IdsUnique before.users
      → Removed d now id before after
      → Answers fl d id after answer
      → ⊥
  Answers-Removed now before after answer unique gone found =
      let (m, other) =
        Member-Removed d now id gone.user.pk before.users found.user found.user_live
          (subst (λ us. Member found.user us) gone.users_are found.user_is) in
      let keys : gone.key ≡ found.key = some-injective _ _ (sym gone.key_is ∙ found.key_is) in
      let same =
        unique found.user gone.user m gone.user_is (found.found ∙ sym keys ∙ sym gone.found) in
      ground arith

  -- After a deletion that returns, no lookup of the same id in the tables it has left returns an
  -- account. The conditions: user ids are unique, and a query delivers only its own rows.
  pub delete_account-forgets :
      (w w₁ w₂ w₃ : World) {u : ⊤} {answer : AccountDetails F}
      → DeliversOnly d
      → IdsUnique w.db.users
      → delete_account d id w ≡ (ok u, w₁)
      → w₂.db ≡ w₁.db
      → get_account fl d id w₂ ≢ (ok answer, w₃)
  unfolding delete_account
  delete_account-forgets w w₁ w₂ w₃ {u} {answer} only unique deleted kept found =
      let body = delete_body d (d.clock w.calls) id in
      let (e, h, _) = subst (AllOrNothing d body w) deleted (run_in_tx-AllOrNothing d body w) in
      let gone =
        delete_body-Removed d (d.clock w.calls) id (tick w) (body (tick w)).1
          (λ i. (e i, (body (tick w)).1)) in
      Answers-Removed (d.clock w.calls) w.db w₂.db answer unique
        (subst (λ db. Removed d (d.clock w.calls) id w.db db) (sym h ∙ sym kept) gone)
        (get_account-Answers fl d id w₂ w₃ only found).0
