-- ===== src/Store/Accounts/Lookup.antt =====
-- What GetAccount of app/store/store.go has found when it returns.
use mathlib.Core.List.{Memᴰ as Member}
use mathlib.Core.List.Memᴰ as Memᴰ
use mathlib.Core.Path.{subst}
use dbank.Prelude.{
  String, ◌≡◌, refl, ap, ◌∙◌, sym, inl, inr, ◌&&◌, none, some, List, [], ◌∷◌, select, eqb, ◌==◌,
  eq_iff, arith, Option-cases,
}
use mathlib.Core.Option.{some-injective}
use dbank.Prelude.Member.{Member-select}
use dbank.Status.{ok, status, not_found}
use dbank.Sql.{User, Account, Database, Driver, World, Reply, row, knows, statement, checked}
use dbank.Sql.Steps.{statement-eq-ok}
use dbank.Store.Requests.{Float64, AccountDetails}
use dbank.Store.Queries.{first, join, accounts_of, is_live, details, find_account}
use dbank.Store.Accounts.{get_account, internal_error, live_columns}

-- A query delivers no row that is not in its result, in whatever order it delivers them.
abbrev pub DeliversOnly : Driver → Type 0
DeliversOnly d =
    (r : User × Account) (rows : List (User × Account)) → Member r (d.order rows) → Member r rows

accounts_of-Member :
    (u : User) {r : User × Account} (accs : List Account)
    → Member r (accounts_of u accs)
    → (r.0 ≡ u) × (r.1.user_pk ≡ u.pk) × Member r.1 accs
accounts_of-Member u {r} accs m =
    let (a, m', e) = Memᴰ.of_map (λ a. (u, a)) (select (λ a. eqb a.user_pk u.pk) accs) m in
    let (h, m'') = Member-select (λ a. eqb a.user_pk u.pk) accs m' in
    (
      ap (λ p. p.0) (sym e),
      subst (λ (b : Account). b.user_pk ≡ u.pk) (ap (λ p. p.1) e) (ground arith),
      subst (λ b. Member b accs) (ap (λ p. p.1) e) m'',
    )

pub join-Member :
    {r : User × Account} (us : List User) (accs : List Account)
    → Member r (join us accs)
    → (r.1.user_pk ≡ r.0.pk) × Member r.0 us × Member r.1 accs
join-Member [] accs m = elim m [ ]
join-Member {r} (u ∷ us) accs m = elim (Memᴰ.append_cases (accounts_of u accs) m) [
  | inl here ↦
      let (e, k, m') = accounts_of-Member u accs here in
      (k ∙ ap (λ v. v.pk) (sym e), Member.head e, m')
  | inr there ↦ let (k, m₀, m₁) = join-Member us accs there in (k, Member.tail m₀, m₁)
]

pub first-eq-row :
    {A B : Type 0} (f : A → B) (xs : List A) {b : B}
    → first f xs ≡ row b
    → (a : A) × Member a xs × (f a ≡ b)
first-eq-row f [] h = absurd (ground arith)
first-eq-row f (x ∷ xs) h = (x, Member.head refl, ground arith)

module _ {F : Type 0} (fl : Float64 F) (d : Driver) where
  -- The rows behind an answer of GetAccount: a live user with the id asked for, and a live account
  -- of that user.
  pub record Answers (id : String) (db : Database) (answer : AccountDetails F) : Type 0 where
    pub key : String
    pub user : User
    pub account : Account
    pub key_is : d.uuid id ≡ some key
    pub user_is : Member user db.users
    pub account_is : Member account db.accounts
    pub owner : account.user_pk ≡ user.pk
    pub found : user.id ≡ key
    pub user_live : user.deleted_at ≡ none
    pub account_live : account.deleted_at ≡ none
    pub answer_is : answer ≡ details fl d (user, account)

  find_account-Answers :
      (id : String) (db db' : Database) {answer : AccountDetails F}
      → DeliversOnly d
      → find_account fl d id db ≡ some (row answer, db')
      → Answers id db answer × (db' ≡ db)
  unfolding find_account
  find_account-Answers id db db' {answer} only h = elim (Option-cases (d.uuid id)) [
    | inl e ↦ absurd (ground arith)
    | inr (key, e) ↦
        let matches = λ (r : User × Account). r.0.id == key && is_live r in
        let rows = select matches (join db.users db.accounts) in
        let same : ◌≡◌ {A = Reply (AccountDetails F) × Database}
            (first (details fl d) (d.order rows), db) (row answer, db') =
          some-injective _ _ (rw (e, find_account) at h) in
        let (r, m, q) = first-eq-row (details fl d) (d.order rows) (ap (λ p. p.0) same) in
        let (t, m') = Member-select matches (join db.users db.accounts) (only r rows m) in
        let (own, mu, ma) = join-Member db.users db.accounts m' in
        (
          record {
            key = key;
            user = r.0;
            account = r.1;
            key_is = e;
            user_is = mu;
            account_is = ma;
            owner = own;
            found = ground (arith, eq_iff r.0.id key);
            user_live = ground arith;
            account_live = ground arith;
            answer_is = sym q;
          },
          sym (ap (λ p. p.1) same),
        )
  ]

  -- A lookup that returns answers with an undeleted user of the given id and one of that user's
  -- undeleted accounts, and changes no table. The condition is that a query delivers only its own
  -- rows.
  pub get_account-Answers :
      (id : String) (w w' : World) {answer : AccountDetails F}
      → DeliversOnly d
      → get_account fl d id w ≡ (ok answer, w')
      → Answers id w.db answer × (w'.db ≡ w.db)
  unfolding get_account
  get_account-Answers id w w' only h =
      find_account-Answers id w.db w'.db only
        (statement-eq-ok d (internal_error "failed to build SQL query")
          (internal_error "failed to query account") (status not_found "account not found")
          (knows d live_columns) (find_account fl d id) w w' h).2

  -- Whatever it answers, GetAccount writes nothing.
  pub get_account-reads : (id : String) (w : World) → (get_account fl d id w).1.db ≡ w.db
  unfolding get_account statement checked find_account
  get_account-reads id w = ground arith
