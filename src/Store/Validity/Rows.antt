-- ===== src/Store/Validity/Rows.antt =====
-- The rows under the changes that the statements make.
use dbank.Prelude.{
  ℕ, ◌+◌, ◌<◌, ◌≡◌, ◌≢◌, refl, sym, ◌∙◌, ap, ap₂, Bool, true, false, ◌||◌, eqb, ◌==◌, List, [], ◌∷◌,
  ◌++◌, map, All, eq_iff, arith, subst,
}
use dbank.Prelude.Distinct.{Distinct-append, Distinct-map, All-append, All-changed}
use dbank.Prelude.Member.{All-map}
use dbank.Sql.{User, Account}
use dbank.Store.Queries.{any}
use dbank.Store.Validity.{has_user, ValidUsers, ValidAccounts}

-- No element passes the test.
pub All-none :
    {A : Type 0} (p : A → Bool) (xs : List A) → any p xs ≡ false → All (λ x. p x ≡ false) xs
All-none p [] h = tt
All-none p (x ∷ xs) h =
    let (a, b) : (p x ≡ false) × (any p xs ≡ false) = ground arith in (a, All-none p xs b)

pub any-append :
    {A : Type 0} (p : A → Bool) (xs ys : List A) → any p xs ≡ true → any p (xs ++ ys) ≡ true
any-append p [] ys h = cc
any-append p (x ∷ xs) ys h = let rest = any-append p xs ys in ground arith

pub has_user-map :
    (f : User → User) (pk : ℕ) (us : List User)
    → ((u : User) → (f u).pk ≡ u.pk)
    → has_user pk (map f us) ≡ has_user pk us
has_user-map f pk [] same = refl
has_user-map f pk (u ∷ us) same =
    ap₂ (λ k rest. eqb k pk || rest) (same u) (has_user-map f pk us same)

-- A change that keeps the keys and the UNIQUE columns of the users.
pub ValidUsers-map :
    (f : User → User) (us : List User) (n : ℕ)
    → ((u : User)
        → ((f u).pk ≡ u.pk)
          × ((f u).id ≡ u.id)
          × ((f u).username ≡ u.username)
          × ((f u).email ≡ u.email))
    → ValidUsers us n
    → ValidUsers (map f us) n
ValidUsers-map f us n same v = record {
  drawn =
      All-changed (λ u. u.pk < n) (λ u. u.pk < n) f us
        (λ u h. subst (λ k. k < n) (sym (same u).0) h) v.drawn;
  pks = Distinct-map (λ u. u.pk) f us (λ u. (same u).0) v.pks;
  ids = Distinct-map (λ u. u.id) f us (λ u. (same u).1) v.ids;
  usernames = Distinct-map (λ u. u.username) f us (λ u. (same u).2) v.usernames;
  emails = Distinct-map (λ u. u.email) f us (λ u. (same u).3) v.emails;
}

-- A change of the users that keeps their keys leaves the accounts owned.
pub ValidAccounts-users :
    (f : User → User) (accs : List Account) (us : List User) (n : ℕ)
    → ((u : User) → (f u).pk ≡ u.pk)
    → ValidAccounts accs us n
    → ValidAccounts accs (map f us) n
ValidAccounts-users f accs us n same v = record {
  drawn = v.drawn;
  pks = v.pks;
  ids = v.ids;
  numbers = v.numbers;
  owned =
      All-map (λ a. has_user a.user_pk us ≡ true) (λ a. has_user a.user_pk (map f us) ≡ true) accs
        (λ a h. has_user-map f a.user_pk us same ∙ h) v.owned;
}

-- A change that keeps the keys, the UNIQUE columns and the owners of the accounts.
pub ValidAccounts-map :
    (f : Account → Account) (accs : List Account) (us : List User) (n : ℕ)
    → ((a : Account)
        → ((f a).pk ≡ a.pk)
          × ((f a).id ≡ a.id)
          × ((f a).account_number ≡ a.account_number)
          × ((f a).user_pk ≡ a.user_pk))
    → ValidAccounts accs us n
    → ValidAccounts (map f accs) us n
ValidAccounts-map f accs us n same v = record {
  drawn =
      All-changed (λ a. a.pk < n) (λ a. a.pk < n) f accs
        (λ a h. subst (λ k. k < n) (sym (same a).0) h) v.drawn;
  pks = Distinct-map (λ a. a.pk) f accs (λ a. (same a).0) v.pks;
  ids = Distinct-map (λ a. a.id) f accs (λ a. (same a).1) v.ids;
  numbers = Distinct-map (λ a. a.account_number) f accs (λ a. (same a).2) v.numbers;
  owned =
      All-changed (λ a. has_user a.user_pk us ≡ true) (λ a. has_user a.user_pk us ≡ true) f accs
        (λ a h. ap (λ k. has_user k us) (same a).3 ∙ h) v.owned;
}

-- A user under the next key, whose UNIQUE columns are new.
pub ValidUsers-append :
    (us : List User) (u : User) (n : ℕ)
    → u.pk ≡ n
    → any (λ v. v.id == u.id || v.username == u.username || v.email == u.email) us ≡ false
    → ValidUsers us n
    → ValidUsers (us ++ u ∷ []) (n + 1)
ValidUsers-append us u n at new v =
    let none =
      All-none (λ v. v.id == u.id || v.username == u.username || v.email == u.email) us new in
    record {
      drawn =
          All-append (λ u. u.pk < n + 1) us u
            (All-map (λ u. u.pk < n) (λ u. u.pk < n + 1) us (λ u h. omega arith) v.drawn)
            (omega arith);
      pks =
          Distinct-append (λ u. u.pk) us u v.pks
            (All-map (λ v. v.pk < n) (λ v. v.pk ≢ u.pk) us (λ v h e. omega arith) v.drawn);
      ids =
          Distinct-append (λ u. u.id) us u v.ids
            (All-map (λ v. (v.id == u.id || v.username == u.username || v.email == u.email) ≡ false)
              (λ v. v.id ≢ u.id) us (λ v h e. ground (arith, eq_iff v.id u.id)) none);
      usernames =
          Distinct-append (λ u. u.username) us u v.usernames
            (All-map (λ v. (v.id == u.id || v.username == u.username || v.email == u.email) ≡ false)
              (λ v. v.username ≢ u.username) us
              (λ v h e. ground (arith, eq_iff v.username u.username)) none);
      emails =
          Distinct-append (λ u. u.email) us u v.emails
            (All-map (λ v. (v.id == u.id || v.username == u.username || v.email == u.email) ≡ false)
              (λ v. v.email ≢ u.email) us (λ v h e. ground (arith, eq_iff v.email u.email)) none);
    }

-- One more user leaves the accounts owned.
pub ValidAccounts-user :
    (accs : List Account) (us : List User) (u : User) (n : ℕ)
    → ValidAccounts accs us n
    → ValidAccounts accs (us ++ u ∷ []) n
ValidAccounts-user accs us u n v = record {
  drawn = v.drawn;
  pks = v.pks;
  ids = v.ids;
  numbers = v.numbers;
  owned =
      All-map (λ a. has_user a.user_pk us ≡ true) (λ a. has_user a.user_pk (us ++ u ∷ []) ≡ true)
        accs (λ a h. any-append (λ v. eqb v.pk a.user_pk) us (u ∷ []) h) v.owned;
}

-- An account under the next key, whose UNIQUE columns are new, of a user that is there.
pub ValidAccounts-append :
    (accs : List Account) (us : List User) (a : Account) (n : ℕ)
    → a.pk ≡ n
    → any (λ b. b.id == a.id || b.account_number == a.account_number) accs ≡ false
    → has_user a.user_pk us ≡ true
    → ValidAccounts accs us n
    → ValidAccounts (accs ++ a ∷ []) us (n + 1)
ValidAccounts-append accs us a n at new own v =
    let none = All-none (λ b. b.id == a.id || b.account_number == a.account_number) accs new in
    record {
      drawn =
          All-append (λ b. b.pk < n + 1) accs a
            (All-map (λ b. b.pk < n) (λ b. b.pk < n + 1) accs (λ b h. omega arith) v.drawn)
            (omega arith);
      pks =
          Distinct-append (λ b. b.pk) accs a v.pks
            (All-map (λ b. b.pk < n) (λ b. b.pk ≢ a.pk) accs (λ b h e. omega arith) v.drawn);
      ids =
          Distinct-append (λ b. b.id) accs a v.ids
            (All-map (λ b. (b.id == a.id || b.account_number == a.account_number) ≡ false)
              (λ b. b.id ≢ a.id) accs (λ b h e. ground (arith, eq_iff b.id a.id)) none);
      numbers =
          Distinct-append (λ b. b.account_number) accs a v.numbers
            (All-map (λ b. (b.id == a.id || b.account_number == a.account_number) ≡ false)
              (λ b. b.account_number ≢ a.account_number) accs
              (λ b h e. ground (arith, eq_iff b.account_number a.account_number)) none);
      owned = All-append (λ b. has_user b.user_pk us ≡ true) accs a v.owned own;
    }
