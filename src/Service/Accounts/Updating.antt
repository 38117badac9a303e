-- ===== src/Service/Accounts/Updating.antt =====
-- How UpdateAccount of app/service/accounts.go ends: what it looks up, what it merges, what it writes.
use dbank.Prelude.{
  ℕ, String, ◌≡◌, ◌≢◌, refl, ◌∙◌, subst, not, some, ◌⊎◌, inl, inr, ◌==◌, eq_iff, arith, Bool-cases,
}
use dbank.Status.{⊤, Error, Result, ok, err, ◌>>=◌, pure, internal, not_found}
use dbank.Sql.{Driver, Database, World, lost}
use dbank.Store.Requests.{Float64, AccountDetails}
use dbank.Store.Requests.{UpdateAccountRequest as StoreUpdate}
use dbank.Store.Accounts.{get_account, update_account}
use dbank.Store.Accounts.Lookup.{DeliversOnly, Answers, get_account-Answers, get_account-reads}
use dbank.Store.Accounts.Updating.{Revised}
use dbank.Store.Accounts.Updating.Changing.{Changed, update_account-Changed}
use dbank.Service.Bank.{Bank, require, or_wrap}
use dbank.Service.Calls.{require-eq-ok, or_wrap-eq-ok}
use dbank.Service.Calls.Quiet.{Same, step, require-Same, or_error-Same}
use dbank.Service.Accounts.{
  UpdateAccountRequest, AccountResponse, Secrets, provided_or, update_data, response_of,
  id_required, hash_given, balance_given, update_account_handler,
}

-- A field that the request may leave empty, and then keeps its value.
abbrev pub IsGivenOr : String → String → String → Type 0
IsGivenOr given existing merged =
    ((given ≡ "") × (merged ≡ existing)) ⊎ ((given ≢ "") × (merged ≡ given))

pub provided_or-IsGivenOr :
    (given existing : String) → IsGivenOr given existing (provided_or given existing)
provided_or-IsGivenOr given existing = elim (Bool-cases (given == "")) [
  | inl e ↦ inl ((eq_iff given "").0 e, ground arith)
  | inr e ↦ inr (ground (arith, eq_iff given ""), ground arith)
]

module _ {F : Type 0} (fl : Float64 F) (sec : Secrets) (d : Driver)
    (req : UpdateAccountRequest) where
  -- What UpdateAccount makes of a request and of the account that it found: a field that the request
  -- leaves empty keeps its value, and so does the password.
  abbrev pub Hashed : String → Type 0
  Hashed hashed =
      ((req.password ≡ "") × (hashed ≡ ""))
      ⊎ ((req.password ≢ "") × (sec.hash_password req.password ≡ some hashed))

  abbrev pub Valued : F → F → Type 0
  Valued existing balance =
      ((req.account_balance ≡ "") × (balance ≡ existing))
      ⊎ ((req.account_balance ≢ "") × (fl.parse_float req.account_balance ≡ some balance))

  -- The update that is written to the tables `before`.
  pub record Merged (before after : Database) (answer : AccountDetails F) : Type 0 where
    pub existing : AccountDetails F
    pub update : StoreUpdate F
    pub now : ℕ
    pub identified : req.id ≢ ""
    pub existing_is : Answers fl d req.id before existing
    pub id_is : update.id ≡ req.id
    pub username_is : IsGivenOr req.username existing.username update.username
    pub email_is : IsGivenOr req.email existing.email update.email
    pub password_is : Hashed update.password
    pub account_name_is : IsGivenOr req.account_name existing.account_name update.account_name
    pub account_type_is : IsGivenOr req.account_type existing.account_type update.account_type
    pub balance_is : Valued existing.balance update.balance
    pub currency_is : IsGivenOr req.account_currency existing.currency update.currency
    pub status_is : IsGivenOr req.account_status existing.status update.status
    pub writes : Revised fl d now update before after answer

  -- The outcome of a call that began at `b`.
  abbrev pub Updated : Bank → Result AccountResponse × Bank → Type 0
  Updated b (ok response, b') =
      ((answer : AccountDetails F) × Merged b.world.db b'.world.db answer
        × (response ≡ response_of fl answer))
      × (b'.exchange ≡ b.exchange)
  Updated b (err _, b') =
      ((b'.world.db ≡ b.world.db)
        ⊎ (((n : ℕ) × (d.commit n ≡ lost))
            × (answer : AccountDetails F) × Merged b.world.db b'.world.db answer))
      × (b'.exchange ≡ b.exchange)

  hash_given-Same : (b : Bank) → Same b (hash_given fl sec d req.password b).1
  unfolding hash_given
  hash_given-Same b = elim (Bool-cases (req.password == "")) [
    | inl e ↦ rw e (refl, refl)
    | inr e ↦ rw e (or_error-Same (sec.hash_password req.password) _ b)
  ]

  hash_given-Hashed :
      (b u : Bank) (hashed : String)
      → hash_given fl sec d req.password b ≡ (ok hashed, u)
      → Hashed hashed
  unfolding hash_given
  hash_given-Hashed b u hashed h = elim (Bool-cases (req.password == "")) [
    | inl e ↦ inl ((eq_iff req.password "").0 e, ground arith)
    | inr e ↦ inr (ground (arith, eq_iff req.password ""), ground arith)
  ]

  balance_given-Same :
      (existing : F) (b : Bank) → Same b (balance_given fl sec d req.account_balance existing b).1
  unfolding balance_given
  balance_given-Same existing b = elim (Bool-cases (req.account_balance == "")) [
    | inl e ↦ rw e (refl, refl)
    | inr e ↦ rw e (or_error-Same (fl.parse_float req.account_balance) _ b)
  ]

  pub balance_given-Valued :
      (existing : F) (b u : Bank) (balance : F)
      → balance_given fl sec d req.account_balance existing b ≡ (ok balance, u)
      → Valued existing balance
  unfolding balance_given
  balance_given-Valued existing b u balance h = elim (Bool-cases (req.account_balance == "")) [
    | inl e ↦ inl ((eq_iff req.account_balance "").0 e, ground arith)
    | inr e ↦ inr (ground (arith, eq_iff req.account_balance ""), ground arith)
  ]

  module _ (b : Bank) (existing : AccountDetails F) (hashed : String) (balance : F)
      (identified : req.id ≢ "") (existing_is : Answers fl d req.id b.world.db existing)
      (hashed_is : Hashed hashed) (balance_is : Valued existing.balance balance) where
    merge :
        (now : ℕ) (before after : Database) (answer : AccountDetails F)
        → before ≡ b.world.db
        → Revised fl d now (update_data fl req existing hashed balance) before after answer
        → Merged b.world.db after answer
    merge now before after answer same w = record {
      existing = existing;
      update = update_data fl req existing hashed balance;
      now = now;
      identified = identified;
      existing_is = existing_is;
      id_is = refl;
      username_is = provided_or-IsGivenOr req.username existing.username;
      email_is = provided_or-IsGivenOr req.email existing.email;
      password_is = hashed_is;
      account_name_is = provided_or-IsGivenOr req.account_name existing.account_name;
      account_type_is = provided_or-IsGivenOr req.account_type existing.account_type;
      balance_is = balance_is;
      currency_is = provided_or-IsGivenOr req.account_currency existing.currency;
      status_is = provided_or-IsGivenOr req.account_status existing.status;
      writes =
          subst
            (λ db. Revised fl d now (update_data fl req existing hashed balance) db after answer)
            same w;
    }

    updated_by :
        (c : Bank) (r : Result (AccountDetails F)) (w : World)
        → Same b c
        → Changed fl d (update_data fl req existing hashed balance) c.world (r, w)
        → Updated b (
            (or_wrap internal "failed to update account" (λ _. (r, w)) >>= λ updated.
            pure (response_of fl updated))
              c)
    unfolding or_wrap
    updated_by c (ok answer) w (same, quiet) changed =
        ((answer, merge (d.clock c.world.calls) c.world.db w.db answer same changed, refl), quiet)
    updated_by c (err e) w (same, quiet) (inl unchanged) = (inl (unchanged ∙ same), quiet)
    updated_by c (err e) w (same, quiet) (inr (gone, answer, changed)) = (
      inr (gone, answer, merge (d.clock c.world.calls) c.world.db w.db answer same changed),
      quiet,
    )

  get_account-Same :
      (b : Bank) → Same b (or_wrap not_found "account not found" (get_account fl d req.id) b).1
  unfolding or_wrap
  get_account-Same b = (get_account-reads fl d req.id b.world, refl)

  unwritten : (b : Bank) (e : Error) (u : Bank) → Same b u → Updated b (err e, u)
  unwritten b e u (same, quiet) = (inl same, quiet)

  is_given :
      (b u : Bank) {a : ⊤} → require (not (req.id == "")) id_required b ≡ (ok a, u) → req.id ≢ ""
  is_given b u h =
      let given = (require-eq-ok (not (req.id == "")) id_required b u h).0 in
      ground (arith, eq_iff req.id "")

  pub found_in :
      (b u v : Bank)
      → DeliversOnly d
      → Same b u
      → (existing : AccountDetails F)
      → or_wrap not_found "account not found" (get_account fl d req.id) u ≡ (ok existing, v)
      → Answers fl d req.id b.world.db existing
  found_in b u v only same existing h =
      subst (λ db. Answers fl d req.id db existing) same.0
        (get_account-Answers fl d req.id u.world v.world only
          (or_wrap-eq-ok not_found "account not found" (get_account fl d req.id) u v h).0).0

  -- What follows the lookup.
  update_found :
      (b c : Bank)
      → DeliversOnly d
      → Same b c
      → (existing : AccountDetails F) → req.id ≢ ""
      → Answers fl d req.id b.world.db existing
      → Updated b (
          (hash_given fl sec d req.password >>= λ hashed.
          balance_given fl sec d req.account_balance existing.balance >>= λ balance.
          or_wrap internal "failed to update account"
            (update_account fl d (update_data fl req existing hashed balance))
          >>= λ updated. pure (response_of fl updated))
            c)
  unfolding or_wrap
  update_found b c only same existing identified found =
      step (hash_given fl sec d req.password) _ (Updated b) b c same hash_given-Same (unwritten b)
        λ hashed u kept h.
          step (balance_given fl sec d req.account_balance existing.balance) _ (Updated b) b u kept
            (balance_given-Same existing.balance) (unwritten b)
            λ balance v left k.
              let merged = update_data fl req existing hashed balance in
              let (r, w) = update_account fl d merged v.world in
              updated_by b existing hashed balance identified found (hash_given-Hashed c u hashed h)
                (balance_given-Valued existing.balance u v balance k) v r w left
                (update_account-Changed fl d merged v.world only)

  -- A call of the service's UpdateAccount that returns was given an id, has looked up an account by
  -- it, and has written the account's own values with those of the request in their place where the
  -- request has them: the password as its hash, the balance as it is parsed. It answers with the rows
  -- as they are then. One that fails has written nothing, unless the reply to its commit was lost, in
  -- which case it has written all of it. Nothing is published. The condition is that a query delivers
  -- only its own rows.
  pub update_account_handler-Updated :
      (b : Bank) → DeliversOnly d → Updated b (update_account_handler fl sec d req b)
  unfolding update_account_handler
  update_account_handler-Updated b only =
      step (require (not (req.id == "")) id_required) _ (Updated b) b b (refl, refl)
        (require-Same (not (req.id == "")) id_required) (unwritten b)
        λ _ u same went.
          step (or_wrap not_found "account not found" (get_account fl d req.id)) _ (Updated b) b u
            same get_account-Same (unwritten b)
            λ existing v kept found.
              update_found b v only kept existing (is_given b u went)
                (found_in b u v only same existing found)
