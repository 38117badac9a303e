-- ===== src/Service/Accounts/Opening.antt =====
-- How CreateAccount of app/service/accounts.go ends: what it checks, what it writes, what it answers.
use dbank.Prelude.{
  ℕ, String, ◌≡◌, ◌≢◌, refl, ◌∙◌, subst, not, Option, none, some, ◌⊎◌, inl, inr, ◌==◌, ◌||◌, true,
  eq_iff, arith,
}
use dbank.Status.{⊤, Error, Result, ok, err, ◌>>◌, pure, internal, invalid_argument, status}
use dbank.Sql.{Driver, Database, World, lost}
use dbank.Store.Requests.{Float64, CreateUserRequest}
use dbank.Store.Accounts.{create_account}
use dbank.Store.Accounts.Creating.{Created, Opened, create_account-Opened}
use dbank.Service.Bank.{Bank, require, or_wrap}
use dbank.Service.Calls.{require-eq-ok}
use dbank.Service.Calls.Quiet.{Same, step, require-Same, or_error-Same}
use dbank.Service.Accounts.{
  CreateAccountRequest, AccountResponse, Secrets, provided_or, new_user, or_error,
  create_account_handler,
}
use dbank.Service.Accounts.Updating.{IsGivenOr, provided_or-IsGivenOr}

three_given :
    (x y z : String) → not (x == "" || y == "" || z == "") ≡ true → (x ≢ "") × (y ≢ "") × (z ≢ "")
three_given x y z h =
    (ground (arith, eq_iff x ""), ground (arith, eq_iff y ""), ground (arith, eq_iff z ""))

or_error-some :
    {A : Type 0} (o : Option A) (e : Error) (b u : Bank) {a : A}
    → or_error o e b ≡ (ok a, u)
    → o ≡ some a
or_error-some none e b u h = absurd (ground arith)
or_error-some (some a) e b u h = ground arith

module _ {F : Type 0} (fl : Float64 F) (sec : Secrets) (d : Driver) (n : ℕ)
    (req : CreateAccountRequest) where
  -- The account is active unless the request says otherwise.
  abbrev pub opening_status : String
  opening_status = provided_or req.account_status "active"

  -- The account that is opened in the tables `before`.
  pub record Registered (before after : Database) : Type 0 where
    pub user : CreateUserRequest F
    pub now : ℕ
    pub user_given : (req.username ≢ "") × (req.email ≢ "") × (req.password ≢ "")
    pub account_given :
        (req.account_name ≢ "") × (req.account_type ≢ "") × (req.account_currency ≢ "")
    pub ids_are : (user.id ≡ sec.user_id n) × (user.account_id ≡ sec.account_id n)
    pub number_is : user.account_number ≡ sec.account_number n
    pub names_are : (user.username ≡ req.username) × (user.email ≡ req.email)
    pub account_is :
        (user.account_name ≡ req.account_name)
        × (user.account_type ≡ req.account_type)
        × (user.currency ≡ req.account_currency)
    pub hashed_is : sec.hash_password req.password ≡ some user.password
    pub balance_is : fl.parse_float req.account_balance ≡ some user.balance
    pub status_is : IsGivenOr req.account_status "active" user.status
    pub writes : Created fl d now user before after

  abbrev pub response_to : AccountResponse
  response_to = record {
    id = sec.user_id n;
    username = req.username;
    email = req.email;
    account_name = req.account_name;
    account_type = req.account_type;
    account_balance = req.account_balance;
    account_currency = req.account_currency;
    account_status = opening_status;
  }

  -- The outcome of a call that began at `b`.
  abbrev pub Registers : Bank → Result AccountResponse × Bank → Type 0
  Registers b (ok response, b') =
      Registered b.world.db b'.world.db × (response ≡ response_to) × (b'.exchange ≡ b.exchange)
  Registers b (err _, b') =
      ((b'.world.db ≡ b.world.db)
        ⊎ (((n : ℕ) × (d.commit n ≡ lost)) × Registered b.world.db b'.world.db))
      × (b'.exchange ≡ b.exchange)

  unwritten : (b : Bank) (e : Error) (u : Bank) → Same b u → Registers b (err e, u)
  unwritten b e u (same, quiet) = (inl same, quiet)

  module _ (b : Bank) (hashed : String) (balance : F)
      (user_given : (req.username ≢ "") × (req.email ≢ "") × (req.password ≢ ""))
      (account_given : (req.account_name ≢ "")
        × (req.account_type ≢ "")
        × (req.account_currency ≢ ""))
      (hashed_is : sec.hash_password req.password ≡ some hashed)
      (balance_is : fl.parse_float req.account_balance ≡ some balance) where
    abbrev newcomer : CreateUserRequest F
    newcomer = new_user fl req sec n hashed balance opening_status

    register :
        (now : ℕ) (before after : Database)
        → before ≡ b.world.db
        → Created fl d now newcomer before after
        → Registered b.world.db after
    register now before after same w = record {
      user = newcomer;
      now = now;
      user_given = user_given;
      account_given = account_given;
      ids_are = (refl, refl);
      number_is = refl;
      names_are = (refl, refl);
      account_is = (refl, refl, refl);
      hashed_is = hashed_is;
      balance_is = balance_is;
      status_is = provided_or-IsGivenOr req.account_status "active";
      writes = subst (λ db. Created fl d now newcomer db after) same w;
    }

    registered_by :
        (c : Bank) (r : Result ⊤) (w : World)
        → Same b c
        → Opened fl d newcomer c.world (r, w)
        → Registers b
            ((or_wrap internal "failed to create account" (λ _. (r, w)) >> pure response_to) c)
    unfolding or_wrap
    registered_by c (ok _) w (same, quiet) opened =
        (register (d.clock c.world.calls) c.world.db w.db same opened, refl, quiet)
    registered_by c (err e) w (same, quiet) (inl unchanged) = (inl (unchanged ∙ same), quiet)
    registered_by c (err e) w (same, quiet) (inr (gone, opened)) =
        (inr (gone, register (d.clock c.world.calls) c.world.db w.db same opened), quiet)

  -- A call of the service's CreateAccount that returns was given the six texts that it requires, and
  -- has appended one user with the hash of the password, and one account of that user with the parsed
  -- balance, active unless the request says otherwise, under keys that were free; it answers with the
  -- request's own texts. One that fails has written nothing, unless the reply to its commit was lost,
  -- in which case it has written both. Nothing is published.
  pub create_account_handler-Registers :
      (b : Bank) → Registers b (create_account_handler fl sec d n req b)
  unfolding create_account_handler or_wrap
  create_account_handler-Registers b =
      let user_there = not (req.username == "" || req.email == "" || req.password == "") in
      let account_there =
        not (req.account_name == "" || req.account_type == "" || req.account_currency == "") in
      let first_error = status invalid_argument "username, email, and password are required" in
      let second_error = status invalid_argument "account name, type, and currency are required" in
      step (require user_there first_error) _ (Registers b) b b (refl, refl)
        (require-Same user_there first_error) (unwritten b)
        λ _ u₁ same₁ h₁.
          step (require account_there second_error) _ (Registers b) b u₁ same₁
            (require-Same account_there second_error) (unwritten b)
            λ _ u₂ same₂ h₂.
              step (or_error (sec.hash_password req.password) _) _ (Registers b) b u₂ same₂
                (or_error-Same (sec.hash_password req.password) _) (unwritten b)
                λ hashed u₃ same₃ h₃.
                  step (or_error (fl.parse_float req.account_balance) _) _ (Registers b) b u₃ same₃
                    (or_error-Same (fl.parse_float req.account_balance) _) (unwritten b)
                    λ balance u₄ same₄ h₄.
                      let (r, w) =
                        create_account fl d (new_user fl req sec n hashed balance opening_status)
                          u₄.world in
                      registered_by b hashed balance
                        (three_given _ _ _ (require-eq-ok user_there first_error b u₁ h₁).0)
                        (three_given _ _ _ (require-eq-ok account_there second_error u₁ u₂ h₂).0)
                        (or_error-some _ _ u₂ u₃ h₃) (or_error-some _ _ u₃ u₄ h₄) u₄ r w same₄
                        (create_account-Opened fl d _ u₄.world)
