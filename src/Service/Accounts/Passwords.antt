-- ===== src/Service/Accounts/Passwords.antt =====
-- pkg/passw/passw.go, and the password of an account that app/service/accounts.go has opened.
use mathlib.Core.List.{Memᴰ as Member}
use mathlib.Core.List.Memᴰ as Memᴰ
use dbank.Prelude.{ℕ, String, ◌≡◌, refl, ap, sym, ◌∙◌, subst, Option, some}
use dbank.Status.{⊤, Error, message, Result, ok, err}
use dbank.Sql.{User, Database, Driver}
use dbank.Store.Requests.{Float64}
use dbank.Store.Accounts.Creating.{new_user_row}
use dbank.Service.Bank.{Bank}
use dbank.Service.Accounts.{CreateAccountRequest, AccountResponse, Secrets, create_account_handler}
use dbank.Service.Accounts.Opening.{Registered, Registers, create_account_handler-Registers}

-- What CompareHashAndPassword returns: nil, ErrMismatchedHashAndPassword, or another error.
pub data Comparison : Type 0 where
  matching mismatched : Comparison
  uncomparable : Error → Comparison

-- golang.org/x/crypto/bcrypt: the hash of a password at a cost, which a password that is too long has
-- not, and the comparison of a hash with a password.
pub record Bcrypt : Type 0 where
  pub generate_from_password : String → ℕ → Option String
  pub compare_hash_and_password : String → String → Comparison

abbrev pub default_cost : ℕ
default_cost = 10

abbrev pub err_mismatched : Error
err_mismatched = message "mismatched hash and password"

abbrev pub verdict : Comparison → Result ⊤
verdict matching = ok tt
verdict mismatched = err err_mismatched
verdict (uncomparable e) = err e

module _ (bc : Bcrypt) where
  -- The error of a hash that cannot be made is dropped here, as its callers only log it.
  unfoldable pub hash_password : String → Option String
  hash_password password = bc.generate_from_password password default_cost

  unfoldable pub verify_password : String → String → Result ⊤
  verify_password hashed password = verdict (bc.compare_hash_and_password hashed password)

  -- A hash matches the password that it was made from.
  abbrev pub Matches : Type 0
  Matches =
      (password hashed : String) (cost : ℕ)
      → bc.generate_from_password password cost ≡ some hashed
      → bc.compare_hash_and_password hashed password ≡ matching

  verify_password-hash_password :
      (password hashed : String)
      → Matches
      → hash_password password ≡ some hashed
      → verify_password hashed password ≡ ok tt
  unfolding hash_password verify_password
  verify_password-hash_password password hashed law h =
      ap verdict (law password hashed default_cost h)

  module _ {F : Type 0} (fl : Float64 F) (sec : Secrets) (d : Driver) (n : ℕ)
      (req : CreateAccountRequest) where
    -- A row of the user that a request names, whose stored hash the request's password passes.
    pub record LetsIn (db : Database) : Type 0 where
      pub user : User
      pub stored : Member user db.users
      pub named : user.username ≡ req.username
      pub verified : verify_password user.password req.password ≡ ok tt

    Registered-LetsIn :
        (before after : Database)
        → Matches
        → ((password : String) → sec.hash_password password ≡ hash_password password)
        → Registered fl sec d n req before after
        → LetsIn after
    Registered-LetsIn before after law same r =
        let u = new_user_row fl d r.now r.user before.next_user r.writes.user_key in
        record {
          user = u;
          stored =
              subst (λ (db : Database). Member u db.users) (sym r.writes.after_is)
                (Memᴰ.append_right before.users (Member.head refl));
          named = r.names_are.0;
          verified =
              verify_password-hash_password req.password r.user.password law
                (sym (same req.password) ∙ r.hashed_is);
        }

    -- After a CreateAccount that returned, VerifyPassword accepts the password of the request for the
    -- hash in the new user's row. The conditions: the service hashes with HashPassword, and a hash
    -- of bcrypt matches the password that it was made from.
    pub create_account_handler-LetsIn :
        (b b' : Bank) (response : AccountResponse)
        → Matches
        → ((password : String) → sec.hash_password password ≡ hash_password password)
        → create_account_handler fl sec d n req b ≡ (ok response, b')
        → LetsIn b'.world.db
    create_account_handler-LetsIn b b' response law same h =
        Registered-LetsIn b.world.db b'.world.db law same
          (subst (Registers fl sec d n req b) h
            (create_account_handler-Registers fl sec d n req b)).0
