-- ===== src/Tests/Opening.antt =====
-- An account that is opened through app/service/accounts.go, and its password.
use mathlib.Core.Option.{some-injective}
use dbank.Prelude.{String, ◌≡◌, refl, subst, some, ◌==◌, eq_refl, if◌then◌else◌, ap}
use dbank.Status.{ok}
use dbank.Sql.{statement, checked}
use dbank.Tx.{run_in_tx}
use dbank.Store.Inserts.{insert_user, insert_account}
use dbank.Store.Accounts.{create_account, create_body, add_user, add_account}
use dbank.Service.Bank.{Bank, or_wrap}
use dbank.Service.Accounts.{create_account_handler}
use dbank.Service.Accounts.Opening.{Registers, response_to, create_account_handler-Registers}
use dbank.Service.Accounts.Passwords.{
  Bcrypt, matching, mismatched, hash_password, Matches, LetsIn, create_account_handler-LetsIn,
}
use dbank.Tests.World.{floats, healthy, shared}
use dbank.Tests.Sessions.{secrets, registration}

-- A hash that is the password itself.
abbrev plain : Bcrypt
plain = record {
  generate_from_password = λ password _. some password;
  compare_hash_and_password =
      λ hashed password. if hashed == password then matching else mismatched;
}

plain-Matches : Matches plain
plain-Matches password hashed cost h =
    subst (λ k. (if k == password then matching else mismatched) ≡ matching)
      (some-injective password hashed h)
      (ap (λ c. if c then matching else mismatched) (eq_refl password))

secrets-hash_password :
    (password : String) → secrets.hash_password password ≡ hash_password plain password
unfolding hash_password
secrets-hash_password password = refl

abbrev opened : Bank
opened = (create_account_handler floats secrets healthy 0 registration shared).1

registration-returns :
    create_account_handler floats secrets healthy 0 registration shared
    ≡ (ok (response_to floats secrets healthy 0 registration), opened)
unfolding create_account_handler create_account create_body add_user add_account insert_user
    insert_account run_in_tx statement checked or_wrap
registration-returns = refl

create_account_handler-Registers_example :
    Registers floats secrets healthy 0 registration shared
      (create_account_handler floats secrets healthy 0 registration shared)
create_account_handler-Registers_example =
    create_account_handler-Registers floats secrets healthy 0 registration shared

create_account_handler-LetsIn_example :
    LetsIn plain floats secrets healthy 0 registration opened.world.db
create_account_handler-LetsIn_example =
    create_account_handler-LetsIn plain floats secrets healthy 0 registration shared opened
      (response_to floats secrets healthy 0 registration) plain-Matches secrets-hash_password
      registration-returns
