-- ===== src/Tests/Sessions.antt =====
-- Tables that keep their constraints, requests on them, and a round trip of app/store/store.go.
use dbank.Prelude.{String, ◌≢◌, refl, List, [], ◌∷◌, some, eq_iff, arith}
use dbank.Prelude.Int.{ℤ, pos}
use dbank.Store.Requests.{CreateUserRequest, UpdateAccountRequest}
use dbank.Store.Accounts.{create_account}
use dbank.Store.Validity.{IsValid}
use dbank.Service.Accounts.{CreateAccountRequest, Secrets, update_account_handler}
use dbank.Service.Accounts.Updating.{Updated, update_account_handler-Updated}
use dbank.Service.Accounts.{UpdateAccountRequest as ServiceUpdate}
use dbank.Store.Accounts.{update_account}
use dbank.Store.Accounts.Updating.Changing.{Changed, update_account-Changed}
use dbank.Service.Sessions.{Request}
use dbank.Tests.World.{floats, named_columns, healthy, driver_over-DeliversOnly, shared, transfer}

abbrev pub secrets : Secrets
secrets = record {
  hash_password = λ password. some password;
  user_id = λ _. "carol";
  account_id = λ _. "account-3";
  account_number = λ _. "3";
}

apart : ◌≢◌ {A = String} "bob" "alice"
apart = ground (arith, eq_iff "bob" "alice")

pub shared-IsValid : IsValid shared.world.db
shared-IsValid = (
  record {
    drawn = (omega arith, (omega arith, tt));
    pks = (((λ e. omega arith), tt), (tt, tt));
    ids = ((apart, tt), (tt, tt));
    usernames = ((apart, tt), (tt, tt));
    emails = ((apart, tt), (tt, tt));
  },
  record {
    drawn = (omega arith, (omega arith, tt));
    pks = (((λ e. omega arith), tt), (tt, tt));
    ids = ((apart, tt), (tt, tt));
    numbers = ((apart, tt), (tt, tt));
    owned = (refl, (refl, tt));
  },
)

abbrev pub registration : CreateAccountRequest
registration = record {
  username = "carol";
  email = "carol@bank";
  password = "secret";
  account_name = "main";
  account_type = "savings";
  account_balance = "100";
  account_currency = "EUR";
  account_status = "";
}

abbrev pub renaming : ServiceUpdate
renaming = record {
  id = "bob";
  username = "robert";
  email = "";
  password = "";
  account_name = "";
  account_type = "";
  account_balance = "";
  account_currency = "";
  account_status = "closed";
}

abbrev session : List Request
session =
    Request.create_account 0 registration
    ∷ Request.create_transaction transfer
    ∷ Request.update_account renaming
    ∷ Request.delete_account "alice"
    ∷ Request.list_accounts 1 10
    ∷ []

abbrev carol : CreateUserRequest ℤ
carol = record {
  id = "carol";
  username = "carol";
  email = "carol@bank";
  password = "hash";
  account_id = "account-3";
  account_name = "main";
  account_type = "savings";
  account_number = "3";
  balance = pos 20;
  currency = "EUR";
  status = "active";
}

abbrev revision : UpdateAccountRequest ℤ
revision = record {
  id = "bob";
  username = "robert";
  email = "bob";
  password = "";
  account_name = "main";
  account_type = "savings";
  balance = pos 7;
  currency = "EUR";
  status = "closed";
}

update_account-Changed_example :
    Changed floats healthy revision shared.world
      (update_account floats healthy revision shared.world)
update_account-Changed_example =
    update_account-Changed floats healthy revision shared.world
      (driver_over-DeliversOnly named_columns)

update_account_handler-Updated_example :
    Updated floats secrets healthy renaming shared
      (update_account_handler floats secrets healthy renaming shared)
update_account_handler-Updated_example =
    update_account_handler-Updated floats secrets healthy renaming shared
      (driver_over-DeliversOnly named_columns)
