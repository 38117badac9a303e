-- ===== src/Tests/World.antt =====
-- An environment in which every call succeeds, and a bank of two users. `float64` is ℤ here.
use dbank.Prelude.{ℕ, String, true, none, some, List, [], ◌∷◌, ◌++◌}
use dbank.Prelude.Int.{ℤ, pos}
use dbank.Status.{ok}
use dbank.Sql.{Table, users, accounts, transactions, User, Account, Driver, committed}
use dbank.Sql.Schema.{initial_columns}
use dbank.Broker.{Broker}
use dbank.Store.Requests.{Float64}
use dbank.Store.Accounts.Lookup.{DeliversOnly}
use dbank.Store.Transactions.{transaction_columns}
use dbank.Service.Bank.{Bank}
use dbank.Service.Transactions.{CreateTransactionRequest, Decimals}

abbrev pub floats : Float64 ℤ
floats = record {
  scan = λ v. v;
  bind = λ v. some v;
  new_from_float = λ v. v;
  parse_float = λ _. some (pos 100);
  format_float = λ _. "100.00";
}

abbrev pub decimals : Decimals
decimals = record {
  new_from_string = λ _. ok (pos 30);
  to_string = λ _. "30";
  time_text = λ _. "now";
}

-- The columns that the code names.
abbrev pub named_columns : Table → List String
named_columns users = initial_columns users
named_columns accounts = initial_columns accounts
named_columns transactions =
    "id" ∷ transaction_columns ++ ("created_at" ∷ "updated_at" ∷ "deleted_at" ∷ [])

abbrev pub driver_over : (Table → List String) → Driver
driver_over columns = record {
  fault = λ _. none;
  commit = λ _. committed;
  clock = λ n. n;
  columns = columns;
  required = λ _. [];
  uuid = λ s. some s;
  numeric = λ v. some v;
  new_id = λ _. "1";
  to_int = λ _. some 1;
  order = λ rows. rows;
}

abbrev pub healthy : Driver
healthy = driver_over named_columns

-- The schema of the migration.
abbrev pub migrated : Driver
migrated = driver_over initial_columns

pub driver_over-DeliversOnly : (columns : Table → List String) → DeliversOnly (driver_over columns)
driver_over-DeliversOnly columns r rows m = m

abbrev pub broker : Broker
broker = record {
  connected = true;
  accepts = λ _. true;
  marshal = λ e. e.amount;
  unmarshal = λ _. none;
  unix_time = λ n. n;
}

abbrev pub user : ℕ → String → User
user pk name = record {
  pk = pk;
  id = name;
  username = name;
  email = name;
  password = "hash";
  created_at = pk;
  updated_at = pk;
  deleted_at = none;
}

abbrev pub account : ℕ → String → ℤ → Account
account pk id balance = record {
  pk = pk;
  id = id;
  user_pk = pk;
  account_type = "savings";
  account_number = id;
  balance = balance;
  currency = "EUR";
  status = "active";
  account_name = "main";
  created_at = pk;
  updated_at = pk;
  deleted_at = none;
}

abbrev pub bank_of : String → String → Bank
bank_of first second = record {
  world = record {
    db = record {
      users = user 1 "alice" ∷ user 2 "bob" ∷ [];
      accounts = account 1 first (pos 100) ∷ account 2 second (pos 5) ∷ [];
      transactions = [];
      next_user = 3;
      next_account = 3;
    };
    calls = 0;
  };
  exchange = record { messages = []; calls = 0 };
}

-- Each account has the id of its user, or an id of its own.
abbrev pub shared : Bank
shared = bank_of "alice" "bob"

abbrev pub separate : Bank
separate = bank_of "account-1" "account-2"

abbrev pub transfer : CreateTransactionRequest
transfer = record {
  from_account_id = "alice";
  to_account_id = "bob";
  transaction_type = "transfer";
  amount = "30";
  currency = "EUR";
  description = "rent";
}
