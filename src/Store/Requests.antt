-- ===== src/Store/Requests.antt =====
-- app/store/store.go: the requests and the results of the store. `F` stands for Go's float64.
use dbank.Prelude.{ℕ, String, Option}
use dbank.Prelude.Int.{ℤ}

-- float64 as the program uses it: pgx reads a DECIMAL(20,6) column into one and binds one to such
-- a column, decimal.NewFromFloat turns one into a decimal, and strconv parses and formats it.
pub record Float64 (F : Type 0) : Type 0 where
  pub scan : ℤ → F
  pub bind : F → Option ℤ
  pub new_from_float : F → ℤ
  pub parse_float : String → Option F
  pub format_float : F → String

pub record CreateUserRequest (F : Type 0) : Type 0 where
  pub id : String
  pub username : String
  pub email : String
  pub password : String
  pub account_id : String
  pub account_name : String
  pub account_type : String
  pub account_number : String
  pub balance : F
  pub currency : String
  pub status : String

pub record AccountDetails (F : Type 0) : Type 0 where
  pub id : String
  pub username : String
  pub email : String
  pub account_id : String
  pub account_name : String
  pub account_type : String
  pub account_number : String
  pub balance : F
  pub currency : String
  pub status : String

pub record UpdateAccountRequest (F : Type 0) : Type 0 where
  pub id : String
  pub username : String
  pub email : String
  pub password : String
  pub account_name : String
  pub account_type : String
  pub balance : F
  pub currency : String
  pub status : String

-- A decimal.Decimal is the number of units that it stands for.
pub record TransactionRequest : Type 0 where
  pub transaction_id : String
  pub from_account_id : String
  pub from_account_balance : ℤ
  pub to_account_id : String
  pub to_account_balance : ℤ
  pub transaction_type : String
  pub amount : ℤ
  pub currency : String
  pub description : String
  pub status : String

-- The two balances stay at Go's zero value: no query of the store fills them.
pub record Transaction : Type 0 where
  pub transaction_id : String
  pub from_account_id : String
  pub from_account_balance : ℤ
  pub to_account_id : String
  pub to_account_balance : ℤ
  pub transaction_type : String
  pub amount : ℤ
  pub currency : String
  pub description : String
  pub status : String
  pub created_at : ℕ
  pub updated_at : ℕ
