-- ===== src/Sql.antt =====
-- The relational tables of db/migrations/postgres/20240912143506_initial.sql as far as app/store
-- uses them, and one statement against them. What pgx and PostgreSQL decide by themselves is the
-- record `Driver`.
pub mod Steps
pub mod Schema
use dbank.Prelude.{
  ℕ, ◌+◌, String, Bool, true, false, ◌&&◌, ◌||◌, Option, none, some, List, [], ◌∷◌, map, all, ◌==◌,
  if◌then◌else◌,
}
use dbank.Prelude.Int.{ℤ}
use dbank.Status.{Error, Result, ok, err, Exec}

pub data Table : Type 0 where
  users accounts transactions : Table

-- A row of dbank_users. A time is a number, and `none` is NULL.
pub record User : Type 0 where
  pub pk : ℕ
  pub id : String
  pub username : String
  pub email : String
  pub password : String
  pub created_at : ℕ
  pub updated_at : ℕ
  pub deleted_at : Option ℕ

-- A row of dbank_accounts. An amount of money counts units of one power of ten throughout, fine
-- enough for every decimal at hand.
pub record Account : Type 0 where
  pub pk : ℕ
  pub id : String
  pub user_pk : ℕ
  pub account_type : String
  pub account_number : String
  pub balance : ℤ
  pub currency : String
  pub status : String
  pub account_name : String
  pub created_at : ℕ
  pub updated_at : ℕ
  pub deleted_at : Option ℕ

-- A row of dbank_transactions, with the columns that app/store/store.go names.
pub record TransactionRow : Type 0 where
  pub id : String
  pub from_account_id : String
  pub to_account_id : String
  pub transaction_type : String
  pub amount : ℤ
  pub currency : String
  pub description : String
  pub status : String
  pub created_at : ℕ
  pub updated_at : ℕ
  pub deleted_at : Option ℕ

-- The tables, in the order of insertion, and the SERIAL counter of each primary key.
pub record Database : Type 0 where
  pub users : List User
  pub accounts : List Account
  pub transactions : List TransactionRow
  pub next_user : ℕ
  pub next_account : ℕ

-- `unbuilt` is an error of squirrel's ToSql, `broken` one of the connection or the server, and
-- `unscanned` one of the conversion of a column into its Go variable.
pub data Fault : Type 0 where
  unbuilt broken unscanned : Fault

-- `lost` is a commit that took place while its reply did not arrive.
pub data CommitReply : Type 0 where
  committed refused lost : CommitReply

-- What the program does not implement. Calls are numbered in the order in which they are made.
pub record Driver : Type 0 where
  pub fault : ℕ → Option Fault
  pub commit : ℕ → CommitReply
  pub clock : ℕ → ℕ
  -- The columns of the schema in force, and those that an INSERT must give.
  pub columns : Table → List String
  pub required : Table → List String
  -- A text as a UUID in its canonical form, if it is one.
  pub uuid : String → Option String
  -- A decimal as a DECIMAL(20,6) column stores it, if it fits.
  pub numeric : ℤ → Option ℤ
  -- The key that an INSERT with no id gets, and a key read into a Go int.
  pub new_id : ℕ → String
  pub to_int : String → Option ℕ
  -- The order in which a query without ORDER BY delivers its rows.
  pub order : List (User × Account) → List (User × Account)

pub record World : Type 0 where
  pub db : Database
  pub calls : ℕ

-- What a call of the driver comes back with: one row, no row, or an error.
pub data Reply (A : Type 0) : Type 0 where
  row : A → Reply A
  no_rows : Reply A
  unbuilt_query : Reply A
  failed_query : Reply A

abbrev pub contains : String → List String → Bool
contains c [] = false
contains c (x ∷ xs) = c == x || contains c xs

-- Whether the schema has every column that a statement names.
abbrev pub knows : Driver → List (Table × String) → Bool
knows d [] = true
knows d ((t, c) ∷ cols) = contains c (d.columns t) && knows d cols

abbrev pub of_table : Table → List String → List (Table × String)
of_table t = map (λ c. (t, c))

-- Whether an INSERT that lists `cols` gives every column that has no default.
abbrev pub provides : Driver → Table → List String → Bool
provides d t cols = all (λ c. contains c cols) (d.required t)

abbrev pub tick : World → World
tick w = record w { calls = w.calls + 1 }

abbrev settle : {A : Type 0} → Option (Reply A × Database) → World → Reply A × World
settle none w = (failed_query, w)
settle (some (r, db)) w = (r, record w { db = db })

-- One statement: it may fail by itself, it fails on a column that the schema does not have, and
-- otherwise it has its effect, which fails where a constraint or a conversion does.
unfoldable pub statement :
    {A : Type 0}
    → Driver
    → Bool
    → (Database → Option (Reply A × Database))
    → World
    → Reply A × World
statement d known effect w = elim (d.fault w.calls) [
  | some unbuilt ↦ (unbuilt_query, tick w)
  | some broken ↦ (failed_query, tick w)
  | some unscanned ↦ (failed_query, tick w)
  | none ↦ if known then settle (effect w.db) (tick w) else (failed_query, tick w)
]

abbrev interpret : {A : Type 0} → Error → Error → Error → Reply A → Result A
interpret unbuilt_error failed_error none_error (row a) = ok a
interpret unbuilt_error failed_error none_error no_rows = err none_error
interpret unbuilt_error failed_error none_error unbuilt_query = err unbuilt_error
interpret unbuilt_error failed_error none_error failed_query = err failed_error

-- The error handling around a statement: the error of ToSql, of the call, and of pgx.ErrNoRows.
unfoldable pub checked :
    {A : Type 0} → Error → Error → Error → (World → Reply A × World) → Exec World A
checked unbuilt_error failed_error none_error query w =
    let (r, w') = query w in (interpret unbuilt_error failed_error none_error r, w')
