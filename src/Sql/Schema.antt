-- ===== src/Sql/Schema.antt =====
-- The columns of the tables that db/migrations/postgres/20240912143506_initial.sql creates, and
-- those of them which are NOT NULL and have no default.
use dbank.Prelude.{String, List, [], ◌∷◌}
use dbank.Sql.{Table, users, accounts, transactions}

abbrev pub initial_columns : Table → List String
initial_columns users =
    "pk" ∷ "id" ∷ "username" ∷ "email" ∷ "password" ∷ "created_at" ∷ "updated_at" ∷ "deleted_at"
    ∷ []
initial_columns accounts =
    "pk" ∷ "id" ∷ "user_pk" ∷ "account_type" ∷ "account_number" ∷ "balance" ∷ "currency" ∷ "status"
    ∷ "account_name" ∷ "created_at" ∷ "updated_at" ∷ "deleted_at" ∷ []
initial_columns transactions =
    "pk" ∷ "id" ∷ "account_pk" ∷ "transaction_type" ∷ "amount" ∷ "currency" ∷ "transaction_date"
    ∷ "description" ∷ "created_at" ∷ "updated_at" ∷ "deleted_at" ∷ []

abbrev pub initial_required : Table → List String
initial_required users = "id" ∷ "username" ∷ "email" ∷ "password" ∷ []
initial_required accounts =
    "id" ∷ "user_pk" ∷ "account_type" ∷ "account_number" ∷ "currency" ∷ "status" ∷ "account_name"
    ∷ []
initial_required transactions =
    "id" ∷ "account_pk" ∷ "transaction_type" ∷ "amount" ∷ "currency" ∷ []
