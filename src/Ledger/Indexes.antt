-- ===== src/Ledger/Indexes.antt =====
-- app/consumer/mongo_ledger.go: the indexes of the collection "ledgers".
use dbank.Prelude.{
  String, Bool, true, false, List, [], ◌∷◌, ◌==◌, ◌||◌, ◌&&◌, if◌then◌else◌, ◌≡◌, refl, eq_refl,
  arith,
}

pub data Order : Type 0 where
  ascending descending : Order

-- A mongo.IndexModel: its keys in their order, and its name.
pub record IndexModel : Type 0 where
  pub keys : List (String × Order)
  pub name : String

abbrev index : String → List (String × Order) → IndexModel
index name keys = record { keys = keys; name = name }

-- The models that EnsureLedgerIndexes passes to CreateMany.
abbrev pub ledger_indexes : List IndexModel
ledger_indexes =
    index "idx_account_created" (("account_id", ascending) ∷ ("created_at", descending) ∷ [])
    ∷ index "idx_transaction" (("transaction_id", ascending) ∷ [])
    ∷ index "idx_entry_type_account" (("entry_type", ascending) ∷ ("account_id", ascending) ∷ [])
    ∷ index "idx_currency" (("currency", ascending) ∷ [])
    ∷ []

abbrev pub has_index : String → List IndexModel → Bool
has_index name [] = false
has_index name (i ∷ indexes) = i.name == name || has_index name indexes

-- MongoDB leaves an index that exists already as it is.
abbrev pub create_many : List IndexModel → List IndexModel → List IndexModel
create_many [] indexes = indexes
create_many (i ∷ models) indexes =
    let rest = create_many models indexes in if has_index i.name indexes then rest else i ∷ rest

-- Every model has an index of its name.
abbrev pub has_all : List IndexModel → List IndexModel → Bool
has_all [] indexes = true
has_all (i ∷ models) indexes = has_index i.name indexes && has_all models indexes

has_all-cons :
    (models : List IndexModel) (i : IndexModel) (indexes : List IndexModel)
    → has_all models indexes ≡ true
    → has_all models (i ∷ indexes) ≡ true
has_all-cons [] i indexes h = refl
has_all-cons (k ∷ models) i indexes h = let rest = has_all-cons models i indexes in ground arith

has_index-create_many :
    (models indexes : List IndexModel) (name : String)
    → has_index name indexes ≡ true
    → has_index name (create_many models indexes) ≡ true
has_index-create_many [] indexes name h = h
has_index-create_many (i ∷ models) indexes name h =
    let rest = has_index-create_many models indexes name h in ground arith

-- After CreateMany, an index of the name of each model is there.
pub create_many-has_all :
    (models indexes : List IndexModel) → has_all models (create_many models indexes) ≡ true
create_many-has_all [] indexes = refl
create_many-has_all (i ∷ models) indexes =
    let rest = create_many-has_all models indexes in
    let more = has_all-cons models i (create_many models indexes) rest in
    let kept = has_index-create_many models indexes i.name in
    let self = eq_refl i.name in ground arith
