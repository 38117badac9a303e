-- ===== src/Store/Queries.antt =====
-- The effect of each SELECT of app/store/store.go on the tables. One that compares a UUID
-- column with a text that is no UUID fails.
use dbank.Prelude.{
  ℕ, ◌^◌, String, Bool, true, false, ◌&&◌, ◌||◌, Option, none, some, List, [], ◌∷◌, ◌++◌, map,
  select, take, drop, eqb, leb, ltb, ◌==◌, if◌then◌else◌,
}
use dbank.Prelude.Int.{pos}
use dbank.Sql.{User, Account, TransactionRow, Database, Driver, Reply, row, no_rows}
use dbank.Store.Requests.{Float64, AccountDetails, Transaction}

abbrev pub Effect : Type 0 → Type 0
Effect A = Database → Option (Reply A × Database)

abbrev pub is_null : Option ℕ → Bool
is_null none = true
is_null (some _) = false

abbrev pub any {ℓ} : {A : Type ℓ} → (A → Bool) → List A → Bool
any p [] = false
any p (x ∷ xs) = p x || any p xs

abbrev pub first : {A B : Type 0} → (A → B) → List A → Reply B
first f [] = no_rows
first f (x ∷ xs) = row (f x)

-- FROM dbank_users u JOIN dbank_accounts a ON a.user_pk = u.pk
abbrev pub accounts_of : User → List Account → List (User × Account)
accounts_of u accs = map (λ a. (u, a)) (select (λ a. eqb a.user_pk u.pk) accs)

abbrev pub join : List User → List Account → List (User × Account)
join [] accs = []
join (u ∷ us) accs = accounts_of u accs ++ join us accs

abbrev pub is_live : User × Account → Bool
is_live (u, a) = is_null u.deleted_at && is_null a.deleted_at

-- ORDER BY u.created_at DESC
abbrev pub insert_newest : User × Account → List (User × Account) → List (User × Account)
insert_newest r [] = r ∷ []
insert_newest r (s ∷ rest) =
    if leb s.0.created_at r.0.created_at then r ∷ s ∷ rest else s ∷ insert_newest r rest

abbrev pub newest_first : List (User × Account) → List (User × Account)
newest_first [] = []
newest_first (r ∷ rest) = insert_newest r (newest_first rest)

-- LIMIT and OFFSET are of type bigint.
abbrev pub bigint_limit : ℕ
bigint_limit = 2 ^ 63

module _ {F : Type 0} (fl : Float64 F) (d : Driver) where
  -- The ten columns of the SELECTs, scanned in their order.
  abbrev pub details : User × Account → AccountDetails F
  details (u, a) = record {
    id = u.id;
    username = u.username;
    email = u.email;
    account_id = a.id;
    account_name = a.account_name;
    account_type = a.account_type;
    account_number = a.account_number;
    balance = fl.scan a.balance;
    currency = a.currency;
    status = a.status;
  }

  -- WHERE u.id = ? AND u.deleted_at IS NULL AND a.deleted_at IS NULL
  unfoldable pub find_account : String → Effect (AccountDetails F)
  find_account id db = elim (d.uuid id) [
    | none ↦ none
    | some key ↦ some (
      first details
          (d.order (select (λ r. r.0.id == key && is_live r) (join db.users db.accounts))),
      db,
    )
  ]

  -- WHERE u.pk = ?
  unfoldable pub find_updated : ℕ → Effect (AccountDetails F)
  find_updated pk db =
      some (first details (d.order (select (λ r. eqb r.0.pk pk) (join db.users db.accounts))), db)

  -- LIMIT limit OFFSET offset
  unfoldable pub find_page : ℕ → ℕ → Effect (List (AccountDetails F))
  find_page limit offset db =
      if ltb limit bigint_limit && ltb offset bigint_limit
      then some (
        row (
            map details (
              take limit (
                drop offset
                  (newest_first (d.order (select is_live (join db.users db.accounts))))))),
        db,
      )
      else none

-- The ten columns of the SELECT; the two balances keep Go's zero value.
abbrev pub transaction_of : TransactionRow → Transaction
transaction_of t = record {
  transaction_id = t.id;
  from_account_id = t.from_account_id;
  from_account_balance = pos 0;
  to_account_id = t.to_account_id;
  to_account_balance = pos 0;
  transaction_type = t.transaction_type;
  amount = t.amount;
  currency = t.currency;
  description = t.description;
  status = t.status;
  created_at = t.created_at;
  updated_at = t.updated_at;
}

module _ (d : Driver) where
  -- SELECT pk FROM dbank_users WHERE id = ? AND deleted_at IS NULL
  unfoldable pub find_user_pk : String → Effect ℕ
  find_user_pk id db = elim (d.uuid id) [
    | none ↦ none
    | some key ↦
        some (first (λ u. u.pk) (select (λ u. u.id == key && is_null u.deleted_at) db.users), db)
  ]

  -- SELECT ... FROM dbank_transactions t WHERE t.id = ? AND t.deleted_at IS NULL
  unfoldable pub find_transaction : String → Effect Transaction
  find_transaction id db = elim (d.uuid id) [
    | none ↦ none
    | some key ↦ some (
      first transaction_of (select (λ t. t.id == key && is_null t.deleted_at) db.transactions),
      db,
    )
  ]
