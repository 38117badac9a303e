-- ===== src/Store/Accounts/Paging.antt =====
-- The paging of GetAllAccounts in app/store/store.go.
pub mod Walk
use dbank.Prelude.{ℕ, ◌+◌, ◌-◌, ◌*◌, ◌%◌, ◌^◌, ◌≤◌, ◌<◌, ◌≡◌, ◌≢◌, sym, ◌∙◌, List, ◌∷◌, none, arith}
use mathlib.Core.Option.{none-ne-some}
use native.Mathlib.Nat.{mod-eq_of_lt}
use dbank.Status.{ok}
use dbank.Sql.Steps.{>>=-eq-ok, statement-eq-ok}
use dbank.Sql.{Driver, Database, World, users, knows}
use dbank.Store.Requests.{Float64, AccountDetails}
use dbank.Store.Queries.{bigint_limit, find_page}
use dbank.Store.Accounts.{page_offset, page_query, get_all_accounts, internal_error, live_columns}

page_less : (page : ℕ) → 1 ≤ page → page < 2 ^ 64 → (page + 2 ^ 64 - 1) % 2 ^ 64 ≡ page - 1
page_less page h k = omega arith

-- From page 1 on, a page begins after the rows of the pages before it, as long as their number fits
-- 64 bits.
pub page_offset-eq :
    (page page_size : ℕ)
    → 1 ≤ page
    → page < 2 ^ 64
    → (page - 1) * page_size < 2 ^ 64
    → page_offset page page_size ≡ (page - 1) * page_size
unfolding page_offset
page_offset-eq page page_size h k l = rw (page_less page h k) (mod-eq_of_lt l)

page_zero : (s : ℕ) → 1 ≤ s → s ≤ 2 ^ 63 → (page_offset 0 s ≡ 2 ^ 64 - s)
unfolding page_offset
page_zero s h k = omega arith

module _ {F : Type 0} (fl : Float64 F) (d : Driver) where
  find_page-over :
      (limit offset : ℕ) (db : Database)
      → bigint_limit ≤ offset
      → find_page fl d limit offset db ≡ none
  unfolding find_page
  find_page-over limit offset db h = ground arith

  -- A page 0 of any size from 1 to 2^63 is never answered: its offset wraps to a number that no
  -- bigint holds.
  pub get_all_accounts-page_zero :
      (page_size : ℕ) (w w' : World) (rows : List (AccountDetails F))
      → 1 ≤ page_size
      → page_size ≤ 2 ^ 63
      → get_all_accounts fl d 0 page_size w ≢ (ok rows, w')
  unfolding get_all_accounts page_query
  get_all_accounts-page_zero s w w' rows h k q =
      let (found, w₁, e, _) = >>=-eq-ok (page_query fl d s (page_offset 0 s)) _ w w' q in
      let (_, _, effect) =
        statement-eq-ok d (internal_error "failed to build SQL query")
          (internal_error "failed to query accounts") (internal_error "failed to query accounts")
          (knows d ((users, "created_at") ∷ live_columns)) (find_page fl d s (page_offset 0 s)) w w₁
          e in
      none-ne-some _
        (sym (find_page-over s (page_offset 0 s) w.db (omega (arith, page_zero s h k))) ∙ effect)
