-- ===== src/Tests/Accounts.antt =====
-- Runs of the account queries of app/store/store.go.
use mathlib.Core.List.{Memᴰ as Member}
use dbank.Store.Accounts.{delete_account, delete_body, user_pk_of, remove_accounts, remove_user}
use dbank.Store.Queries.{find_user_pk}
use dbank.Store.Updates.{delete_accounts, delete_user}
use dbank.Store.Accounts.Deleting.{IdsUnique, delete_account-forgets}
use dbank.Prelude.{ap, sym, ◌∙◌, String, eq_iff, ◌≡◌, ◌≢◌, refl, [], arith}
use dbank.Prelude.Int.{ℤ}
use dbank.Status.{ok}
use dbank.Sql.{statement, checked}
use dbank.Store.Requests.{AccountDetails, CreateUserRequest}
use dbank.Store.Queries.{details, find_account}
use dbank.Store.Accounts.{
  get_account, get_all_accounts, create_account, create_body, add_user, add_account,
}
use dbank.Store.Inserts.{insert_user, insert_account}
use dbank.Tx.{run_in_tx}
use dbank.Store.Accounts.Paging.{get_all_accounts-page_zero}
use dbank.Tests.World.{
  floats, named_columns, healthy, driver_over-DeliversOnly, shared, user, account,
}
use dbank.Prelude.Int.{pos}

abbrev alice : AccountDetails ℤ
alice = details floats healthy (user 1 "alice", account 1 "alice" (pos 100))

alice-found :
    get_account floats healthy "alice" shared.world
    ≡ (ok alice, (get_account floats healthy "alice" shared.world).1)
unfolding get_account statement checked find_account
alice-found = refl

get_all_accounts-page_zero_example :
    get_all_accounts floats healthy 0 10 shared.world ≢ (ok [], shared.world)
get_all_accounts-page_zero_example =
    get_all_accounts-page_zero floats healthy 10 shared.world shared.world [] (omega arith)
      (omega arith)

abbrev newcomer : CreateUserRequest ℤ
newcomer = record {
  id = "carol";
  username = "carol";
  email = "carol";
  password = "hash";
  account_id = "account-3";
  account_name = "main";
  account_type = "savings";
  account_number = "3";
  balance = pos 20;
  currency = "EUR";
  status = "active";
}

newcomer-created : (create_account floats healthy newcomer shared.world).0 ≡ ok tt
unfolding create_account create_body add_user add_account insert_user insert_account run_in_tx
    statement checked
newcomer-created = refl

distinct : ◌≢◌ {A = String} "alice" "bob"
distinct = ground (arith, eq_iff "alice" "bob")

shared-IdsUnique : IdsUnique shared.world.db.users
shared-IdsUnique u v m n e = elim m [
  | Member.head p ↦ elim n [
    | Member.head q ↦ ap (λ x. x.pk) (p ∙ sym q)
    | Member.tail (Member.head q) ↦
        absurd (distinct (sym (ap (λ x. x.id) p) ∙ e ∙ ap (λ x. x.id) q))
    | Member.tail (Member.tail q) ↦ elim q [ ]
  ]
  | Member.tail (Member.head p) ↦ elim n [
    | Member.head q ↦ absurd (distinct (sym (ap (λ x. x.id) q) ∙ sym e ∙ ap (λ x. x.id) p))
    | Member.tail (Member.head q) ↦ ap (λ x. x.pk) (p ∙ sym q)
    | Member.tail (Member.tail q) ↦ elim q [ ]
  ]
  | Member.tail (Member.tail p) ↦ elim p [ ]
]

alice-deleted :
    delete_account healthy "alice" shared.world
    ≡ (ok tt, (delete_account healthy "alice" shared.world).1)
unfolding delete_account delete_body user_pk_of remove_accounts remove_user find_user_pk
    delete_accounts delete_user run_in_tx statement checked
alice-deleted = refl

delete_account-forgets_example :
    get_account floats healthy "alice" (delete_account healthy "alice" shared.world).1
    ≢ (ok alice, shared.world)
delete_account-forgets_example =
    delete_account-forgets floats healthy "alice" shared.world
      (delete_account healthy "alice" shared.world).1
      (delete_account healthy "alice" shared.world).1 shared.world
      (driver_over-DeliversOnly named_columns) shared-IdsUnique alice-deleted refl
