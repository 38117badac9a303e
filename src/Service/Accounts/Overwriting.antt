-- ===== src/Service/Accounts/Overwriting.antt =====
-- An update of app/service/accounts.go that leaves out the balance, with other requests between its
-- reads and its writes.
use mathlib.Core.List.{Memᴰ as Member}
use mathlib.Core.List.Memᴰ as Memᴰ
use mathlib.Core.Option.{some-injective}
use dbank.Prelude.{
  ℕ, String, ◌≡◌, sym, ap, ◌∙◌, subst, not, some, inl, inr, List, ◌==◌, if◌then◌else◌, eqb, arith,
  Bool-cases,
}
use dbank.Prelude.Int.{ℤ}
use dbank.Status.{ok, internal, not_found}
use dbank.Sql.{Driver, Database, User, Account}
use dbank.Sql.Steps.{>>=-eq-ok}
use dbank.Store.Requests.{Float64, AccountDetails}
use dbank.Store.Requests.{UpdateAccountRequest as StoreUpdate}
use dbank.Store.Accounts.{get_account, update_account}
use dbank.Store.Updates.{update_accounts}
use dbank.Store.Accounts.Lookup.{DeliversOnly, Answers}
use dbank.Store.Accounts.Updating.{Revised, revised}
use dbank.Store.Accounts.Updating.Changing.{Changed, update_account-Changed}
use dbank.Service.Accounts.Parts.{prepare_update, apply_update}
use dbank.Service.Bank.{Bank, require, or_wrap}
use dbank.Service.Calls.{or_wrap-eq-ok}
use dbank.Service.Accounts.{
  UpdateAccountRequest, AccountResponse, Secrets, id_required, hash_given, balance_given,
}
use dbank.Service.Accounts.Updating.{Valued, balance_given-Valued, found_in}
use dbank.Service.Calls.Quiet.{Same, require-Same}

module _ {F : Type 0} (fl : Float64 F) (sec : Secrets) (d : Driver) where
  owned_balance :
      (now pk : ℕ) (update : StoreUpdate F) (stored : ℤ) (a b : Account)
      → (if eqb a.user_pk pk then revised fl d now update stored a else a) ≡ b
      → b.user_pk ≡ pk
      → b.balance ≡ stored
  owned_balance now pk update stored a b e o = elim (Bool-cases (eqb a.user_pk pk)) [
    | inl h ↦ let e' = rw h at e in ap (λ (x : Account). x.balance) (sym e')
    | inr h ↦ let e' = rw h at e in absurd (ground (arith, ap (λ (x : Account). x.user_pk) e'))
  ]

  -- All accounts of one user get the stored balance.
  balances-updated :
      (now pk : ℕ) (update : StoreUpdate F) (stored : ℤ) (accounts : List Account) (b : Account)
      → Member b (update_accounts pk (revised fl d now update stored) accounts)
      → b.user_pk ≡ pk
      → b.balance ≡ stored
  balances-updated now pk update stored accounts b m o =
      let (a, m', e) = Memᴰ.of_map _ accounts m in owned_balance now pk update stored a b e o

  module _ (req : UpdateAccountRequest) where
    -- The account that was read at `before`, and the accounts of the same id's user after a write
    -- that began at `between`.
    pub record Overwritten (before between after : Database) : Type 0 where
      pub key : String
      pub key_is : d.uuid req.id ≡ some key
      pub reader : User
      pub read : Account
      pub reader_is : Member reader before.users
      pub read_is : Member read before.accounts
      pub reader_found : reader.id ≡ key
      pub read_owner : read.user_pk ≡ reader.pk
      pub writer : User
      pub writer_is : Member writer between.users
      pub writer_found : writer.id ≡ key
      pub overwritten :
          (a : Account) → Member a after.accounts → a.user_pk ≡ writer.pk → a.balance ≡ read.balance

    kept :
        (existing : AccountDetails F) (balance : F)
        → req.account_balance ≡ ""
        → Valued fl sec d req existing.balance balance
        → balance ≡ existing.balance
    kept existing balance empty (inl (_, e)) = e
    kept existing balance empty (inr (given, _)) = absurd (given empty)

    prepare_update-eq-ok :
        (b c : Bank) {update : StoreUpdate F}
        → DeliversOnly d
        → req.account_balance ≡ ""
        → prepare_update fl sec d req b ≡ (ok update, c)
        → (existing : AccountDetails F) × Answers fl d req.id b.world.db existing
          × (update.id ≡ req.id)
          × (update.balance ≡ existing.balance)
    unfolding prepare_update
    prepare_update-eq-ok b c {update} only empty h =
        let (_, u, e0, h1) = >>=-eq-ok (require (not (req.id == "")) id_required) _ b c h in
        let same = subst (λ p. Same b p.1) e0 (require-Same (not (req.id == "")) id_required b) in
        let (existing, v, e1, h2) =
          >>=-eq-ok (or_wrap not_found "account not found" (get_account fl d req.id)) _ u c h1 in
        let (hashed, w, _, h3) = >>=-eq-ok (hash_given fl sec d req.password) _ v c h2 in
        let (balance, x, e3, h4) =
          >>=-eq-ok (balance_given fl sec d req.account_balance existing.balance) _ w c h3 in
        let is_kept =
          kept existing balance empty
            (balance_given-Valued fl sec d req existing.balance w x balance e3) in
        (existing, found_in fl sec d req b u v only same existing e1, ground arith, ground arith)

    -- An update without a balance, which was prepared from one state of the bank and is written to any
    -- other, gives all accounts of the user the balance that was read, whatever has become of them in
    -- between. The conditions are that a query delivers only its own rows, and that the
    -- balances which are read are stored as they were.
    pub apply_update-Overwritten :
        (b b' c c' : Bank) {update : StoreUpdate F} {response : AccountResponse}
        → DeliversOnly d
        → ((a : Account)
            → Member a b.world.db.accounts
            → fl.bind (fl.scan a.balance) ≡ some a.balance)
        → req.account_balance ≡ ""
        → prepare_update fl sec d req b ≡ (ok update, b')
        → apply_update fl sec d update c ≡ (ok response, c')
        → Overwritten b.world.db c.world.db c'.world.db
    unfolding apply_update
    apply_update-Overwritten b b' c c' {update} only exact empty h k =
        let (existing, a, id_is, balance_is) = prepare_update-eq-ok b b' only empty h in
        let (answer, u, e, same) =
          >>=-eq-ok (or_wrap internal "failed to update account" (update_account fl d update)) _ c
            c' k in
        let (written, _) =
          or_wrap-eq-ok internal "failed to update account" (update_account fl d update) c u e in
        let r : Revised fl d (d.clock c.world.calls) update c.world.db u.world.db answer =
          subst (Changed fl d update c.world) written
            (update_account-Changed fl d update c.world only) in
        let stored_is : r.stored ≡ a.account.balance = some-injective _ _ (
          sym r.stored_is
          ∙ ap fl.bind (balance_is ∙ ap (λ (v : AccountDetails F). v.balance) a.answer_is)
          ∙ exact a.account a.account_is) in
        let ended : u ≡ c' = ap (λ p. p.1) same in
        record {
          key = a.key;
          key_is = a.key_is;
          reader = a.user;
          read = a.account;
          reader_is = a.user_is;
          read_is = a.account_is;
          reader_found = a.found;
          read_owner = a.owner;
          writer = r.user;
          writer_is = r.user_is;
          writer_found = r.found ∙ some-injective _ _ (sym r.key_is ∙ ap d.uuid id_is ∙ a.key_is);
          overwritten = λ x m own.
              let m' = subst (λ (t : Bank). Member x t.world.db.accounts) (sym ended) m in
              let m'' = subst (λ (db : Database). Member x db.accounts) r.after_is m' in
              balances-updated (d.clock c.world.calls) r.user.pk update r.stored c.world.db.accounts
                x m'' own
              ∙ stored_is;
        }
