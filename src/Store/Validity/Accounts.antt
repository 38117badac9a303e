-- ===== src/Store/Validity/Accounts.antt =====
-- The constraints under CreateAccount, GetAccount, GetAllAccounts and UpdateAccount, whether they
-- return or fail.
use dbank.Prelude.{ℕ, String, ◌≡◌, List, [], ◌∷◌, inl, inr, Bool-cases, sym, subst, arith, ◌==◌}
use dbank.Status.Keeps.{Keeps, >>=-Keeps}
use dbank.Sql.{Driver}
use dbank.Store.Requests.{Float64, CreateUserRequest, UpdateAccountRequest, AccountDetails}
use dbank.Store.Queries.{find_account, find_updated, find_page}
use dbank.Store.Updates.{set_user_names, set_password}
use dbank.Store.Inserts.{insert_user, insert_account, set_account}
use dbank.Store.Accounts.{
  user_pk_of, update_password, add_user, add_account, create_body, create_account, get_account,
  scan_rows, require_some, page_query, page_offset, get_all_accounts, update_user, update_details,
  updated_details, update_body, update_account,
}
use dbank.Store.Validity.{Sound, IsValid}
use dbank.Store.Validity.Effects.{
  find_account-Preserves, find_updated-Preserves, find_page-Preserves,
}
use dbank.Store.Validity.Writes.{
  set_password-Preserves, set_user_names-Preserves, set_account-Preserves, insert_user-Preserves,
  insert_account-Preserves,
}
use dbank.Store.Validity.Operations.{checked-Keeps, run_in_tx-Keeps, user_pk_of-Keeps}

module _ (d : Driver) where
  update_password-Keeps : (pk : ℕ) (password : String) → Keeps Sound (update_password d pk password)
  unfolding update_password
  update_password-Keeps pk password w v = elim (Bool-cases (password == "")) [
    | inl given ↦ rw given v
    | inr missing ↦ rw missing (
        checked-Keeps d _ _ _ _ (set_password pk password) (set_password-Preserves pk password) w v)
  ]

module _ {F : Type 0} (fl : Float64 F) (d : Driver) where
  add_user-Keeps : (now : ℕ) (req : CreateUserRequest F) → Keeps Sound (add_user fl d now req)
  unfolding add_user
  add_user-Keeps now req =
      checked-Keeps d _ _ _ _ (insert_user fl d now req) (insert_user-Preserves fl d now req)

  add_account-Keeps :
      (now : ℕ) (req : CreateUserRequest F) (pk : ℕ) → Keeps Sound (add_account fl d now req pk)
  unfolding add_account
  add_account-Keeps now req pk =
      checked-Keeps d _ _ _ _ (insert_account fl d now req pk)
        (insert_account-Preserves fl d now req pk)

  pub create_account-Keeps : (req : CreateUserRequest F) → Keeps Sound (create_account fl d req)
  unfolding create_account create_body
  create_account-Keeps req w =
      let now = d.clock w.calls in
      run_in_tx-Keeps d (create_body fl d now req)
        (>>=-Keeps Sound (add_user fl d now req) _ (add_user-Keeps now req)
          (add_account-Keeps now req))
        w

  pub get_account-Keeps : (id : String) → Keeps Sound (get_account fl d id)
  unfolding get_account
  get_account-Keeps id =
      checked-Keeps d _ _ _ _ (find_account fl d id) (find_account-Preserves fl d id)

  scan_rows-Keeps : (rows : List (AccountDetails F)) → Keeps Sound (scan_rows fl d rows)
  unfolding scan_rows
  scan_rows-Keeps rows w v =
      let same : (scan_rows fl d rows w).1.db ≡ w.db = ground arith in subst IsValid (sym same) v

  require_some-Keeps : (rows : List (AccountDetails F)) → Keeps Sound (require_some fl d rows)
  require_some-Keeps [] w v = v
  require_some-Keeps (r ∷ rows) w v = v

  page_query-Keeps : (size offset : ℕ) → Keeps Sound (page_query fl d size offset)
  unfolding page_query
  page_query-Keeps size offset =
      checked-Keeps d _ _ _ _ (find_page fl d size offset) (find_page-Preserves fl d size offset)

  pub get_all_accounts-Keeps : (page size : ℕ) → Keeps Sound (get_all_accounts fl d page size)
  unfolding get_all_accounts
  get_all_accounts-Keeps page size =
      >>=-Keeps Sound (page_query fl d size (page_offset page size)) _
        (page_query-Keeps size (page_offset page size))
        (λ found.
          >>=-Keeps Sound (scan_rows fl d found) _ (scan_rows-Keeps found) require_some-Keeps)

  update_user-Keeps :
      (now pk : ℕ) (req : UpdateAccountRequest F) → Keeps Sound (update_user fl d now pk req)
  unfolding update_user
  update_user-Keeps now pk req =
      checked-Keeps d _ _ _ _ (set_user_names now pk req.username req.email)
        (set_user_names-Preserves now pk req.username req.email)

  update_details-Keeps :
      (now pk : ℕ) (req : UpdateAccountRequest F) → Keeps Sound (update_details fl d now pk req)
  unfolding update_details
  update_details-Keeps now pk req =
      checked-Keeps d _ _ _ _ (set_account fl d now pk req) (set_account-Preserves fl d now pk req)

  updated_details-Keeps : (pk : ℕ) → Keeps Sound (updated_details fl d pk)
  unfolding updated_details
  updated_details-Keeps pk =
      checked-Keeps d _ _ _ _ (find_updated fl d pk) (find_updated-Preserves fl d pk)

  update_body-Keeps :
      (now : ℕ) (req : UpdateAccountRequest F) → Keeps Sound (update_body fl d now req)
  unfolding update_body
  update_body-Keeps now req =
      >>=-Keeps Sound (user_pk_of d req.id) _ (user_pk_of-Keeps d req.id) (λ pk.
        >>=-Keeps Sound (update_user fl d now pk req) _ (update_user-Keeps now pk req) (λ _.
          >>=-Keeps Sound (update_password d pk req.password) _
            (update_password-Keeps d pk req.password)
            (λ _.
              >>=-Keeps Sound (update_details fl d now pk req) _ (update_details-Keeps now pk req)
                (λ _. updated_details-Keeps pk))))

  pub update_account-Keeps : (req : UpdateAccountRequest F) → Keeps Sound (update_account fl d req)
  unfolding update_account
  update_account-Keeps req w =
      run_in_tx-Keeps d (update_body fl d (d.clock w.calls) req)
        (update_body-Keeps (d.clock w.calls) req) w
