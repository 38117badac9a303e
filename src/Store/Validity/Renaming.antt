-- ===== src/Store/Validity/Renaming.antt =====
-- UPDATE dbank_users SET username, email WHERE pk = ?, which checks the UNIQUE columns.
use dbank.Prelude.{
  ℕ, ◌≡◌, ◌≢◌, refl, sym, ◌∙◌, ap₂, subst, ◌<◌, Bool, true, false, ◌||◌, ◌&&◌, not, eqb, ◌==◌, List,
  [], ◌∷◌, All, inl, inr, Bool-cases, if◌then◌else◌, eq_iff, arith, String,
}
use dbank.Prelude.Distinct.{Distinct, All-changed, Distinct-map}
use dbank.Prelude.Member.{All-map}
use dbank.Sql.{User}
use dbank.Store.Queries.{any}
use dbank.Store.Updates.{update_users}
use dbank.Store.Validity.{has_user, ValidUsers}
use dbank.Store.Validity.Rows.{All-none}

-- `key` is set to `new` in the row under `pk`, and no other row has it.
module _ (pk : ℕ) (f : User → User) (key : User → String) (new : String)
    (sets : (u : User) → key (f u) ≡ new) where
  abbrev Free : User → Type 0
  Free u = eqb u.pk pk ≡ false → key u ≢ new

  abbrev change : User → User
  change u = if eqb u.pk pk then f u else u

  still : (u : User) → eqb u.pk pk ≡ false → key (change u) ≡ key u
  still u e = ground arith

  renamed : (u : User) → eqb u.pk pk ≡ true → key (change u) ≡ new
  renamed u e = let s = sets u in ground arith

  -- Rows that are not under `pk` and do not have the new text.
  away :
      (us : List User)
      → All (λ u. (eqb u.pk pk ≡ false) × (key u ≢ new)) us
      → All (λ u. key (change u) ≢ new) us
  away [] h = tt
  away (u ∷ us) h = ((λ e. h.0.1 (sym (still u h.0.0) ∙ e)), away us h.1)

  -- A row that is not under `pk` keeps a text of its own.
  apart :
      (u : User)
      → Free u
      → eqb u.pk pk ≡ false
      → (v : User) → key v ≢ key u
      → key (change v) ≢ key (change u)
  apart u free other v n e = elim (Bool-cases (eqb v.pk pk)) [
    | inl here ↦ free other (sym (still u other) ∙ sym e ∙ renamed v here)
    | inr there ↦ n (sym (still v there) ∙ e ∙ still u other)
  ]

  others :
      (u : User) (us : List User)
      → eqb u.pk pk ≡ true
      → All (λ v. v.pk ≢ u.pk) us
      → All Free us
      → All (λ v. (eqb v.pk pk ≡ false) × (key v ≢ new)) us
  others u [] here pks free = tt
  others u (v ∷ us) here pks free =
      let n : v.pk ≢ u.pk = pks.0 in
      let there : eqb v.pk pk ≡ false = ground arith in
      ((there, free.0 there), others u us here pks.1 free.1)

  head_apart :
      (u : User) (us : List User)
      → All (λ v. v.pk ≢ u.pk) us
      → All Free (u ∷ us)
      → All (λ v. key v ≢ key u) us
      → All (λ v. key (change v) ≢ key (change u)) us
  head_apart u us pks free d = elim (Bool-cases (eqb u.pk pk)) [
    | inl here ↦
        All-map (λ v. key (change v) ≢ new) (λ v. key (change v) ≢ key (change u)) us
          (λ v n e. n (e ∙ renamed u here)) (away us (others u us here pks free.1))
    | inr there ↦
        All-map (λ v. key v ≢ key u) (λ v. key (change v) ≢ key (change u)) us
          (apart u free.0 there) d
  ]

  pub Distinct-rename :
      (us : List User)
      → Distinct (λ u. u.pk) us
      → All Free us
      → Distinct key us
      → Distinct key (update_users pk f us)
  Distinct-rename [] pks free d = tt
  Distinct-rename (u ∷ us) pks free d = (
    All-changed (λ v. key (change v) ≢ key (change u)) (λ v. key v ≢ key (change u)) change us
        (λ v n. n) (head_apart u us pks.0 free d.0),
    Distinct-rename us pks.1 free.1 d.1,
  )

update_users-absent :
    (pk : ℕ) (f : User → User) (us : List User)
    → All (λ u. eqb u.pk pk ≡ false) us
    → update_users pk f us ≡ us
update_users-absent pk f [] h = refl
update_users-absent pk f (u ∷ us) h =
    let absent = h.0 in
    let same : (if eqb u.pk pk then f u else u) ≡ u = ground arith in
    ap₂ ◌∷◌ same (update_users-absent pk f us h.1)

module _ (now pk : ℕ) (username email : String) where
  abbrev rename : User → User
  rename u = record u { username = username; email = email; updated_at = now }

  abbrev clashes : User → Bool
  clashes u = not (eqb u.pk pk) && (u.username == username || u.email == email)

  unclaimed :
      (us : List User) (n : ℕ)
      → any clashes us ≡ false
      → ValidUsers us n
      → ValidUsers (update_users pk rename us) n
  unclaimed us n h v =
      let free = All-none clashes us h in
      record {
        drawn =
            All-changed (λ u. u.pk < n) (λ u. u.pk < n) (λ u. if eqb u.pk pk then rename u else u)
              us (λ u k. ground arith) v.drawn;
        pks =
            Distinct-map (λ u. u.pk) (λ u. if eqb u.pk pk then rename u else u) us
              (λ u. ground arith) v.pks;
        ids =
            Distinct-map (λ u. u.id) (λ u. if eqb u.pk pk then rename u else u) us
              (λ u. ground arith) v.ids;
        usernames =
            Distinct-rename pk rename (λ u. u.username) username (λ u. refl) us v.pks
              (All-map (λ u. clashes u ≡ false) (λ u. eqb u.pk pk ≡ false → u.username ≢ username)
                us (λ u c k e. ground (arith, eq_iff u.username username)) free)
              v.usernames;
        emails =
            Distinct-rename pk rename (λ u. u.email) email (λ u. refl) us v.pks
              (All-map (λ u. clashes u ≡ false) (λ u. eqb u.pk pk ≡ false → u.email ≢ email) us
                (λ u c k e. ground (arith, eq_iff u.email email)) free)
              v.emails;
      }

  -- The statement's own check leaves the users valid: either no row is under `pk`, or no other row has
  -- the new name or the new address.
  pub ValidUsers-rename :
      (us : List User) (n : ℕ)
      → has_user pk us && any clashes us ≡ false
      → ValidUsers us n
      → ValidUsers (update_users pk rename us) n
  ValidUsers-rename us n h v = elim (Bool-cases (has_user pk us)) [
    | inl here ↦ let free : any clashes us ≡ false = ground arith in unclaimed us n free v
    | inr none ↦
        subst (λ l. ValidUsers l n)
          (sym (update_users-absent pk rename us (All-none (λ u. eqb u.pk pk) us none))) v
  ]
