-- ===== src/Commands/Migrating.antt =====
-- What a migration command leaves behind: cmd/migrate.go and db/migrate.go.
use mathlib.Core.Bool.{false≢true}
use dbank.Log.{codes, has_prefix}
use dbank.Log.Trimming.{has_prefix-split, has_prefix-append}
use dbank.Prelude.{
  ◌∙◌, ap, List, drop, length, ℕ, String, ◌≡◌, ◌≢◌, refl, sym, subst, false, none, some, ◌⊎◌, inl,
  inr, [], ◌∷◌, ◌++◌, Option-cases, Bool-cases, ◌==◌, eq_iff, arith,
}
use dbank.Status.{⊤, Error, Result, ok, err}
use dbank.Commands.{
  Handle, text, error, Machine, Goose, get_db_config, print, close, run_open, run_migrations,
  migrate_up, migrate_down, check_and_set_db_url, Direction, up, down, missing_url, migrated,
  migrate, report, run_with, migrate_command,
}

abbrev pub word : Direction → String
word up = "up"
word down = "down"

-- The flag is taken before the environment.
abbrev pub Chosen : String → String → String → Type 0
Chosen flag environment db_url =
    ((flag ≢ "") × (db_url ≡ flag)) ⊎ ((flag ≡ "") × (environment ≢ "") × (db_url ≡ environment))

-- A URL of PostgreSQL begins with "postgres"; any other is taken for SQLite.
abbrev pub IsPostgres : String → Type 0
IsPostgres db_url = (rest : List ℕ) × (codes db_url ≡ codes "postgres" ++ rest)

abbrev pub Configured : String → String × String → Type 0
Configured db_url config =
    (IsPostgres db_url × (config ≡ ("pgx", "migrations/postgres")))
    ⊎ ((¬ IsPostgres db_url) × (config ≡ ("sqlite", "migrations/sqlite")))

get_db_config-Configured : (db_url : String) → Configured db_url (get_db_config db_url)
unfolding get_db_config
get_db_config-Configured db_url = elim (Bool-cases (has_prefix (codes "postgres") (codes db_url))) [
  | inl h ↦ inl (
    (
      drop (length (codes "postgres")) (codes db_url),
      has_prefix-split (codes "postgres") (codes db_url) h,
    ),
    ground arith,
  )
  | inr h ↦ inr (
    (λ (rest, e).
        false≢true (
          sym h
          ∙ ap (has_prefix (codes "postgres")) e
          ∙ has_prefix-append (codes "postgres") rest)),
    ground arith,
  )
]

is_not : (a : String) → (a == "") ≡ false → a ≢ ""
is_not a h = ground (arith, eq_iff a "")

check_and_set_db_url-cases :
    (flag environment : String)
    → ((check_and_set_db_url flag environment ≡ none) × (flag ≡ "") × (environment ≡ ""))
      ⊎ (db_url : String) × (check_and_set_db_url flag environment ≡ some db_url)
        × Chosen flag environment db_url
unfolding check_and_set_db_url
check_and_set_db_url-cases flag environment = elim (Bool-cases (flag == "")) [
  | inr f ↦ inr (flag, ground arith, inl (is_not flag f, refl))
  | inl f ↦ elim (Bool-cases (environment == "")) [
    | inl e ↦ inl (ground arith, (eq_iff flag "").0 f, (eq_iff environment "").0 e)
    | inr e ↦
        inr (environment, ground arith, inr ((eq_iff flag "").0 f, is_not environment e, refl))
  ]
]

module _ {S : Type 0} (g : Goose S) where
  abbrev pub handle_of : String → Handle
  handle_of db_url = ((get_db_config db_url).0, db_url)

  abbrev pub ran : Direction → String → S → Result ⊤ × S
  ran d db_url s = g.run (word d) (handle_of db_url) (get_db_config db_url).1 s

  -- The run of goose that a command with this URL makes, and what it reports of it.
  abbrev pub Migrated : Direction → String → Machine S → ℕ × Machine S → Type 0
  Migrated d db_url m (code, m') =
      ((code ≡ 0)
        × (g.open_error (handle_of db_url) m.databases ≡ none)
        × (ran d db_url m.databases ≡ (ok tt, m'.databases))
        × (m'.printed ≡ m.printed ++ text (migrated d) ∷ []))
      ⊎ (e : Error) × (code ≡ 1)
        × (m'.printed ≡ m.printed ++ error e ∷ [])
        × (((g.open_error (handle_of db_url) m.databases ≡ some e) × (m'.databases ≡ m.databases))
            ⊎ ((g.open_error (handle_of db_url) m.databases ≡ none)
                × (ran d db_url m.databases ≡ (err e, m'.databases))))

  Migrated-report :
      (d : Direction) (db_url : String) (m : Machine S) (r : Result ⊤) (s : S)
      → ((h : Handle) → g.holds h ≡ false)
      → g.open_error (handle_of db_url) m.databases ≡ none
      → ran d db_url m.databases ≡ (r, s)
      → let m' =
          close g
            (handle_of db_url)
            (record m { databases = s; handles = handle_of db_url ∷ m.handles }) in
        Migrated d db_url m (report g d r m') × ((report g d r m').1.handles ≡ m.handles)
  Migrated-report d db_url m (ok _) s closes opens e =
      rw (closes (handle_of db_url)) (inl (refl, opens, e, refl), refl)
  Migrated-report d db_url m (err f) s closes opens e =
      rw (closes (handle_of db_url)) (inr (f, refl, refl, inr (opens, e)), refl)

  migrate-run_migrations :
      (d : Direction) (db_url : String) (m : Machine S)
      → migrate g d db_url m ≡ run_migrations g (word d) db_url m
  unfolding migrate_up migrate_down
  migrate-run_migrations up db_url m = refl
  migrate-run_migrations down db_url m = refl

  -- What a command with a URL has done, and that it leaves no handle open.
  abbrev Leaves : Direction → String → Machine S → ℕ × Machine S → Type 0
  Leaves d db_url m o = Migrated d db_url m o × (o.1.handles ≡ m.handles)

  run_migrations-refused :
      (cmd db_url : String) (m : Machine S) (e : Error)
      → g.open_error (handle_of db_url) m.databases ≡ some e
      → run_migrations g cmd db_url m ≡ (err e, m)
  unfolding run_migrations
  run_migrations-refused cmd db_url m e h = rw (h, run_migrations) refl

  run_migrations-opened :
      (cmd db_url : String) (m : Machine S)
      → g.open_error (handle_of db_url) m.databases ≡ none
      → run_migrations g cmd db_url m ≡ run_open g cmd (handle_of db_url) (get_db_config db_url).1 m
  unfolding run_migrations
  run_migrations-opened cmd db_url m h = rw (h, run_migrations) refl

  run_with-Leaves :
      (d : Direction) (db_url : String) (m : Machine S)
      → ((h : Handle) → g.holds h ≡ false)
      → Leaves d db_url m (run_with g d (some db_url) m)
  run_with-Leaves d db_url m closes =
      subst (λ o. Leaves d db_url m (report g d o.0 o.1)) (sym (migrate-run_migrations d db_url m))
        (elim (Option-cases (g.open_error (handle_of db_url) m.databases)) [
          | inl h ↦
              subst (λ o. Leaves d db_url m (report g d o.0 o.1))
                (sym (run_migrations-opened (word d) db_url m h))
                (Migrated-report d db_url m _ _ closes h refl)
          | inr (e, h) ↦
              subst (λ o. Leaves d db_url m (report g d o.0 o.1))
                (sym (run_migrations-refused (word d) db_url m e h))
                (inr (e, refl, refl, inl (h, refl)), refl)
        ])

  -- Without a URL, or with one.
  abbrev pub Outcome : Direction → String → String → Machine S → ℕ × Machine S → Type 0
  Outcome d flag environment m o =
      ((flag ≡ "") × (environment ≡ "") × (o ≡ (1, print (text missing_url) m)))
      ⊎ (db_url : String) × Chosen flag environment db_url
        × Configured db_url (get_db_config db_url)
        × Migrated d db_url m o

  -- A migration command takes its URL from the flag, or else from the environment; without one it
  -- prints what is missing, exits with 1 and changes nothing else. With one it exits with 0 exactly if
  -- goose opened the URL, as PostgreSQL where it begins with "postgres" and as SQLite otherwise, and
  -- its run returned, and with 1 and the error if not; the databases are as that run left them. It
  -- leaves no handle open. The condition is that closing a database does not fail.
  pub migrate_command-Outcome :
      (d : Direction) (flag environment : String) (m : Machine S)
      → ((h : Handle) → g.holds h ≡ false)
      → Outcome d flag environment m (migrate_command g d flag environment m)
        × ((migrate_command g d flag environment m).1.handles ≡ m.handles)
  unfolding migrate_command
  migrate_command-Outcome d flag environment m closes =
      elim (check_and_set_db_url-cases flag environment) [
        | inl (h, f, e) ↦
            subst
              (λ c.
                Outcome d flag environment m (run_with g d c m)
                × ((run_with g d c m).1.handles ≡ m.handles))
              (sym h) (inl (f, e, refl), refl)
        | inr (db_url, h, chosen) ↦
            let (done, kept) = run_with-Leaves d db_url m closes in
            subst
              (λ c.
                Outcome d flag environment m (run_with g d c m)
                × ((run_with g d c m).1.handles ≡ m.handles))
              (sym h) (inr (db_url, chosen, get_db_config-Configured db_url, done), kept)
      ]
