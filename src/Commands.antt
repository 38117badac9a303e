-- ===== src/Commands.antt =====
-- db/migrate.go, cmd/migrate.go, cmd/version.go and cmd/root.go: the commands beside `serve`.
pub mod Migrating
use dbank.Prelude.{
  ℕ, ◌+◌, String, Bool, true, false, Option, none, some, List, [], ◌∷◌, ◌++◌, length, take, leb,
  ◌==◌, if◌then◌else◌,
}
use dbank.Status.{⊤, Error, Result, ok, err, Exec}
use dbank.Log.{codes, has_prefix}

-- A database that is open: its driver and its URL.
abbrev pub Handle : Type 0
Handle = String × String

pub data Line : Type 0 where
  text : String → Line
  error : Error → Line

-- What the commands change: the databases, the handles that are open, newest first, and the lines
-- printed, oldest first.
pub record Machine (S : Type 0) : Type 0 where
  pub databases : S
  pub handles : List Handle
  pub printed : List Line

-- goose: the error of OpenDBWithDriver, RunContext by its command, its database and its directory of
-- migrations, and whether Close fails.
pub record Goose (S : Type 0) : Type 0 where
  pub open_error : Handle → S → Option Error
  pub run : String → Handle → String → Exec S ⊤
  pub holds : Handle → Bool

-- The driver and the directory for a URL.
unfoldable pub get_db_config : String → String × String
get_db_config db_url =
    if has_prefix (codes "postgres") (codes db_url)
    then ("pgx", "migrations/postgres")
    else ("sqlite", "migrations/sqlite")

abbrev pub without_newest : List Handle → List Handle
without_newest [] = []
without_newest (_ ∷ handles) = handles

module _ {S : Type 0} where
  abbrev pub print : Line → Machine S → Machine S
  print line m = record m { printed = m.printed ++ line ∷ [] }

  module _ (g : Goose S) where
    abbrev pub close : Handle → Machine S → Machine S
    close h m = if g.holds h then m else record m { handles = without_newest m.handles }

    -- The rest of runMigrations, with its deferred Close, whose error is dropped.
    abbrev pub run_open : String → Handle → String → Exec (Machine S) ⊤
    run_open cmd h directory m =
        let (r, s) = g.run cmd h directory m.databases in
        (r, close h (record m { databases = s; handles = h ∷ m.handles }))

    unfoldable pub run_migrations : String → String → Exec (Machine S) ⊤
    run_migrations cmd db_url m =
        let (driver, directory) = get_db_config db_url in
        elim (g.open_error (driver, db_url) m.databases) [
          | some e ↦ (err e, m)
          | none ↦ run_open cmd (driver, db_url) directory m
        ]

    unfoldable pub migrate_up : String → Exec (Machine S) ⊤
    migrate_up db_url m = run_migrations "up" db_url m

    unfoldable pub migrate_down : String → Exec (Machine S) ⊤
    migrate_down db_url m = run_migrations "down" db_url m

-- checkAndSetDBURL: the flag, or the environment's DB_URL; `none` ends the process.
unfoldable pub check_and_set_db_url : String → String → Option String
check_and_set_db_url flag environment =
    if flag == "" then if environment == "" then none else some environment else some flag

pub data Direction : Type 0 where
  up down : Direction

abbrev pub missing_url : String
missing_url = "set DB_URL environment variable or pass it as a flag --db-url=<db-url>"

abbrev pub migrated : Direction → String
migrated up = "Database migrated up"
migrated down = "Database migrated down"

module _ {S : Type 0} (g : Goose S) where
  abbrev pub migrate : Direction → String → Exec (Machine S) ⊤
  migrate up = migrate_up g
  migrate down = migrate_down g

  -- What a command prints of its result, and its exit code.
  abbrev pub report : Direction → Result ⊤ → Machine S → ℕ × Machine S
  report d (ok _) m = (0, print (text (migrated d)) m)
  report d (err e) m = (1, print (error e) m)

  abbrev pub run_with : Direction → Option String → Machine S → ℕ × Machine S
  run_with d none m = (1, print (text missing_url) m)
  run_with d (some db_url) m = let (r, m') = migrate d db_url m in report d r m'

  -- `dbank migrate up` or `dbank migrate down`: checkAndSetDBURL, then the command.
  unfoldable pub migrate_command : Direction → String → String → Machine S → ℕ × Machine S
  migrate_command d flag environment m = run_with d (check_and_set_db_url flag environment) m

-- `s[:to]`, which panics past the end.
abbrev pub slice_to : List ℕ → ℕ → Option (List ℕ)
slice_to s to = if leb to (length s) then some (take to s) else none

abbrev revision_in : List (String × String) → Option (List ℕ)
revision_in [] = some []
revision_in ((key, value) ∷ settings) =
    if key == "vcs.revision" then slice_to (codes value) 10 else revision_in settings

-- The first ten bytes of the build's revision, if debug.ReadBuildInfo has settings; `none` is a panic.
unfoldable pub get_commit_hash : Option (List (String × String)) → Option (List ℕ)
get_commit_hash none = some []
get_commit_hash (some settings) = revision_in settings
