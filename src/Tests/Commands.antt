-- ===== src/Tests/Commands.antt =====
-- A run of a migration command: cmd/migrate.go over db/migrate.go.
use dbank.Prelude.{String, ◌≡◌, refl, false, none, List, [], ◌∷◌, ◌++◌}
use dbank.Status.{ok}
use dbank.Commands.{Machine, Goose, up, migrate_command}
use dbank.Commands.Migrating.{Outcome, migrate_command-Outcome}

-- A database is the migrations that were run on it.
abbrev goose : Goose (List String)
goose = record {
  open_error = λ _ _. none;
  run = λ cmd _ directory runs. (ok tt, runs ++ directory ∷ cmd ∷ []);
  holds = λ _. false;
}

abbrev machine : Machine (List String)
machine = record { databases = []; handles = []; printed = [] }

migrate_command-Outcome_example :
    Outcome goose up "" "postgres://db" machine
      (migrate_command goose up "" "postgres://db" machine)
    × ((migrate_command goose up "" "postgres://db" machine).1.handles ≡ [])
migrate_command-Outcome_example =
    migrate_command-Outcome goose up "" "postgres://db" machine (λ h. refl)
