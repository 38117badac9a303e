-- ===== src/Tests/Names.antt =====
-- Runs of the trimming of names: pkg/log/slog.go.
use dbank.Prelude.{ℕ, ◌≡◌, refl, some, List}
use dbank.Log.{codes, last_index, trim_file_name, trim_func_name, split}
use dbank.Log.Trimming.{Trimmed, trim_file_name-Trimmed}

abbrev file : List ℕ
file = codes "/src/dbank/app/server.go"

file_trimmed : trim_file_name file ≡ some (codes "app/server.go")
unfolding trim_file_name last_index
file_trimmed = refl

function_trimmed : trim_func_name (codes "app.(*Server).Start") ≡ codes "Start"
unfolding trim_func_name split
function_trimmed = refl

trim_file_name-Trimmed_example : Trimmed file (trim_file_name file)
trim_file_name-Trimmed_example = trim_file_name-Trimmed file
