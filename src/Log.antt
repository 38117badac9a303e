-- ===== src/Log.antt =====
-- pkg/log/slog.go: the levels, the attributes that the handler changes, and the names that it trims.
-- A name is its list of bytes.
pub mod Trimming
pub mod Splitting
use Prim.Native.Char.{code}
use Prim.Native.String.{String}
use dbank.Prelude.{
  ℕ, suc, ◌+◌, Bool, true, false, ◌&&◌, Option, none, some, List, [], ◌∷◌, ◌++◌, length, drop, leb,
  eqb, ◌==◌, if◌then◌else◌,
}

pub data Level : Type 0 where
  debug info warn error : Level

-- `to_lower` is strings.ToLower.
unfoldable pub get_log_level : (String → String) → String → Level
get_log_level to_lower level =
    if to_lower level == "debug"
    then debug
    else if to_lower level == "info"
    then info
    else if to_lower level == "warn"
    then warn
    else if to_lower level == "error"
    then error
    else info

pub record HandlerOptions : Type 0 where
  pub level : Level
  pub add_source : Bool

-- The options of GetLogger: the source is added for the level "debug" as it is written.
unfoldable pub logger_options : (String → String) → String → HandlerOptions
unfolding get_log_level
logger_options to_lower level = record {
  level = get_log_level to_lower level;
  add_source = level == "debug";
}

-- A record's attributes, and the request ID of the context, if it holds a string.
abbrev pub Attributes : Type 0
Attributes = List (String × String)

unfoldable pub add_request_id : Option String → Attributes → Attributes
add_request_id none attrs = attrs
add_request_id (some request_id) attrs = attrs ++ ("request_id", request_id) ∷ []

unfoldable pub get_request_id : Option String → String
get_request_id none = ""
get_request_id (some request_id) = request_id

abbrev pub codes : String → List ℕ
codes String.[] = []
codes (String.◌∷◌ c s) = code c ∷ codes s

abbrev pub project_name : List ℕ
project_name = codes "dbank"

abbrev pub has_prefix : List ℕ → List ℕ → Bool
has_prefix [] s = true
has_prefix (p ∷ ps) [] = false
has_prefix (p ∷ ps) (c ∷ s) = eqb p c && has_prefix ps s

-- strings.LastIndex
abbrev pub later : Option ℕ → Bool → Option ℕ
later (some i) here = some (suc i)
later none true = some 0
later none false = none

unfoldable pub last_index : List ℕ → List ℕ → Option ℕ
last_index pattern [] = none
last_index pattern (c ∷ s) = later (last_index pattern s) (has_prefix pattern (c ∷ s))

-- `s[from:]`, which panics past the end.
abbrev pub slice_from : List ℕ → ℕ → Option (List ℕ)
slice_from s from = if leb from (length s) then some (drop from s) else none

-- What is left after the last project name and one more byte; `none` is a panic.
unfoldable pub trim_file_name : List ℕ → Option (List ℕ)
trim_file_name name = elim (last_index project_name name) [
  | none ↦ some name
  | some index ↦ slice_from name (index + length project_name + 1)
]

-- strings.Split(s, sep) for a separator of one byte.
abbrev pub onto_first : ℕ → List (List ℕ) → List (List ℕ)
onto_first c [] = (c ∷ []) ∷ []
onto_first c (part ∷ parts) = (c ∷ part) ∷ parts

unfoldable pub split : ℕ → List ℕ → List (List ℕ)
split sep [] = [] ∷ []
split sep (c ∷ s) = let rest = split sep s in if eqb c sep then [] ∷ rest else onto_first c rest

abbrev pub last : List (List ℕ) → List ℕ
last [] = []
last (x ∷ []) = x
last (x ∷ y ∷ xs) = last (y ∷ xs)

unfoldable pub trim_func_name : List ℕ → List ℕ
unfolding split
trim_func_name name = last (split b'.' name)

-- The source of a log entry, as Replacer changes it; `none` is a panic.
pub record Source : Type 0 where
  pub file : List ℕ
  pub function : List ℕ

unfoldable pub replacer : Source → Option Source
unfolding trim_file_name trim_func_name
replacer source = elim (trim_file_name source.file) [
  | none ↦ none
  | some file ↦ some (record { file = file; function = trim_func_name source.function })
]
