-- ===== src/Log/Trimming.antt =====
-- What the functions of pkg/log/slog.go that trim a name leave of it.
use dbank.Prelude.{
  ℕ, suc, ◌+◌, ◌≡◌, ◌≢◌, refl, ap, sym, subst, ◌∙◌, ◌⊎◌, inl, inr, Bool, true, false, Option, none,
  some, List, [], ◌∷◌, ◌++◌, length, drop, Option-cases, length-append, arith,
}
use mathlib.Core.List.{append_assoc, append-nil}
use dbank.Log.{project_name, has_prefix, later, last_index, slice_from, trim_file_name, split}

abbrev tail : List ℕ → List ℕ
tail [] = []
tail (x ∷ xs) = xs

pub has_prefix-split : (p s : List ℕ) → has_prefix p s ≡ true → s ≡ p ++ drop (length p) s
has_prefix-split [] s h = refl
has_prefix-split (p ∷ ps) [] h = cc
has_prefix-split (p ∷ ps) (c ∷ s) h = ground (arith, has_prefix-split ps s)

pub has_prefix-append : (p s : List ℕ) → has_prefix p (p ++ s) ≡ true
has_prefix-append [] s = refl
has_prefix-append (p ∷ ps) s = ground (arith, has_prefix-append ps s)

-- The pattern stands nowhere in the text.
abbrev pub Absent : List ℕ → List ℕ → Type 0
Absent p s = (pre rest : List ℕ) → s ≢ pre ++ (p ++ rest)

module _ (q : ℕ) (ps : List ℕ) where
  abbrev pattern_ : List ℕ
  pattern_ = q ∷ ps

  -- Where the pattern was found: the text before it, and the text after it, in which it does not
  -- stand again.
  abbrev Found : List ℕ → ℕ → Type 0
  Found s i =
      (pre : List ℕ) × (rest : List ℕ) × (s ≡ pre ++ (pattern_ ++ rest))
      × (length pre ≡ i)
      × Absent pattern_ rest

  later-none : (r : Option ℕ) (b : Bool) → later r b ≡ none → (r ≡ none) × (b ≡ false)
  later-none (some i) b h = cc
  later-none none true h = cc
  later-none none false h = (refl, refl)

  last_index-Absent : (s : List ℕ) → last_index pattern_ s ≡ none → Absent pattern_ s
  unfolding last_index
  last_index-Absent [] h [] rest e = cc
  last_index-Absent [] h (x ∷ pre) rest e = cc
  last_index-Absent (c ∷ s) h [] rest e =
      let (_, miss) = later-none (last_index pattern_ s) (has_prefix pattern_ (c ∷ s)) h in
      let hit =
        subst (λ t. has_prefix pattern_ t ≡ true) (sym e) (has_prefix-append pattern_ rest) in
      cc
  last_index-Absent (c ∷ s) h (x ∷ pre) rest e =
      let (gone, _) = later-none (last_index pattern_ s) (has_prefix pattern_ (c ∷ s)) h in
      last_index-Absent s gone pre rest (ap tail e)

  by_later :
      (c : ℕ) (s : List ℕ) (r : Option ℕ) (b : Bool) (i : ℕ)
      → last_index pattern_ s ≡ r
      → has_prefix pattern_ (c ∷ s) ≡ b
      → later r b ≡ some i
      → ((j : ℕ) → last_index pattern_ s ≡ some j → Found s j)
      → Found (c ∷ s) i
  by_later c s (some j) b i e e' h rec =
      let (pre, rest, split, at, absent) = rec j e in
      (c ∷ pre, rest, ap (λ t. c ∷ t) split, ground arith, absent)
  by_later c s none true i e e' h rec =
      let split = has_prefix-split pattern_ (c ∷ s) e' in
      (
        [],
        drop (length pattern_) (c ∷ s),
        split,
        ground arith,
        (λ pre rest q.
            last_index-Absent s e (ps ++ pre) rest
              (ap tail split ∙ ap (λ t. ps ++ t) q ∙ sym (append_assoc ps pre (pattern_ ++ rest)))),
      )
  by_later c s none false i e e' h rec = cc

  last_index-Found : (s : List ℕ) (i : ℕ) → last_index pattern_ s ≡ some i → Found s i
  unfolding last_index
  last_index-Found [] i h = cc
  last_index-Found (c ∷ s) i h =
      by_later c s (last_index pattern_ s) (has_prefix pattern_ (c ∷ s)) i refl refl h
        (last_index-Found s)

drop-append : (xs ys : List ℕ) → drop (length xs + 1) (xs ++ ys) ≡ drop 1 ys
drop-append [] ys = refl
drop-append (x ∷ xs) ys =
    ap (λ n. drop n (x ∷ (xs ++ ys))) {y = suc (length xs + 1)} (omega arith) ∙ drop-append xs ys

-- What is left of `xs ++ ys` after `xs` and one more byte.
slice_past : (xs ys : List ℕ) → slice_from (xs ++ ys) (length xs + 1) ≡ slice_from ys 1
slice_past xs ys = ground (arith, drop-append xs ys, length-append {0} xs ys)

slice_one : (c : ℕ) (r : List ℕ) → slice_from (c ∷ r) 1 ≡ some r
slice_one c r = ground arith

-- A name that is left whole, one that is cut after its last project name and the byte behind it,
-- and one that ends in the project name.
abbrev pub Trimmed : List ℕ → Option (List ℕ) → Type 0
Trimmed name (some r) =
    ((r ≡ name) × Absent project_name name)
    ⊎ ((pre : List ℕ) × (c : ℕ) × (name ≡ pre ++ (project_name ++ c ∷ r))
        × Absent project_name (c ∷ r))
Trimmed name none = (pre : List ℕ) × (name ≡ pre ++ project_name)

by_rest :
    (name pre rest : List ℕ)
    → name ≡ pre ++ (project_name ++ rest)
    → Absent project_name rest
    → Trimmed name (slice_from rest 1)
by_rest name pre [] e absent = (pre, e ∙ ap (λ t. pre ++ t) (append-nil project_name))
by_rest name pre (c ∷ r) e absent = rw (slice_one c r) (inr (pre, c, e, absent))

trim-missing :
    (name : List ℕ) → last_index project_name name ≡ none → trim_file_name name ≡ some name
unfolding trim_file_name
trim-missing name e = rw (e, trim_file_name) refl

-- Where the project name was found, the cut is behind it and one more byte.
trim-found :
    (name pre rest : List ℕ)
    → last_index project_name name ≡ some (length pre)
    → name ≡ pre ++ (project_name ++ rest)
    → trim_file_name name ≡ slice_from rest 1
unfolding trim_file_name
trim-found name pre rest e split =
    rw (e, trim_file_name)
      (ap (λ n. slice_from name n) {y = length (pre ++ project_name) + 1}
          (omega (arith, length-append {0} pre project_name))
        ∙ ap (λ t. slice_from t (length (pre ++ project_name) + 1))
            (split ∙ sym (append_assoc pre project_name rest))
        ∙ slice_past (pre ++ project_name) rest)

-- A path without the project name is left whole; any other is cut after the last project name and
-- the byte behind it, or panics where no byte is behind it.
pub trim_file_name-Trimmed : (name : List ℕ) → Trimmed name (trim_file_name name)
trim_file_name-Trimmed name = elim (Option-cases (last_index project_name name)) [
  | inl e ↦ rw (trim-missing name e) (inl (refl, last_index-Absent _ _ name e))
  | inr (i, e) ↦
      let (pre, rest, split, at, absent) = last_index-Found _ _ name i e in
      rw (trim-found name pre rest (e ∙ ap some (sym at)) split)
        (by_rest name pre rest split absent)
]

-- The last place of the project name in a text that ends with it.
last_index-end : (pre : List ℕ) → last_index project_name (pre ++ project_name) ≡ some (length pre)
unfolding last_index
last_index-end [] = refl
last_index-end (c ∷ pre) = rw (last_index-end pre) refl

-- Every path that ends in the project name makes the function panic.
trim_file_name-panics : (pre : List ℕ) → trim_file_name (pre ++ project_name) ≡ none
trim_file_name-panics pre = trim-found (pre ++ project_name) pre [] (last_index-end pre) refl
