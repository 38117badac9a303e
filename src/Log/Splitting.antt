-- ===== src/Log/Splitting.antt =====
-- trimFuncName of pkg/log/slog.go against the last separator of a name.
use dbank.Prelude.{
  ℕ, suc, ◌≡◌, refl, sym, ◌∙◌, ap, Option, none, some, List, [], ◌∷◌, drop, eqb, Bool-cases, inl,
  inr, arith,
}
use dbank.Log.{last_index, split, last, trim_func_name}

-- What follows the last separator, or the whole name.
abbrev from_index : Option ℕ → List ℕ → List ℕ
from_index none s = s
from_index (some i) s = drop (suc i) s

abbrev pub after_last : ℕ → List ℕ → List ℕ
after_last sep s = from_index (last_index (sep ∷ []) s) s

module _ (sep : ℕ) where
  -- The parts of a name: one if it has no separator; otherwise more, the last of which follows the
  -- last separator.
  data Parts (s : List ℕ) : Type 0 where
    one : last_index (sep ∷ []) s ≡ none → split sep s ≡ s ∷ [] → Parts s
    more :
        (i : ℕ) (p q : List ℕ) (ps : List (List ℕ))
        → last_index (sep ∷ []) s ≡ some i
        → split sep s ≡ p ∷ q ∷ ps
        → last (q ∷ ps) ≡ drop (suc i) s
        → Parts s

  Parts-cons : (c : ℕ) (s : List ℕ) → Parts s → Parts (c ∷ s)
  unfolding split last_index
  Parts-cons c s (one n e) = elim (Bool-cases (eqb c sep)) [
    | inl here ↦ more 0 [] s [] (ground arith) (ground arith) refl
    | inr not_here ↦ one (ground arith) (ground arith)
  ]
  Parts-cons c s (more i p q ps n e l) = elim (Bool-cases (eqb c sep)) [
    | inl here ↦ more (suc i) [] p (q ∷ ps) (ground arith) (ground arith) (ground arith)
    | inr not_here ↦ more (suc i) (c ∷ p) q ps (ground arith) (ground arith) (ground arith)
  ]

  split-Parts : (s : List ℕ) → Parts s
  unfolding split last_index
  split-Parts [] = one refl refl
  split-Parts (c ∷ s) = Parts-cons c s (split-Parts s)

  last-split : (s : List ℕ) → Parts s → last (split sep s) ≡ after_last sep s
  last-split s (one n e) = ap last e ∙ sym (ap (λ o. from_index o s) n)
  last-split s (more i p q ps n e l) = ap last e ∙ l ∙ sym (ap (λ o. from_index o s) n)

-- trimFuncName, which splits at every dot and keeps the last part, keeps what follows the last dot,
-- and the whole name where it has none.
trim_func_name-after_last : (name : List ℕ) → trim_func_name name ≡ after_last b'.' name
unfolding trim_func_name
trim_func_name-after_last name = last-split b'.' name (split-Parts b'.' name)
