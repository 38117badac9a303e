-- ===== src/Status.antt =====
-- Go's error values as the server makes them, and what a fallible call returns: the gRPC statuses
-- of app/store and app/service, the stages that pkg/dbx/tx.go joins, and the drivers' own errors.
pub mod Keeps
pub mod Returns
use dbank.Prelude.{ℕ, String, ◌≡◌, refl, ◌⊎◌, inl, inr}

-- google.golang.org/grpc/codes, those that the server uses.
pub data Code : Type 0 where
  invalid_argument not_found internal : Code

-- ErrFailedToBeginTx, ErrFailedToExecuteTx, ErrFailedToCommitTx.
pub data TxStage : Type 0 where
  begin_tx execute_tx commit_tx : TxStage

-- `status c m` is status.Errorf(c, m); `wrapped c m e` is status.Errorf(c, "m: %v", e);
-- `recoded c e` is status.Errorf(c, "%v", e);
-- `message m` is errors.New(m), `annotated m e` is fmt.Errorf("m: %w", e); `joined s e` is
-- errors.Join(s, e) for a stage, `both e f` is errors.Join(e, f) for two other errors; `driver n` is
-- what a driver returned at its n-th call.
pub data Error : Type 0 where
  status : Code → String → Error
  wrapped : Code → String → Error → Error
  recoded : Code → Error → Error
  joined : TxStage → Error → Error
  driver : ℕ → Error
  message : String → Error
  annotated : String → Error → Error
  both : Error → Error → Error

pub data Result (A : Type 0) : Type 0 where
  ok : A → Result A
  err : Error → Result A

abbrev pub ⊤ : Type 0
⊤ = Unit

pub Result-cases :
    {A : Type 0} (r : Result A) → ((a : A) × (r ≡ ok a)) ⊎ ((e : Error) × (r ≡ err e))
Result-cases (ok a) = inl (a, refl)
Result-cases (err e) = inr (e, refl)

-- The rest of a function after a call that can fail and changes nothing.
abbrev pub and_then : {A B : Type 0} → Result A → (A → Result B) → Result B
and_then (ok a) f = f a
and_then (err e) f = err e

-- A call that reads and writes a state of type S; what was written before an error stays.
abbrev pub Exec : Type 0 → Type 0 → Type 0
Exec S A = S → Result A × S

module _ {S : Type 0} where
  abbrev pub pure : {A : Type 0} → A → Exec S A
  pure a s = (ok a, s)

  abbrev pub raise : {A : Type 0} → Error → Exec S A
  raise e s = (err e, s)

  abbrev pub continue : {A B : Type 0} → Result A → (A → Exec S B) → Exec S B
  continue (ok a) f s = f a s
  continue (err e) f s = (err e, s)

  infixl 5 ◌>>=◌ ◌>>◌
  abbrev pub ◌>>=◌ : {A B : Type 0} → Exec S A → (A → Exec S B) → Exec S B
  ◌>>=◌ m f s = let (r, s') = m s in continue r f s'

  abbrev pub ◌>>◌ : {A B : Type 0} → Exec S A → Exec S B → Exec S B
  m >> k = m >>= λ _. k

  -- A block that returned went through its first call.
  pub continue-eq-ok :
      {A B : Type 0} (r : Result A) (f : A → Exec S B) (s t : S) {b : B}
      → continue r f s ≡ (ok b, t)
      → (a : A) × (r ≡ ok a) × (f a s ≡ (ok b, t))
  continue-eq-ok (ok a) f s t h = (a, refl, h)
  continue-eq-ok (err e) f s t h = cc

-- `if err != nil { return fmt.Errorf("text: %w", err) }` after a call.
abbrev pub annotate : {A : Type 0} → String → Result A → Result A
annotate text (ok a) = ok a
annotate text (err e) = err (annotated text e)

abbrev pub annotating : {S A : Type 0} → String → Exec S A → Exec S A
annotating text call s = let (r, s') = call s in (annotate text r, s')
