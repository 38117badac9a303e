-- ===== src/Connections/Dialling.antt =====
-- The loop that NewPostgres and NewRabbitMQClient share: how many calls it makes, how long it sleeps,
-- and what it opens.
use mathlib.Core.List.{append-nil, append_assoc}
use dbank.Prelude.{
  ℕ, zero, suc, ◌+◌, ◌-◌, ◌<◌, ◌≤◌, ◌≡◌, refl, ap, sym, ◌∙◌, subst, inl, inr, true, false, [], ◌∷◌,
  ◌++◌, replicate, Bool-cases, arith,
}
use dbank.Status.{driver, Result, ok, err}
use dbank.Host.{Host, Platform, tick}
use dbank.Connections.{dial}

-- The host after `k` calls that failed, each with a sleep.
abbrev pub after_refusals : ℕ → ℕ → Host → Host
after_refusals timeout k h = record h {
  calls = h.calls + k;
  sleeps = h.sleeps ++ replicate k timeout;
}

module _ (p : Platform) where
  -- The first `k` calls from `n` on fail.
  abbrev pub AllFail : ℕ → ℕ → Type 0
  AllFail n k = (j : ℕ) → j < k → p.fails (n + j) ≡ true

  AllFail-suc : (n k : ℕ) → p.fails n ≡ true → AllFail (n + 1) k → AllFail n (suc k)
  AllFail-suc n k first rest zero h = subst (λ i. p.fails i ≡ true) (omega arith) first
  AllFail-suc n k first rest (suc j) h =
      subst (λ i. p.fails i ≡ true) (omega arith) (rest j (omega arith))

module _ (p : Platform) (opens : Host → Host) (timeout : ℕ) where
  -- The outcome of a loop that has some attempts: the first call that succeeds opens the client,
  -- after a sleep for each that failed before it; or all fail, each with its sleep.
  abbrev pub Dialled : ℕ → Host → Result ℕ × Host → Type 0
  Dialled attempts h (ok left, h') =
      (k : ℕ) × (k + left ≡ attempts)
      × (1 ≤ left)
      × AllFail p h.calls k
      × (p.fails (h.calls + k) ≡ false)
      × (h' ≡ opens (tick (after_refusals timeout k h)))
  Dialled attempts h (err e, h') =
      AllFail p h.calls attempts
      × (h' ≡ after_refusals timeout attempts h)
      × (e ≡ driver (h.calls + attempts - 1))

  after_refusals-suc :
      (k : ℕ) (h : Host)
      → after_refusals timeout k (record (tick h) { sleeps = h.sleeps ++ timeout ∷ [] })
        ≡ after_refusals timeout (suc k) h
  after_refusals-suc k h =
      ap
        (λ (c : ℕ). record h {
          calls = c;
          sleeps = (h.sleeps ++ timeout ∷ []) ++ replicate k timeout;
        })
        (omega arith)
      ∙ ap (λ s. record h { calls = h.calls + suc k; sleeps = s })
          (append_assoc h.sleeps (timeout ∷ []) (replicate k timeout))

  Dialled-suc :
      (attempts : ℕ) (h : Host) (r : Result ℕ) (h' : Host)
      → p.fails h.calls ≡ true
      → Dialled attempts (record (tick h) { sleeps = h.sleeps ++ timeout ∷ [] }) (r, h')
      → Dialled (suc attempts) h (r, h')
  Dialled-suc attempts h (ok left) h' first (k, total, some_left, failed, found, after) = (
    suc k,
    omega arith,
    some_left,
    AllFail-suc p h.calls k first failed,
    subst (λ i. p.fails i ≡ false) (omega arith) found,
    after ∙ ap (λ s. opens (tick s)) (after_refusals-suc k h),
  )
  Dialled-suc attempts h (err e) h' first (failed, after, last) = (
    AllFail-suc p h.calls attempts first failed,
    after ∙ after_refusals-suc attempts h,
    last ∙ ap driver (omega arith),
  )

  found_now :
      (attempts : ℕ) (h : Host)
      → 1 ≤ attempts
      → p.fails h.calls ≡ false
      → Dialled attempts h (ok attempts, opens (tick h))
  found_now attempts h some_left e = (
    0,
    omega arith,
    some_left,
    (λ j lt. absurd (omega arith)),
    subst (λ i. p.fails i ≡ false) (omega arith) e,
    ap (λ s. opens (tick s))
        (ap (λ c. record h { calls = c }) (omega arith)
          ∙ ap (λ s. record h { calls = h.calls + 0; sleeps = s }) (sym (append-nil h.sleeps))),
  )

  refused_last :
      (h : Host)
      → p.fails h.calls ≡ true
      → Dialled 1 h (err (driver h.calls), record (tick h) { sleeps = h.sleeps ++ timeout ∷ [] })
  refused_last h e =
      (AllFail-suc p h.calls 0 e (λ j lt. absurd (omega arith)), refl, ap driver (omega arith))

  -- With at least one attempt, the loop opens its client at the first call that succeeds, after a
  -- sleep for each call before it; where every call fails it sleeps after the last one too, opens
  -- nothing, and returns the error of the last.
  pub dial-Dialled :
      (left : ℕ) (last : Result ℕ) (h : Host)
      → Dialled (suc left) h (dial p opens timeout (suc left) last h)
  unfolding dial
  dial-Dialled zero last h = elim (Bool-cases (p.fails h.calls)) [
    | inl e ↦ rw (e, dial) (refused_last h e)
    | inr e ↦ rw (e, dial) (found_now 1 h (omega arith) e)
  ]
  dial-Dialled (suc left) last h = elim (Bool-cases (p.fails h.calls)) [
    | inl e ↦
        rw (e, dial)
          (let rest =
              dial p opens timeout (suc left) (err (driver h.calls))
                (record (tick h) { sleeps = h.sleeps ++ timeout ∷ [] }) in
            Dialled-suc (suc left) h rest.0 rest.1 e (
              dial-Dialled left (err (driver h.calls))
                (record (tick h) { sleeps = h.sleeps ++ timeout ∷ [] })))
    | inr e ↦ rw (e, dial) (found_now (suc (suc left)) h (omega arith) e)
  ]
