-- ===== src/Host/Calls.antt =====
-- What a call of the host, or a block with a deferred cleanup, leaves open.
use dbank.Prelude.{ap, subst, arith}
use dbank.Status.{⊤, Exec}
use dbank.Status.Returns.{Returns}
use dbank.Host.{Host, Platform, invoke, change, deferring, tick}

module _ (P Q : Host → Type 0) where
  pub invoke-Returns :
      (p : Platform) (f : Host → Host)
      → ((h : Host) → P h → Q (f (tick h)))
      → Returns P (invoke p f) Q
  unfolding invoke
  invoke-Returns p f step h h' a k e = subst Q {x = f (tick h)} (ground arith) (step h k)

  pub change-Returns : (f : Host → Host) → ((h : Host) → P h → Q (f h)) → Returns P (change f) Q
  unfolding change
  change-Returns f step h h' a k e = subst Q (ap (λ r. r.1) e) (step h k)

  -- The cleanup runs after the block.
  pub deferring-Returns :
      {A : Type 0} (R : Host → Type 0) (cleanup : Exec Host ⊤) (body : Exec Host A)
      → Returns P body R
      → ((h : Host) → R h → Q (cleanup h).1)
      → Returns P (deferring cleanup body) Q
  unfolding deferring
  deferring-Returns R cleanup body first last h h' a k e =
      subst Q (ap (λ r. r.1) e)
        (last (body h).1 (first h (body h).1 a k (λ i. ((e i).0, (body h).1))))
