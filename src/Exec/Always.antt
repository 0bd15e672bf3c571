-- ===== src/Exec/Always.antt =====
-- Actions whose behaviour is defined from any trace on, and what holds of what they return.
use scion_int_p.Outcome.{Outcome, ok, throw, fault, Ends}
use scion_int_p.Exec.{Trace, Exec, continue, ◌>>=◌}

abbrev pub Always {ℓ} : {A : Type ℓ} → (A → Type 0) → Exec A → Type 0
Always P m = (t : Trace) → Ends P (m t).0

module _ {ℓ κ} {A : Type ℓ} {B : Type κ} (P : A → Type 0) (Q : B → Type 0) where
  Ends-continue :
      (o : Outcome A) (f : A → Exec B) (t : Trace)
      → Ends P o
      → ((a : A) → P a → Always Q (f a))
      → Ends Q (continue o f t).0
  Ends-continue (ok a) f t h k = k a h t
  Ends-continue (throw e) f t h k = tt
  Ends-continue (fault u) f t h k = absurd h

  pub Always-bind :
      (m : Exec A) (f : A → Exec B)
      → Always P m
      → ((a : A) → P a → Always Q (f a))
      → Always Q (m >>= f)
  Always-bind m f h k t = Ends-continue (m t).0 f (m t).1 (h t) k
