-- ===== src/Exec/Runs.antt =====
-- What holds of the result of an action and of the requests that it makes.
use scion_int_p.Prelude.{
  ◌≡◌, refl, sym, ap, ◌∙◌, List, [], ◌∷◌, ◌++◌, All, All-append, append_assoc, append-nil,
}
use scion_int_p.Outcome.{Outcome, ok, throw, fault}
use scion_int_p.Exec.{Effect, Trace, Exec, continue, ◌>>=◌, pure, request}

abbrev pub Holds {ℓ} : {A : Type ℓ} → (A → Type 0) → Outcome A → Type 0
Holds P (ok a) = P a
Holds P (throw e) = Unit {0}
Holds P (fault u) = Unit {0}

-- From any trace on, the result satisfies `P`, if there is one, and each request satisfies `Q`.
pub record Run {ℓ} {A : Type ℓ} (P : A → Type 0) (Q : Effect → Type 0) (t : Trace)
    (r : Outcome A × Trace) : Type ℓ where
  pub result : Holds P r.0
  pub requests : Trace
  pub extends : r.1 ≡ t ++ requests
  pub each : All Q requests

abbrev pub Runs {ℓ} : {A : Type ℓ} → (A → Type 0) → (Effect → Type 0) → Exec A → Type ℓ
Runs P Q m = (t : Trace) → Run P Q t (m t)

module _ {ℓ} {A : Type ℓ} (P : A → Type 0) (Q : Effect → Type 0) where
  pub Run-none : (t : Trace) (o : Outcome A) → Holds P o → Run P Q t (o, t)
  Run-none t o h = record { result = h; requests = []; extends = sym (append-nil t); each = tt }

  pub Runs-pure : (a : A) → P a → Runs P Q (pure a)
  Runs-pure a h t = Run-none t (ok a) h

  pub Runs-request :
      (e : Effect) (answer : Trace → A) → ((a : A) → P a) → Q e → Runs P Q (request e answer)
  Runs-request e answer h q t = record {
    result = h (answer t);
    requests = e ∷ [];
    extends = refl;
    each = (q, tt);
  }

module _ {ℓ κ} {A : Type ℓ} {B : Type κ} (P : A → Type 0) (R : B → Type 0)
    (Q : Effect → Type 0) where
  Run-continue :
      (t : Trace) (o : Outcome A) (t' : Trace) (f : A → Exec B)
      → Run P Q t (o, t')
      → ((a : A) → P a → Runs R Q (f a))
      → Run R Q t (continue o f t')
  Run-continue t (throw e) t' f h k = record {
    result = tt;
    requests = h.requests;
    extends = h.extends;
    each = h.each;
  }
  Run-continue t (fault u) t' f h k = record {
    result = tt;
    requests = h.requests;
    extends = h.extends;
    each = h.each;
  }
  Run-continue t (ok a) t' f h k =
      let next = k a h.result t' in
      record {
        result = next.result;
        requests = h.requests ++ next.requests;
        extends =
            next.extends
            ∙ ap (λ u. u ++ next.requests) h.extends
            ∙ append_assoc t h.requests next.requests;
        each = All-append Q h.requests next.requests h.each next.each;
      }

  pub Runs-bind :
      (m : Exec A) (f : A → Exec B)
      → Runs P Q m
      → ((a : A) → P a → Runs R Q (f a))
      → Runs R Q (m >>= f)
  Runs-bind m f h k t = Run-continue t (m t).0 (m t).1 f (h t) k

module _ {ℓ} {A : Type ℓ} (P R : A → Type 0) (Q : Effect → Type 0)
    (imply : (a : A) → P a → R a) where
  Holds-imply : (o : Outcome A) → Holds P o → Holds R o
  Holds-imply (ok a) h = imply a h
  Holds-imply (throw e) h = tt
  Holds-imply (fault u) h = tt

  pub Runs-imply : (m : Exec A) → Runs P Q m → Runs R Q m
  Runs-imply m h t = record {
    result = Holds-imply (m t).0 (h t).result;
    requests = (h t).requests;
    extends = (h t).extends;
    each = (h t).each;
  }

module _ (Q R : Effect → Type 0) (weaken : (e : Effect) → Q e → R e) where
  All-weaken : (es : List Effect) → All Q es → All R es
  All-weaken [] h = tt
  All-weaken (e ∷ es) h = (weaken e h.0, All-weaken es h.1)

  pub Runs-weaken {ℓ} : {A : Type ℓ} (P : A → Type 0) (m : Exec A) → Runs P Q m → Runs P R m
  Runs-weaken P m h t = record {
    result = (h t).result;
    requests = (h t).requests;
    extends = (h t).extends;
    each = All-weaken (h t).requests (h t).each;
  }
