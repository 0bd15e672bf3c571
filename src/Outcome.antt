-- ===== src/Outcome.antt =====
-- What a C++ expression can do besides returning a value: throw an exception, or run into undefined
-- behaviour.
use scion_int_p.Prelude.{String}

-- The exceptions that the sources throw, and those of the libraries that they call.
pub data Exception : Type 0 where
  runtime_error : String → Exception
  invalid_argument : Exception
  out_of_range : Exception
  library_error : Exception

-- Undefined behaviour: a read outside an object, an integer division by zero, and a read of a
-- variable that was never set.
pub data Fault : Type 0 where
  out_of_bounds : Fault
  division_by_zero : Fault
  uninitialized : Fault

pub data Outcome {ℓ} (A : Type ℓ) : Type ℓ where
  ok : A → Outcome A
  throw : Exception → Outcome A
  fault : Fault → Outcome A

infixl 5 ◌>>=◌ ◌>>◌
abbrev pub ◌>>=◌ {ℓ κ} : {A : Type ℓ} {B : Type κ} → Outcome A → (A → Outcome B) → Outcome B
ok a >>= f = f a
throw e >>= f = throw e
fault u >>= f = fault u

abbrev pub ◌>>◌ {ℓ κ} : {A : Type ℓ} {B : Type κ} → Outcome A → Outcome B → Outcome B
m >> k = m >>= λ _. k

-- What holds of a value that is returned; behaviour is defined.
abbrev pub Ends {ℓ} : {A : Type ℓ} → (A → Type 0) → Outcome A → Type 0
Ends P (ok a) = P a
Ends P (throw e) = Unit {0}
Ends P (fault u) = ⊥

module _ {ℓ κ} {A : Type ℓ} {B : Type κ} (P : A → Type 0) (Q : B → Type 0) where
  pub Ends-bind :
      (m : Outcome A) (f : A → Outcome B)
      → Ends P m
      → ((a : A) → P a → Ends Q (f a))
      → Ends Q (m >>= f)
  Ends-bind (ok a) f h k = k a h
  Ends-bind (throw e) f h k = tt
  Ends-bind (fault u) f h k = absurd h
