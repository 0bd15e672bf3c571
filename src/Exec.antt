-- ===== src/Exec.antt =====
-- Code with effects. The trace lists what the program has asked of its environment, oldest first;
-- `Env` is the environment's answers. An action returns or fails, and what it did before stays done.
pub mod Runs
pub mod Always
use scion_int_p.Prelude.{ℕ, Bytes, Bool, List, [], ◌∷◌, ◌++◌}
use scion_int_p.Outcome.{Exception, Fault, Outcome, ok, throw, fault}
use scion_int_p.P4Runtime.{StreamRequest, PipelineRequest, WriteMessage}

pub data Effect : Type 0 where
  stream_write : StreamRequest → Effect
  set_pipeline : PipelineRequest → Effect
  write : WriteMessage → Effect
  -- topic, key and payload of a Kafka message
  produce : Bytes → Bytes → Bytes → Effect
  -- address and port
  tcp_connect : Bytes → ℕ → Effect
  tcp_write : Bytes → Effect
  tcp_close : Effect

abbrev pub Trace : Type 0
Trace = List Effect

-- gRPC, Kafka and the network, which are not part of the sources: whether each request succeeds,
-- which may depend on all that happened before.
pub record Env : Type 0 where
  pub stream_write_ok : Trace → StreamRequest → Bool
  pub set_pipeline_ok : Trace → PipelineRequest → Bool
  pub write_ok : Trace → WriteMessage → Bool
  pub producer_ok : Bytes → Bool
  pub produce_ok : Trace → Bytes → Bool
  pub tcp_connect_ok : Trace → Bool
  pub tcp_write_ok : Trace → Bytes → Bool
  pub tcp_close_ok : Trace → Bool

abbrev pub Exec {ℓ} : Type ℓ → Type ℓ
Exec A = Trace → Outcome A × Trace

abbrev pub continue {ℓ κ} :
    {A : Type ℓ} {B : Type κ} → Outcome A → (A → Exec B) → Trace → Outcome B × Trace
continue (ok a) f t = f a t
continue (throw e) f t = (throw e, t)
continue (fault u) f t = (fault u, t)

infixl 5 ◌>>=◌ ◌>>◌
abbrev pub ◌>>=◌ {ℓ κ} : {A : Type ℓ} {B : Type κ} → Exec A → (A → Exec B) → Exec B
◌>>=◌ m f t = let (r, t') = m t in continue r f t'

abbrev pub ◌>>◌ {ℓ κ} : {A : Type ℓ} {B : Type κ} → Exec A → Exec B → Exec B
m >> k = m >>= λ _. k

abbrev pub pure {ℓ} : {A : Type ℓ} → A → Exec A
pure a t = (ok a, t)

-- An expression without effects.
abbrev pub lift {ℓ} : {A : Type ℓ} → Outcome A → Exec A
lift r t = (r, t)

-- A request: it enters the trace, and the environment answers from what stood there before.
abbrev pub request {ℓ} : {A : Type ℓ} → Effect → (Trace → A) → Exec A
request e answer t = (ok (answer t), t ++ (e ∷ []))

-- A request whose answer nobody reads.
abbrev pub emit : Effect → Exec (Unit {0})
emit e = request e (λ _. tt)
