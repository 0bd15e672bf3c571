-- ===== src/KafkaProducer.antt =====
-- control_plane/controllers/int/kafkaProducer.h and kafkaProducer.cpp.
use scion_int_p.Prelude.{Bytes, Bool, true, false, ◌≡◌, ◌⊎◌, inl, inr, Bool-cases}
use scion_int_p.Outcome.{ok, throw, library_error}
use scion_int_p.Exec.{Trace, Env, Exec, ◌>>=◌, pure, lift, request, produce}

-- `cppkafka::Producer::produce` throws where the message cannot be queued.
checked : Bool → Exec Bool
checked true = pure true
checked false = lift (throw library_error)

-- The constructor of the producer throws where librdkafka refuses the configuration.
made : Bool → Exec (Unit {0})
made true = pure tt
made false = lift (throw library_error)

unfoldable pub kafka_producer : Env → Bytes → Exec (Unit {0})
unfolding made
kafka_producer env address = made (env.producer_ok address)

-- `kafkaProducer::send`: it has no other result than true.
unfoldable pub kafka_send : Env → Bytes → Bytes → Bytes → Exec Bool
unfolding checked
kafka_send env topic_name key report = do
  queued ← request (produce topic_name key report) (λ t. env.produce_ok t report)
  checked queued

pub kafka_producer_ok :
    (env : Env) (address : Bytes) (t : Trace)
    → env.producer_ok address ≡ true
    → kafka_producer env address t ≡ (ok tt, t)
unfolding kafka_producer
kafka_producer_ok env address t h = rw h

-- It returns or throws, and makes no request.
pub kafka_producer_cases :
    (env : Env) (address : Bytes) (t : Trace)
    → (kafka_producer env address t ≡ (ok tt, t))
      ⊎ (kafka_producer env address t ≡ (throw library_error, t))
unfolding kafka_producer
kafka_producer_cases env address t = elim (Bool-cases (env.producer_ok address)) [
  | inl fits ↦ inl (rw fits)
  | inr refused ↦ inr (rw refused)
]
