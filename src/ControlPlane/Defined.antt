-- ===== src/ControlPlane/Defined.antt =====
-- A run over sound controllers and readable packets has no undefined behaviour.
pub mod Run
use mathlib.Core.List.{reverse}
use scion_int_p.Prelude.{
  ℕ, ◌==◌, ◌≡◌, refl, sym, ap, subst⁻¹, List, [], ◌∷◌, ◌++◌, Bytes, Bool, true, false, Bool-cases,
  inl, inr, ◌⊎◌, Option, none, some, All,
}
use scion_int_p.Prelude.Endian.{All-reverse}
use scion_int_p.Outcome.{Outcome, ok, throw, fault, Ends}
use scion_int_p.P4Runtime.{
  DigestData, DigestList, StreamResponse, arbitration_update, packet_in, digest_list, idle_timeout,
  stream_error, unset, WriteMessage,
}
use scion_int_p.Report.{Serializer}
use scion_int_p.Exec.{Trace, Env, Exec, ◌>>=◌, ◌>>◌, pure, lift}
use scion_int_p.Exec.Always.{Always, Always-bind}
use scion_int_p.Connection.{SwitchConnection, send_master_arbitration_update, set_pipeline_config}
use scion_int_p.KafkaProducer.{kafka_send}
use scion_int_p.TcpClient.{TcpClient, send}
use scion_int_p.TcpClient.Framing.{active, inactive, send_cases, send-inactive}
use scion_int_p.MacLearn.{MacLearningCtrl, handle_digest}
use scion_int_p.MacLearn.Defined.{handle_digest-Always, mac_handle_arbitration_update-Always}
use scion_int_p.Int.PacketIn.{
  IntController, Message, read_packet, topic_name, deliver, handle_packet_in,
}
use scion_int_p.Int.PacketIn.Handler.{IsForeign}
use scion_int_p.Int.PacketIn.Readable.{IsComplete, read_packet-Ends}
use scion_int_p.Int.Setup.Sound.{IsSound, handle_arbitration_update-Always}
use scion_int_p.ControlPlane.{
  Controller, default_controller, mac_learning, int_sink, ControlPlane, Handler, pass, unhandled,
  dispatch, to_stack, on_packet, on_digest, on_notice, on_arbitration, arbitration_loop,
  handle_arbitration_update, handle_message, read_loop, run,
}

abbrev pub Any {ℓ} : {A : Type ℓ} → A → Type 0
Any a = Unit {0}

-- The sink's invariant, without a TCP connection: the socket of one outlives its `io_context`, and its use is
-- undefined.
abbrev pub IsUnconnected : IntController → Type 0
IsUnconnected ctrl = IsSound ctrl × (ctrl.tcp_socket ≡ inactive)

abbrev pub IsSoundController : Controller → Type 0
IsSoundController default_controller = Unit {0}
IsSoundController (mac_learning ctrl) = Unit {0}
IsSoundController (int_sink ctrl) = IsUnconnected ctrl

-- A packet that is no INT packet or holds what the sink reads of it; any other message.
abbrev pub IsReadable : StreamResponse → Type 0
IsReadable (packet_in payload) = IsForeign payload ⊎ IsComplete payload
IsReadable _ = Unit {0}

-- The socket does not count.
IsSound-socket :
    (ctrl : IntController) (socket : TcpClient)
    → IsSound ctrl
    → IsSound (record ctrl { tcp_socket = socket })
IsSound-socket ctrl socket h = record {
  counted = h.counted;
  isd_u16 = h.isd_u16;
  as_u64 = h.as_u64;
  counts = h.counts;
  aligned = h.aligned;
}

module _ (env : Env) where
  kafka_send-Always : (topic key report : Bytes) → Always Any (kafka_send env topic key report)
  unfolding kafka_send
  kafka_send-Always topic key report t = elim (Bool-cases (env.produce_ok t report)) [
    | inl queued ↦ rw queued tt
    | inr refused ↦ rw refused tt
  ]

  send-Always :
      (client : TcpClient) (report : Bytes)
      → client ≡ inactive
      → Always (λ r. r.0 ≡ inactive) (send env client report)
  send-Always client report closed t = rw (closed, send-inactive env report t) refl

  deliver-Always :
      (ctrl : IntController) (message : Option Message)
      → IsUnconnected ctrl
      → Always (λ r. IsUnconnected r.0) (deliver env ctrl message)
  unfolding deliver
  deliver-Always ctrl none h = λ t. h
  deliver-Always ctrl (some m) h =
      Always-bind Any _ (kafka_send env (topic_name m.as_addr ctrl.node_id) m.key m.report) _
        (kafka_send-Always _ m.key m.report)
        λ queued u.
          Always-bind (λ r. r.0 ≡ inactive) _ (send env ctrl.tcp_socket m.report) _
            (send-Always ctrl.tcp_socket m.report h.1)
            λ sent closed t. (IsSound-socket ctrl sent.0 h.0, closed)

  -- The sink keeps the invariant on a readable packet, and returns or throws.
  pub handle_packet_in-Always :
      (ser : Serializer) (ctrl : IntController) (payload : Bytes)
      → IsForeign payload ⊎ IsComplete payload
      → IsUnconnected ctrl
      → Always (λ r. IsUnconnected r.0) (handle_packet_in env ser ctrl payload)
  unfolding handle_packet_in
  handle_packet_in-Always ser ctrl payload readable h =
      Always-bind Any _ (lift (read_packet ser payload)) _
        (λ t. read_packet-Ends ser payload readable) λ m u. deliver-Always ctrl m h
