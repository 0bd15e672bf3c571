-- ===== src/ControlPlane/Reports.antt =====
-- What the consumers of the reports get from a run over INT packets.
use scion_int_p.Prelude.{
  ◌%◌, ◌*◌, ◌+◌, ◌^◌, ◌<◌, ◌≡◌, ◌≢◌, ℕ, refl, ap, List, [], ◌∷◌, ◌++◌, Bytes, some, All, map,
  length,
}
use scion_int_p.P4Runtime.{StreamResponse, packet_in, arbitration, digest_ack}
use scion_int_p.Report.{Serializer}
use scion_int_p.Exec.{
  Trace, stream_write, set_pipeline, write, produce, tcp_connect, tcp_write, tcp_close,
}
use scion_int_p.Int.PacketIn.{IntController, topic_name}
use scion_int_p.Int.PacketIn.Layout.{IntPacket, IsIntPacket, packet_bytes}
use scion_int_p.Int.PacketIn.Packets.{report_of, hop_size}

-- A cloned packet, with its key and its report as they are serialised.
pub record Telemetry : Type 0 where
  pub packet : IntPacket
  pub key : Bytes
  pub report : Bytes

pub record IsTelemetry (ser : Serializer) (m : Telemetry) : Type 0 where
  pub fields : IsIntPacket m.packet
  pub positive : hop_size m.packet ≢ 0
  pub exact : m.packet.shim_len ≡ 3 + length m.packet.hops * hop_size m.packet
  pub key_bytes : ser.serialize_key (record { flow_id = m.packet.flow_word % 2 ^ 20 }) ≡ some m.key
  pub report_bytes : ser.serialize_report (report_of m.packet) ≡ some m.report
  pub short : length m.report < 2 ^ 32

-- The messages that a trace has handed to Kafka: topic, key and payload.
abbrev pub published : Trace → List (Bytes × Bytes × Bytes)
published [] = []
published (produce topic key report ∷ t) = (topic, key, report) ∷ published t
published (_ ∷ t) = published t

abbrev pub topic_of : IntController → Telemetry → Bytes
topic_of int m = topic_name m.packet.destination int.node_id

abbrev pub kafka_message : IntController → Telemetry → Bytes × Bytes × Bytes
kafka_message int m = (topic_of int m, m.key, m.report)

abbrev pub cloned : Telemetry → StreamResponse
cloned m = packet_in (packet_bytes m.packet)

pub reports_short :
    (ser : Serializer) (ms : List Telemetry)
    → All (IsTelemetry ser) ms
    → All (λ r. length r < 2 ^ 32) (map (λ m. m.report) ms)
reports_short ser [] h = tt
reports_short ser (m ∷ ms) h = (h.0.short, reports_short ser ms h.1)

pub published-append : (t u : Trace) → published (t ++ u) ≡ published t ++ published u
published-append [] u = refl
published-append (produce topic key report ∷ t) u =
    ap (λ ms. (topic, key, report) ∷ ms) (published-append t u)
published-append (stream_write m ∷ t) u = published-append t u
published-append (set_pipeline m ∷ t) u = published-append t u
published-append (write m ∷ t) u = published-append t u
published-append (tcp_connect ip port ∷ t) u = published-append t u
published-append (tcp_write bytes ∷ t) u = published-append t u
published-append (tcp_close ∷ t) u = published-append t u

-- The digest lists that a trace acknowledges, with the digest's id.
abbrev pub acknowledged : Trace → List (ℕ × ℕ)
acknowledged [] = []
acknowledged (stream_write (digest_ack digest list_id) ∷ t) = (digest, list_id) ∷ acknowledged t
acknowledged (_ ∷ t) = acknowledged t

pub acknowledged-append : (t u : Trace) → acknowledged (t ++ u) ≡ acknowledged t ++ acknowledged u
acknowledged-append [] u = refl
acknowledged-append (stream_write (digest_ack digest list_id) ∷ t) u =
    ap (λ ls. (digest, list_id) ∷ ls) (acknowledged-append t u)
acknowledged-append (stream_write (arbitration a b c) ∷ t) u = acknowledged-append t u
acknowledged-append (produce topic key report ∷ t) u = acknowledged-append t u
acknowledged-append (set_pipeline m ∷ t) u = acknowledged-append t u
acknowledged-append (write m ∷ t) u = acknowledged-append t u
acknowledged-append (tcp_connect ip port ∷ t) u = acknowledged-append t u
acknowledged-append (tcp_write bytes ∷ t) u = acknowledged-append t u
acknowledged-append (tcp_close ∷ t) u = acknowledged-append t u
