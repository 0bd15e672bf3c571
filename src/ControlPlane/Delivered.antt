-- ===== src/ControlPlane/Delivered.antt =====
-- What the consumers read of a run over packets and digests in any order, when the controller's messages
-- are those of report.pb.cc.
use scion_int_p.Prelude.{
  inl, ◌≡◌, refl, sym, ap, ◌∙◌, List, [], ◌∷◌, Bytes, Option, true, some, map, length, All, arith,
}
use scion_int_p.Outcome.{ok}
use scion_int_p.Exec.{Trace, Env, stream_write}
use scion_int_p.P4Runtime.{P4Info, StreamResponse, packet_in, arbitration}
use scion_int_p.Report.{FlowKey}
use scion_int_p.Report.Wire.{Runtime, IsRuntime}
use scion_int_p.Report.Encode.{report_bytes, key_bytes, serializer}
use scion_int_p.Report.Decode.{ReadReport, read_report_message, read_key_message}
use scion_int_p.Report.RoundTrip.{read_report_of}
use scion_int_p.Report.Strings.{
  serialize_report-report_bytes, serialize_key-key_bytes, read_key_message-key,
}
use scion_int_p.Connection.{SwitchConnection, send_master_arbitration_update}
use scion_int_p.TcpClient.Framing.{active, sent, deframe, deframe-frames}
use scion_int_p.MacLearn.{MacLearningCtrl}
use scion_int_p.Int.PacketIn.{IntController, topic_name}
use scion_int_p.Int.PacketIn.Layout.{IntPacket, packet_bytes}
use scion_int_p.Int.PacketIn.Packets.{report_of}
use scion_int_p.Int.PacketIn.Handler.{IsForeign}
use scion_int_p.Int.PacketIn.Delivered.{
  key_of, key_of-small, IsReportable, report_of-hops, length-report, read_report_message-report_of,
}
use scion_int_p.ControlPlane.{ControlPlane, run}
use scion_int_p.ControlPlane.Election.{int_switch}
use scion_int_p.ControlPlane.Learning.{Sighting, digest_message, IsLearnableList}
use scion_int_p.ControlPlane.Reports.{
  Telemetry, IsTelemetry, published, kafka_message, reports_short,
}
use scion_int_p.ControlPlane.Interleaving.{
  Event, telemetry, sighting, stray, message_of, IsEvent, packets_of, reports_of, sightings_of,
  published-effects, sent-effects, read_loop-effects, packets-IsTelemetry,
}

-- What arrives from the data plane.
pub data Arrival : Type 0 where
  int_packet : IntPacket → Arrival
  digest : Sighting → Arrival
  other : Bytes → Arrival

abbrev pub arrival_message : MacLearningCtrl → Arrival → StreamResponse
arrival_message mac (int_packet p) = packet_in (packet_bytes p)
arrival_message mac (digest l) = digest_message mac l
arrival_message mac (other payload) = packet_in payload

abbrev pub IsArrival : Runtime → Arrival → Type 0
IsArrival rt (int_packet p) = IsReportable rt p
IsArrival rt (digest l) = IsLearnableList l
IsArrival rt (other payload) = IsForeign payload

abbrev pub int_packets : List Arrival → List IntPacket
int_packets [] = []
int_packets (int_packet p ∷ arrivals) = p ∷ int_packets arrivals
int_packets (_ ∷ arrivals) = int_packets arrivals

abbrev pub digests : List Arrival → List Sighting
digests [] = []
digests (digest l ∷ arrivals) = l ∷ digests arrivals
digests (_ ∷ arrivals) = digests arrivals

module _ (rt : Runtime) where
  -- A message of Kafka as its consumer reads it.
  abbrev pub read_message : Bytes × Bytes × Bytes → Bytes × Option FlowKey × Option ReadReport
  read_message (topic, key, report) =
      (topic, read_key_message rt key, read_report_message rt report)

  abbrev pub telemetry_of : IntPacket → Telemetry
  telemetry_of p = record {
    packet = p;
    key = key_bytes rt (key_of p);
    report = report_bytes rt (report_of p);
  }

  abbrev pub event_of : Arrival → Event
  event_of (int_packet p) = telemetry (telemetry_of p)
  event_of (digest l) = sighting l
  event_of (other payload) = stray payload

  pub messages-event_of :
      (mac : MacLearningCtrl) (arrivals : List Arrival)
      → map (message_of mac) (map event_of arrivals) ≡ map (arrival_message mac) arrivals
  messages-event_of mac [] = refl
  messages-event_of mac (int_packet p ∷ arrivals) =
      ap (λ ms. packet_in (packet_bytes p) ∷ ms) (messages-event_of mac arrivals)
  messages-event_of mac (digest l ∷ arrivals) =
      ap (λ ms. digest_message mac l ∷ ms) (messages-event_of mac arrivals)
  messages-event_of mac (other payload ∷ arrivals) =
      ap (λ ms. packet_in payload ∷ ms) (messages-event_of mac arrivals)

  abbrev pub told : IntController → IntPacket → Bytes × Option FlowKey × Option ReadReport
  told int p = (
    topic_name p.destination int.node_id,
    some (key_of p),
    some (read_report_of rt (report_of p)),
  )

  pub length-reports :
      (arrivals : List Arrival)
      → length (reports_of (map event_of arrivals)) ≡ length (int_packets arrivals)
  length-reports [] = refl
  length-reports (int_packet p ∷ arrivals) = omega (arith, length-reports arrivals)
  length-reports (digest l ∷ arrivals) = length-reports arrivals
  length-reports (other payload ∷ arrivals) = length-reports arrivals

  pub sightings-event_of :
      (arrivals : List Arrival) → sightings_of (map event_of arrivals) ≡ digests arrivals
  sightings-event_of [] = refl
  sightings-event_of (int_packet p ∷ arrivals) = sightings-event_of arrivals
  sightings-event_of (digest l ∷ arrivals) = ap (λ ls. l ∷ ls) (sightings-event_of arrivals)
  sightings-event_of (other payload ∷ arrivals) = sightings-event_of arrivals

module _ (rt : Runtime) (laws : IsRuntime rt) where
  telemetry_of-IsTelemetry :
      (p : IntPacket) → IsReportable rt p → IsTelemetry (serializer rt) (telemetry_of rt p)
  telemetry_of-IsTelemetry p h = record {
    fields = h.fields;
    positive = h.positive;
    exact = h.exact;
    key_bytes = serialize_key-key_bytes rt laws (key_of p) (key_of-small p);
    report_bytes =
        serialize_report-report_bytes rt laws (report_of p) (report_of-hops rt laws p h) h.small;
    short = omega (arith, length-report rt laws p h);
  }

  pub events-IsEvent :
      (arrivals : List Arrival)
      → All (IsArrival rt) arrivals
      → All (IsEvent (serializer rt)) (map (event_of rt) arrivals)
  events-IsEvent [] h = tt
  events-IsEvent (int_packet p ∷ arrivals) h =
      (telemetry_of-IsTelemetry p h.0, events-IsEvent arrivals h.1)
  events-IsEvent (digest l ∷ arrivals) h = (h.0, events-IsEvent arrivals h.1)
  events-IsEvent (other payload ∷ arrivals) h = (h.0, events-IsEvent arrivals h.1)

  module _ (int : IntController) where
    pub read_published :
        (arrivals : List Arrival)
        → All (IsArrival rt) arrivals
        → map (read_message rt) (map (kafka_message int) (packets_of (map (event_of rt) arrivals)))
          ≡ map (told rt int) (int_packets arrivals)
    read_published [] h = refl
    read_published (int_packet p ∷ arrivals) h =
        rw
          (
            read_key_message-key rt laws (key_of p) (key_of-small p),
            read_report_message-report_of rt laws p h.0,
          )
          (ap (λ ms. told rt int p ∷ ms) (read_published arrivals h.1))
    read_published (digest l ∷ arrivals) h = read_published arrivals h.1
    read_published (other payload ∷ arrivals) h = read_published arrivals h.1

    pub read_framed :
        (arrivals : List Arrival)
        → All (IsArrival rt) arrivals
        → map (read_report_message rt) (reports_of (map (event_of rt) arrivals))
          ≡ map (λ p. some (read_report_of rt (report_of p))) (int_packets arrivals)
    read_framed [] h = refl
    read_framed (int_packet p ∷ arrivals) h =
        rw (read_report_message-report_of rt laws p h.0)
          (ap (λ ms. some (read_report_of rt (report_of p)) ∷ ms) (read_framed arrivals h.1))
    read_framed (digest l ∷ arrivals) h = read_framed arrivals h.1
    read_framed (other payload ∷ arrivals) h = read_framed arrivals h.1

  module _ (env : Env) (con : SwitchConnection) (p4info : P4Info) (config : Bytes)
      (mac : MacLearningCtrl) (int : IntController) (opened : int.tcp_socket ≡ active)
      (queued : (t : Trace) (report : Bytes) → env.produce_ok t report ≡ true)
      (ready : (t : Trace) (bytes : Bytes) → env.tcp_write_ok t bytes ≡ true) where
    abbrev plane : ControlPlane
    plane = int_switch con p4info config mac int

    -- With the serialisation of report.pb.cc, a run of an INT switch with an open TCP connection over INT
    -- packets, digests and packets that are no INT packets, in any order, ends with the controllers as they
    -- were, its request for mastership being written, if Kafka takes all messages and no TCP write fails. The
    -- consumer of Kafka reads, for each INT packet in their order, the flow of the packet and its report,
    -- the hops that the switches recorded included, under the topic of its destination; the reader of the TCP
    -- connection reads the same reports in the same order. The fields of the packets fit their widths, their
    -- hop lengths are positive and their shim lengths those of their hops, their reports are below the limit
    -- of a message, and the addresses and ports of the digests are in range.
    pub run-delivers :
        (arrivals : List Arrival)
        → env.stream_write_ok [] (arbitration con.device_id 0 con.election_id) ≡ true
        → All (IsArrival rt) arrivals
        → let result =
            run env
              (serializer rt)
              (int_switch con p4info config mac int)
              (map (arrival_message mac) arrivals)
              [] in
          (result.0 ≡ ok (int_switch con p4info config mac int))
          × (map (read_message rt) (published result.1) ≡ map (told rt int) (int_packets arrivals))
          × (map (read_report_message rt) (deframe (length (int_packets arrivals)) (sent result.1))
              ≡ map (λ p. some (read_report_of rt (report_of p))) (int_packets arrivals))
    unfolding run send_master_arbitration_update
    run-delivers arrivals asked h =
        let events = map (event_of rt) arrivals in
        let fine = events-IsEvent arrivals h in
        rw
          (
            sym (messages-event_of rt mac arrivals),
            asked,
            read_loop-effects env (serializer rt) con p4info config mac int queued
                (inl (opened, ready)) events
                (stream_write (arbitration con.device_id 0 con.election_id) ∷ []) fine,
            published-effects con mac int events,
            sent-effects con mac int events opened,
          )
          (
            refl,
            read_published int arrivals h,
            ap (map (read_report_message rt)) (
                  rw⁻¹ (length-reports rt arrivals) (
                    deframe-frames (reports_of events) (
                      reports_short (serializer rt) (packets_of events)
                        (packets-IsTelemetry con mac int (serializer rt) events fine))))
                ∙ read_framed int arrivals h,
          )
