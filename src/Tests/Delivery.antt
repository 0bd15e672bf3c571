-- ===== src/Tests/Delivery.antt =====
-- What consumers read at concrete inputs, with the runtime of the tests.
use scion_int_p.Prelude.{
  ◌<◌, ◌≡◌, refl, List, [], ◌∷◌, ◌++◌, Bytes, Option, true, some, codes, arith, map, length,
}
use scion_int_p.Outcome.{Outcome, ok}
use scion_int_p.Exec.{Trace, produce}
use scion_int_p.Report.{Hop, Report, FlowKey, scion}
use scion_int_p.Report.Wire.{write_fields, message_limit}
use scion_int_p.Report.Maps.{find_entry}
use scion_int_p.Int.Hops.{has_bit}
use scion_int_p.Report.Encode.{
  report_bytes, hop_bytes, hop_fields, written_entries, sort_entries, insert_entry, hop_size,
  report_size, serializer,
}
use scion_int_p.Report.Decode.{ReadReport, read_report_message, read_key_message}
use scion_int_p.Report.Sizes.{IsHop, length-report_bytes}
use scion_int_p.Report.RoundTrip.{read_report_of}
use scion_int_p.Report.Strings.{IsSameReport, read_report_message-serialize_report}
use scion_int_p.TcpClient.Framing.{frame, sent, deframe}
use scion_int_p.Int.PacketIn.{handle_packet_in, topic_name}
use scion_int_p.Int.PacketIn.Layout.{packet_bytes}
use scion_int_p.Int.PacketIn.Packets.{report_of}
use scion_int_p.Int.PacketIn.Handler.{too_short}
use scion_int_p.Int.PacketIn.Delivered.{key_of, IsReportable, handle_packet_in-delivers}
use scion_int_p.ControlPlane.{ControlPlane, run}
use scion_int_p.ControlPlane.Reports.{published}
use scion_int_p.ControlPlane.Delivered.{
  Arrival, int_packet, digest, other, arrival_message, read_message, told, run-delivers,
}
use scion_int_p.Tests.Data.{all_ok, switch_con, mac_ctrl, int_ctrl, info}
use scion_int_p.Tests.Packets.{packet, packet-IsIntPacket}
use scion_int_p.Tests.Control.{plane}
use scion_int_p.Tests.Wire.{wire, groups}
use scion_int_p.Tests.Wire.Laws.{wire-IsRuntime}

-- Two kinds of metadata, the larger first.
abbrev a_hop : Hop
a_hop = record { asn = 300; node_id = 1; metadata = (4, 7 ∷ 7 ∷ []) ∷ (2, 9 ∷ []) ∷ [] }

abbrev hop_on_wire : Bytes
hop_on_wire =
    (0x08 ∷ 0xac ∷ 0x02 ∷ 0x10 ∷ 0x01 ∷ [])
    ++ (0x1a ∷ 0x05 ∷ 0x08 ∷ 0x02 ∷ 0x12 ∷ 0x01 ∷ 0x09 ∷ [])
    ++ (0x1a ∷ 0x06 ∷ 0x08 ∷ 0x04 ∷ 0x12 ∷ 0x02 ∷ 0x07 ∷ 0x07 ∷ [])

hop_bytes_test : hop_bytes wire a_hop ≡ hop_on_wire
unfolding write_fields hop_fields written_entries sort_entries insert_entry groups
hop_bytes_test = refl

abbrev a_report : Report
a_report = record {
  hops = a_hop ∷ a_hop ∷ [];
  packet_type = scion;
  truncated_packet = codes "packet";
}

abbrev a_hop-IsHop : IsHop a_hop
unfolding find_entry
a_hop-IsHop = record {
  asn_u64 = omega arith;
  node_id_u32 = omega arith;
  is_map = (refl, omega arith, (refl, omega arith, tt));
}

length-report_bytes_example : length (report_bytes wire a_report) ≡ report_size wire a_report
length-report_bytes_example =
    length-report_bytes wire wire-IsRuntime a_report (a_hop-IsHop, (a_hop-IsHop, tt))

a_report-small : report_size wire a_report < message_limit
unfolding report_size hop_size groups
a_report-small = omega arith

read_report_message-serialize_report_example :
    (bytes : Bytes) × ((serializer wire).serialize_report a_report ≡ some bytes)
    × (r : ReadReport) × (read_report_message wire bytes ≡ some r)
    × IsSameReport a_report r
read_report_message-serialize_report_example =
    read_report_message-serialize_report wire wire-IsRuntime a_report
      (a_hop-IsHop, (a_hop-IsHop, tt)) a_report-small

abbrev pub packet-IsReportable : IsReportable wire (packet 13 5)
unfolding report_size hop_size groups has_bit
packet-IsReportable = record {
  fields = packet-IsIntPacket 13 5;
  positive = omega arith;
  exact = refl;
  small = omega arith;
}

handle_packet_in-delivers_example :
    (key : Bytes) × (report : Bytes) × (r : ReadReport) × (handle_packet_in all_ok
        (serializer wire)
        int_ctrl
        (packet_bytes (packet 13 5))
        []
      ≡ (
        ok (int_ctrl, true),
        [] ++ (produce (topic_name 0x0001_ff00_0000_0111 2) key report ∷ frame report),
      ))
    × (read_key_message wire key ≡ some (key_of (packet 13 5)))
    × (read_report_message wire report ≡ some r)
    × IsSameReport (report_of (packet 13 5)) r
handle_packet_in-delivers_example =
    handle_packet_in-delivers wire wire-IsRuntime (packet 13 5) packet-IsReportable all_ok int_ctrl
      [] (λ report. refl) refl (λ u bytes. refl)

abbrev pub arrivals : List Arrival
arrivals =
    int_packet (packet 13 5)
    ∷ digest (4, (0x0200_0000_00ff, 3) ∷ [])
    ∷ other (codes "hello")
    ∷ int_packet (packet 13 5)
    ∷ []

abbrev result : Outcome ControlPlane × Trace
result = run all_ok (serializer wire) plane (map (arrival_message mac_ctrl) arrivals) []

abbrev a_told : Bytes × Option FlowKey × Option ReadReport
a_told = told wire int_ctrl (packet 13 5)

abbrev pub a_read : Option ReadReport
a_read = some (read_report_of wire (report_of (packet 13 5)))

run-delivers_example :
    (result.0 ≡ ok plane)
    × (map (read_message wire) (published result.1) ≡ a_told ∷ a_told ∷ [])
    × (map (read_report_message wire) (deframe 2 (sent result.1)) ≡ a_read ∷ a_read ∷ [])
run-delivers_example =
    run-delivers wire wire-IsRuntime all_ok switch_con info [] mac_ctrl int_ctrl refl (λ t r. refl)
      (λ t bytes. refl) arrivals refl
      (
        packet-IsReportable,
        (((omega arith, omega arith), tt), (too_short (omega arith), (packet-IsReportable, tt))),
      )
