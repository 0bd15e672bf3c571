-- ===== src/Tests/Data.antt =====
-- The data of the tests: an environment in which every request succeeds, a switch and its controllers.
use scion_int_p.Prelude.{List, [], ◌∷◌, true, false, some, codes}
use scion_int_p.P4Runtime.{P4Info}
use scion_int_p.Prelude.Endian.{be_digits}
use scion_int_p.Exec.{Env}
use scion_int_p.Connection.{SwitchConnection}
use scion_int_p.Report.{Serializer}
use scion_int_p.MacLearn.{MacLearningCtrl}
use scion_int_p.Int.PacketIn.{IntController}
use scion_int_p.Int.Setup.Constructed.{fresh}
use scion_int_p.TcpClient.Framing.{active}
use scion_int_p.IntTable.Entries.{Row, TableLine, comment, row}

abbrev pub all_ok : Env
all_ok = record {
  stream_write_ok = λ t m. true;
  set_pipeline_ok = λ t m. true;
  write_ok = λ t m. true;
  producer_ok = λ address. true;
  produce_ok = λ t m. true;
  tcp_connect_ok = λ t. true;
  tcp_write_ok = λ t m. true;
  tcp_close_ok = λ t. true;
}

abbrev pub no_queue : Env
no_queue = record all_ok { produce_ok = λ t m. false }

abbrev pub no_stream : Env
no_stream = record all_ok { stream_write_ok = λ t m. false }

abbrev pub switch_con : SwitchConnection
switch_con = record { device_id = 1; election_id = 7 }

abbrev pub mac_ctrl : MacLearningCtrl
mac_ctrl = record { mac_learn_digest_id = 385 }

abbrev pub int_ctrl : IntController
int_ctrl = record (fresh 310 2 1 0xff00_0000_0110) { tcp_socket = active }

abbrev pub info : P4Info
info = record {
  counters = record { id = 310; name = codes "txCounter" } ∷ [];
  digests = record { id = 385; name = codes "macLearnMsg_t" } ∷ [];
}

-- A serializer that keeps the flow of the key and the packet of the report.
abbrev pub plain : Serializer
plain = record {
  serialize_key = λ k. some (be_digits 4 k.flow_id);
  serialize_report = λ r. some r.truncated_packet;
}

abbrev pub row_111 : Row
row_111 = record { isd = 1; as_address = 0xff00_0000_0111; bitmap_int = 0x8800; bitmap_scion = 1 }

abbrev pub table_lines : List TableLine
table_lines = comment (codes " AS bitmaps") ∷ row row_111 ∷ []

abbrev pub table_rows : List Row
table_rows = row_111 ∷ []
