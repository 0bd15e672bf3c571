-- ===== src/Tests/Packets.antt =====
-- INT packets at concrete inputs.
use scion_int_p.Prelude.{
  ℕ, ◌%◌, ◌^◌, ◌≡◌, refl, List, [], ◌∷◌, ◌++◌, Bytes, false, none, some, codes, arith, map,
}
use scion_int_p.Prelude.Endian.{be_digits}
use scion_int_p.Outcome.{ok, fault, division_by_zero}
use scion_int_p.Int.Hops.{has_bit, read_hops}
use scion_int_p.Int.Hops.RoundTrip.Stack.{
  Recorded, IsRecorded, hop_of, stack_of, read_hops-stack_of,
}
use scion_int_p.Int.PacketIn.{read_packet, handle_packet_in}
use scion_int_p.Int.PacketIn.Layout.{IntPacket, IsIntPacket, packet_bytes}
use scion_int_p.Int.PacketIn.Packets.{
  report_of, read_packet-packet_bytes, read_packet_zero_hop, read_packet_ragged,
}
use scion_int_p.Int.PacketIn.Handler.{handle_packet_in_foreign, too_short}
use scion_int_p.Tests.Data.{all_ok, int_ctrl, plain}

abbrev pub recorded : ℕ → Recorded
recorded node = record {
  node_id = node;
  level1 = 0 ∷ 1 ∷ 0 ∷ 2 ∷ [];
  latency = 0 ∷ 0 ∷ 0 ∷ 9 ∷ [];
  queue = 0 ∷ 0 ∷ 0 ∷ 1 ∷ [];
  ingress_time = 1000;
  egress_time = 1009;
  level2 = 0 ∷ 0 ∷ 0 ∷ 1 ∷ 0 ∷ 0 ∷ 0 ∷ 2 ∷ [];
  utilization = 0 ∷ 0 ∷ 0 ∷ 0 ∷ [];
  buffer = 0 ∷ 0 ∷ 0 ∷ 0 ∷ [];
  asn = 0xff00_0000_0110;
}

abbrev pub first_hop : IsRecorded (recorded 7)
first_hop = record {
  node_id_u32 = omega arith;
  level1_size = refl;
  latency_size = refl;
  queue_size = refl;
  ingress_u64 = omega arith;
  egress_u64 = omega arith;
  level2_size = refl;
  utilization_size = refl;
  buffer_size = refl;
  asn_u64 = omega arith;
}

abbrev pub second_hop : IsRecorded (recorded 8)
second_hop = record {
  node_id_u32 = omega arith;
  level1_size = refl;
  latency_size = refl;
  queue_size = refl;
  ingress_u64 = omega arith;
  egress_u64 = omega arith;
  level2_size = refl;
  utilization_size = refl;
  buffer_size = refl;
  asn_u64 = omega arith;
}

abbrev pub path : List Recorded
path = recorded 7 ∷ recorded 8 ∷ []

-- The node, the ingress time and the AS of each hop.
read_hops-stack_of_example :
    read_hops 0x8800 1 ((1 ∷ 2 ∷ []) ++ (stack_of 0x8800 1 path ++ [])) 2 2
    ≡ ok (map (hop_of 0x8800 1) path)
unfolding has_bit
read_hops-stack_of_example =
    read_hops-stack_of 0x8800 1 path (1 ∷ 2 ∷ []) [] 2 (first_hop, (second_hop, tt)) refl
      (omega arith)

abbrev pub packet : ℕ → ℕ → IntPacket
packet shim_len hop_ml = record {
  flow_word = 0x0030_0042;
  common = 17 ∷ 9 ∷ 0 ∷ 24 ∷ 1 ∷ 0 ∷ 0 ∷ 0 ∷ [];
  destination = 0x0001_ff00_0000_0111;
  headers = 1 ∷ 2 ∷ 3 ∷ 4 ∷ [];
  shim_type = 16;
  shim_len = shim_len;
  shim_flags = 0 ∷ 0 ∷ [];
  int_flags = 32 ∷ 0 ∷ [];
  hop_ml = hop_ml;
  remaining = 8;
  bitmap_int = 0x8800;
  domain = 0 ∷ 1 ∷ [];
  bitmap_scion = 1;
  domain_flags = 0 ∷ 0 ∷ [];
  hops = path;
  rest = 42 ∷ [];
}

abbrev pub packet-IsIntPacket : (shim_len hop_ml : ℕ) → IsIntPacket (packet shim_len hop_ml)
unfolding has_bit
packet-IsIntPacket shim_len hop_ml = record {
  flow_u32 = omega arith;
  common_size = refl;
  destination_u64 = omega arith;
  shim_flags_size = refl;
  int_flags_size = refl;
  bitmap_int_u16 = omega arith;
  domain_size = refl;
  bitmap_scion_u16 = omega arith;
  domain_flags_size = refl;
  hops_recorded = (first_hop, (second_hop, tt));
  size = omega arith;
}

abbrev pub key : Bytes
key = be_digits 4 (0x0030_0042 % 2 ^ 20)

abbrev pub report : Bytes
report = (report_of (packet 13 5)).truncated_packet

read_packet-packet_bytes_example :
    read_packet plain (packet_bytes (packet 13 5))
    ≡ ok (some (record { as_addr = 0x0001_ff00_0000_0111; key = key; report = report }))
read_packet-packet_bytes_example =
    read_packet-packet_bytes (packet 13 5) (packet-IsIntPacket 13 5) plain key report (omega arith)
      refl refl refl

read_packet_zero_hop_example :
    read_packet plain (packet_bytes (packet 13 32)) ≡ fault division_by_zero
read_packet_zero_hop_example =
    read_packet_zero_hop (packet 13 32) (packet-IsIntPacket 13 32) plain key refl refl

read_packet_ragged_example : read_packet plain (packet_bytes (packet 12 5)) ≡ ok none
read_packet_ragged_example =
    read_packet_ragged (packet 12 5) (packet-IsIntPacket 12 5) plain key (omega arith) (omega arith)
      refl

handle_packet_in_foreign_example :
    handle_packet_in all_ok plain int_ctrl (codes "hello") [] ≡ (ok (int_ctrl, false), [])
handle_packet_in_foreign_example =
    handle_packet_in_foreign all_ok plain int_ctrl (codes "hello") [] (too_short (omega arith))
