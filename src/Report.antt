-- ===== src/Report.antt =====
-- control_plane/controllers/int/report/report.pb.h: the messages of an INT report. `Serializer` is
-- `SerializeToString` of the two messages that are sent; `Report.Encode` is the generated code behind it.
pub mod Wire
pub mod Encode
pub mod Decode
pub mod Maps
pub mod Sizes
pub mod RoundTrip
pub mod Strings
use scion_int_p.Prelude.{ℕ, List, [], ◌∷◌, ◌++◌, Bytes, Option, ◌==◌, if◌then◌else◌}

pub data PacketType : Type 0 where
  unknown ethernet ipv4 ipv6 scion : PacketType

-- The numbers of `MetadataType` that the controller uses.
abbrev pub interface_level1 : ℕ
interface_level1 = 1

abbrev pub hop_latency : ℕ
hop_latency = 2

abbrev pub queue_occupancy : ℕ
queue_occupancy = 3

abbrev pub ingress_timestamp : ℕ
ingress_timestamp = 4

abbrev pub egress_timestamp : ℕ
egress_timestamp = 5

abbrev pub interface_level2 : ℕ
interface_level2 = 6

abbrev pub egress_tx_utilization : ℕ
egress_tx_utilization = 7

abbrev pub buffer_occupancy : ℕ
buffer_occupancy = 8

abbrev pub Metadata : Type 0
Metadata = List (ℕ × Bytes)

pub record Hop : Type 0 where
  pub asn : ℕ
  pub node_id : ℕ
  pub metadata : Metadata

pub record Report : Type 0 where
  pub hops : List Hop
  pub packet_type : PacketType
  pub truncated_packet : Bytes

-- The one field of a flow key that is set.
pub record FlowKey : Type 0 where
  pub flow_id : ℕ

pub record Serializer : Type 0 where
  pub serialize_key : FlowKey → Option Bytes
  pub serialize_report : Report → Option Bytes

unfoldable pub new_hop : Hop
new_hop = record { asn = 0; node_id = 0; metadata = [] }

abbrev pub set_asn : ℕ → Hop → Hop
set_asn value hop = record hop { asn = value }

abbrev pub set_node_id : ℕ → Hop → Hop
set_node_id value hop = record hop { node_id = value }

abbrev pub new_flow_key : FlowKey
new_flow_key = record { flow_id = 0 }

abbrev pub set_flow_id : ℕ → FlowKey → FlowKey
set_flow_id value key = record key { flow_id = value }

abbrev pub new_report : Report
new_report = record { hops = []; packet_type = unknown; truncated_packet = [] }

-- The hops that `add_hops` has returned, behind those before.
abbrev pub add_hops : List Hop → Report → Report
add_hops hops report = record report { hops = report.hops ++ hops }

abbrev pub set_packet_type : PacketType → Report → Report
set_packet_type value report = record report { packet_type = value }

abbrev pub set_truncated_packet : Bytes → Report → Report
set_truncated_packet value report = record report { truncated_packet = value }

-- `(*metadata)[kind].push_back(byte)`
unfoldable pub push_byte : ℕ → ℕ → Metadata → Metadata
push_byte kind byte [] = (kind, byte ∷ []) ∷ []
push_byte kind byte ((k, bytes) ∷ m) =
    if k == kind then (k, bytes ++ (byte ∷ [])) ∷ m else (k, bytes) ∷ push_byte kind byte m
