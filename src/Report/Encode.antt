-- ===== src/Report/Encode.antt =====
-- control_plane/controllers/int/report/report.pb.cc: `_InternalSerialize` and `ByteSizeLong` of the
-- messages that the controller sends.
use scion_int_p.Prelude.{
  ℕ, ◌+◌, List, [], ◌∷◌, ◌++◌, Bytes, map, ◌&&◌, ltb, ◌==◌, if◌then◌else◌, length,
}
use scion_int_p.Report.{
  Metadata, Hop, Report, FlowKey, Serializer, PacketType, unknown, ethernet, ipv4, ipv6, scion,
}
use scion_int_p.Report.Wire.{varint, delimited, WireField, Runtime, write_fields}

-- `std::sort` with `CompareByFirstField`.
unfoldable pub insert_entry : ℕ × Bytes → Metadata → Metadata
insert_entry e [] = e ∷ []
insert_entry e (x ∷ m) = if ltb e.0 x.0 then e ∷ x ∷ m else x ∷ insert_entry e m

unfoldable pub sort_entries : Metadata → Metadata
sort_entries [] = []
sort_entries (e ∷ m) = insert_entry e (sort_entries m)

-- `Report_PacketType`
abbrev pub packet_number : PacketType → ℕ
packet_number unknown = 0
packet_number ethernet = 1
packet_number ipv4 = 2
packet_number ipv6 = 3
packet_number scion = 4

-- An integer that is 0 is left out, and so are bytes that are empty.
abbrev pub number_field : ℕ → ℕ → List WireField
number_field number v = if v == 0 then [] else (number, varint v) ∷ []

abbrev pub bytes_field : ℕ → Bytes → List WireField
bytes_field number bytes = if length bytes == 0 then [] else (number, delimited bytes) ∷ []

abbrev pub sum : List ℕ → ℕ
sum [] = 0
sum (n ∷ ns) = n + sum ns

-- The fields other than `flow_id` are as the constructor left them, and so are left out.
unfoldable pub key_fields : FlowKey → List WireField
key_fields key = number_field 3 key.flow_id

module _ (rt : Runtime) where
  -- The entries in the order in which they are written.
  unfoldable pub written_entries : Metadata → Metadata
  written_entries m =
      if rt.deterministic && ltb 1 (length m) then sort_entries (rt.visit m) else rt.visit m

  unfoldable pub hop_fields : Hop → List WireField
  hop_fields hop =
      number_field 1 hop.asn
      ++ (number_field 2 hop.node_id
          ++ map (λ e. (3, delimited (rt.entry e))) (written_entries hop.metadata))

  abbrev pub hop_bytes : Hop → Bytes
  hop_bytes hop = write_fields rt (hop_fields hop)

  unfoldable pub report_fields : Report → List WireField
  report_fields report =
      map (λ hop. (1, delimited (hop_bytes hop))) report.hops
      ++ (number_field 2 (packet_number report.packet_type)
          ++ bytes_field 3 report.truncated_packet)

  abbrev pub report_bytes : Report → Bytes
  report_bytes report = write_fields rt (report_fields report)

  abbrev pub key_bytes : FlowKey → Bytes
  key_bytes key = write_fields rt (key_fields key)

  abbrev pub number_size : ℕ → ℕ
  number_size v = if v == 0 then 0 else 1 + rt.varint_size v

  abbrev pub bytes_size : Bytes → ℕ
  bytes_size bytes = if length bytes == 0 then 0 else 1 + rt.delimited_size (length bytes)

  unfoldable pub hop_size : Hop → ℕ
  hop_size hop =
      length hop.metadata
      + sum (map rt.entry_size (rt.visit hop.metadata))
      + number_size hop.asn
      + number_size hop.node_id

  unfoldable pub report_size : Report → ℕ
  report_size report =
      length report.hops
      + sum (map (λ hop. rt.delimited_size (hop_size hop)) report.hops)
      + bytes_size report.truncated_packet
      + number_size (packet_number report.packet_type)

  unfoldable pub key_size : FlowKey → ℕ
  key_size key = number_size key.flow_id

  -- `SerializeToString` of both messages.
  unfoldable pub serializer : Serializer
  serializer = record {
    serialize_key = λ key. rt.to_string (key_size key) (key_bytes key);
    serialize_report = λ report. rt.to_string (report_size report) (report_bytes report);
  }
