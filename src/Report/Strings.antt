-- ===== src/Report/Strings.antt =====
-- `SerializeToString` of both messages, and what a reader makes of the strings.
use scion_int_p.Prelude.{
  ℕ, ◌^◌, ◌<◌, ◌≡◌, refl, sym, List, [], ◌∷◌, Bytes, some, map, All, arith, ◌==◌, Bool-cases, inl,
  inr,
}
use scion_int_p.Report.{Hop, Report, FlowKey}
use scion_int_p.Report.Wire.{Runtime, IsRuntime, message_limit}
use scion_int_p.Report.Encode.{
  packet_number, report_bytes, key_bytes, report_size, key_size, serializer,
}
use scion_int_p.Report.Decode.{ReadReport, read_report_message, read_key_message}
use scion_int_p.Report.Maps.{find_entry, written_entries-IsSameMap}
use scion_int_p.Report.Sizes.{IsHop, length-report_bytes, length-key_bytes}
use scion_int_p.Report.RoundTrip.{
  read_hop_of, read_report_of, read_report_message-report_bytes, read_key_message-key_bytes,
}

-- A hop that was read has the numbers of the hop that was sent, and finds the same bytes of each kind.
abbrev pub IsSameHop : Hop → Hop → Type 0
IsSameHop hop hop' =
    (hop'.asn ≡ hop.asn)
    × (hop'.node_id ≡ hop.node_id)
    × ((kind : ℕ) → find_entry kind hop'.metadata ≡ find_entry kind hop.metadata)

abbrev pub AreSameHops : List Hop → List Hop → Type 0
AreSameHops [] [] = Unit {0}
AreSameHops (hop ∷ hops) (hop' ∷ hops') = IsSameHop hop hop' × AreSameHops hops hops'
AreSameHops [] (hop' ∷ hops') = ⊥
AreSameHops (hop ∷ hops) [] = ⊥

-- What a report says, whatever the order of the entries of its maps.
abbrev pub IsSameReport : Report → ReadReport → Type 0
IsSameReport report r =
    AreSameHops report.hops r.hops
    × (r.packet_type ≡ packet_number report.packet_type)
    × (r.truncated_packet ≡ report.truncated_packet)

module _ (rt : Runtime) (laws : IsRuntime rt) where
  same_hops : (hops : List Hop) → All IsHop hops → AreSameHops hops (map (read_hop_of rt) hops)
  same_hops [] h = tt
  same_hops (hop ∷ hops) (h, hs) =
      ((refl, refl, (written_entries-IsSameMap rt laws hop.metadata h.is_map).1), same_hops hops hs)

  pub read_report_of-IsSameReport :
      (report : Report) → All IsHop report.hops → IsSameReport report (read_report_of rt report)
  read_report_of-IsSameReport report h = (same_hops report.hops h, refl, refl)

  pub serialize_report-report_bytes :
      (report : Report)
      → All IsHop report.hops
      → report_size rt report < message_limit
      → (serializer rt).serialize_report report ≡ some (report_bytes rt report)
  unfolding serializer
  serialize_report-report_bytes report h small =
      laws.to_string_small (report_size rt report) (report_bytes rt report)
        (sym (length-report_bytes rt laws report h)) small

  -- A report whose hops have numbers of their widths and maps of metadata, and whose size is below the
  -- limit of a message, is serialised, and a reader of the string gets a report that says the same: the
  -- hops in their order, each with its numbers and with the same bytes of each kind, the packet's type
  -- and the packet.
  pub read_report_message-serialize_report :
      (report : Report)
      → All IsHop report.hops
      → report_size rt report < message_limit
      → (bytes : Bytes) × ((serializer rt).serialize_report report ≡ some bytes)
        × (r : ReadReport) × (read_report_message rt bytes ≡ some r)
        × IsSameReport report r
  read_report_message-serialize_report report h small = (
    report_bytes rt report,
    serialize_report-report_bytes report h small,
    read_report_of rt report,
    read_report_message-report_bytes rt laws report h
        (omega (arith, small, length-report_bytes rt laws report h)),
    read_report_of-IsSameReport report h,
  )

  key_size-small : (key : FlowKey) → key.flow_id < 2 ^ 32 → key_size rt key < message_limit
  unfolding key_size
  key_size-small key h = elim (Bool-cases (key.flow_id == 0)) [
    | inl zero ↦ rw zero (omega arith)
    | inr more ↦ rw more (omega (arith, laws.varint_size_small key.flow_id (omega (arith, h))))
  ]

  pub serialize_key-key_bytes :
      (key : FlowKey)
      → key.flow_id < 2 ^ 32
      → (serializer rt).serialize_key key ≡ some (key_bytes rt key)
  unfolding serializer
  serialize_key-key_bytes key h =
      laws.to_string_small (key_size rt key) (key_bytes rt key)
        (sym (length-key_bytes rt laws key h)) (key_size-small key h)

  pub read_key_message-key :
      (key : FlowKey) → key.flow_id < 2 ^ 32 → read_key_message rt (key_bytes rt key) ≡ some key
  read_key_message-key key h =
      read_key_message-key_bytes rt laws key h
        (omega (arith, key_size-small key h, length-key_bytes rt laws key h))
