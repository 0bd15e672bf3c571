-- ===== src/Report/Sizes.antt =====
-- What the generated code writes, and that `ByteSizeLong` is its length.
use scion_int_p.Prelude.{
  ℕ, ◌+◌, ◌^◌, ◌≤◌, ◌<◌, ◌≡◌, refl, sym, ap, ◌∙◌, List, [], ◌∷◌, ◌++◌, Bytes, map, length,
  length-append, All, All-append, append_assoc, arith, ◌==◌, Bool-cases, inl, inr,
}
use scion_int_p.Report.{
  Metadata, Hop, Report, FlowKey, PacketType, unknown, ethernet, ipv4, ipv6, scion,
}
use scion_int_p.Report.Wire.{
  varint, delimited, WireField, Runtime, IsRuntime, IsWritten, write_fields, value_size,
}
use scion_int_p.Report.Encode.{
  number_field, bytes_field, sum, packet_number, written_entries, hop_fields, hop_bytes,
  report_fields, report_bytes, key_fields, key_bytes, number_size, bytes_size, hop_size,
  report_size, key_size,
}
use scion_int_p.Report.Maps.{IsMap, written_entries-Perm, Perm-sum, Perm-length}

-- The numbers have their widths, and the metadata is a map.
pub record IsHop (hop : Hop) : Type 0 where
  pub asn_u64 : hop.asn < 2 ^ 64
  pub node_id_u32 : hop.node_id < 2 ^ 32
  pub is_map : IsMap hop.metadata

abbrev pub entry_field : Runtime → ℕ × Bytes → WireField
entry_field rt e = (3, delimited (rt.entry e))

abbrev pub hop_field : Runtime → Hop → WireField
hop_field rt hop = (1, delimited (hop_bytes rt hop))

pub number_field-IsWritten :
    (n v : ℕ) → 1 ≤ n → n < 16 → v < 2 ^ 64 → All IsWritten (number_field n v)
number_field-IsWritten n v low high h = elim (Bool-cases (v == 0)) [
  | inl zero ↦ rw zero tt
  | inr more ↦ rw more ((low, high, h), tt)
]

pub packet_number-small : (t : PacketType) → packet_number t < 5
packet_number-small unknown = omega arith
packet_number-small ethernet = omega arith
packet_number-small ipv4 = omega arith
packet_number-small ipv6 = omega arith
packet_number-small scion = omega arith

bytes_field-IsWritten : (bytes : Bytes) → All IsWritten (bytes_field 3 bytes)
bytes_field-IsWritten bytes = elim (Bool-cases (length bytes == 0)) [
  | inl zero ↦ rw zero tt
  | inr more ↦ rw more ((omega arith, omega arith), tt)
]

module _ (rt : Runtime) where
  entries-IsWritten : (m : Metadata) → All IsWritten (map (entry_field rt) m)
  entries-IsWritten [] = tt
  entries-IsWritten (e ∷ m) = ((omega arith, omega arith), entries-IsWritten m)

  hops-IsWritten : (hops : List Hop) → All IsWritten (map (hop_field rt) hops)
  hops-IsWritten [] = tt
  hops-IsWritten (hop ∷ hops) = ((omega arith, omega arith), hops-IsWritten hops)

  pub hop_fields-IsWritten : (hop : Hop) → IsHop hop → All IsWritten (hop_fields rt hop)
  unfolding hop_fields
  hop_fields-IsWritten hop h =
      All-append IsWritten (number_field 1 hop.asn) _
        (number_field-IsWritten 1 hop.asn (omega arith) (omega arith) h.asn_u64)
        (All-append IsWritten (number_field 2 hop.node_id) _
          (number_field-IsWritten 2 hop.node_id (omega arith) (omega arith)
            (omega (arith, h.node_id_u32)))
          (entries-IsWritten (written_entries rt hop.metadata)))

  pub report_fields-IsWritten : (report : Report) → All IsWritten (report_fields rt report)
  unfolding report_fields
  report_fields-IsWritten report =
      All-append IsWritten (map (hop_field rt) report.hops) _ (hops-IsWritten report.hops) (
        All-append IsWritten (number_field 2 (packet_number report.packet_type)) _
          (number_field-IsWritten 2 (packet_number report.packet_type) (omega arith) (omega arith)
            (omega (arith, packet_number-small report.packet_type)))
          (bytes_field-IsWritten report.truncated_packet))

  pub write_fields-append :
      (fs gs : List WireField)
      → write_fields rt (fs ++ gs) ≡ write_fields rt fs ++ write_fields rt gs
  unfolding write_fields
  write_fields-append [] gs = refl
  write_fields-append (f ∷ fs) gs =
      ap (λ b. rt.write f ++ b) (write_fields-append fs gs)
      ∙ sym (append_assoc (rt.write f) (write_fields rt fs) (write_fields rt gs))

  pub length-write_fields-append :
      (fs gs : List WireField)
      → length (write_fields rt (fs ++ gs))
        ≡ length (write_fields rt fs) + length (write_fields rt gs)
  length-write_fields-append fs gs =
      ap length (write_fields-append fs gs)
      ∙ length-append (write_fields rt fs) (write_fields rt gs)

module _ (rt : Runtime) (laws : IsRuntime rt) where
  length-write_field :
      (f : WireField) → IsWritten f → length (write_fields rt (f ∷ [])) ≡ 1 + value_size rt f.1
  unfolding write_fields
  length-write_field f h = omega (arith, length-append (rt.write f) [], laws.length-write f h)

  length-number_field :
      (n v : ℕ)
      → 1 ≤ n
      → n < 16
      → v < 2 ^ 64
      → length (write_fields rt (number_field n v)) ≡ number_size rt v
  unfolding write_fields
  length-number_field n v low high h = elim (Bool-cases (v == 0)) [
    | inl zero ↦ rw zero refl
    | inr more ↦ rw more (length-write_field (n, varint v) (low, high, h))
  ]

  length-bytes_field :
      (bytes : Bytes) → length (write_fields rt (bytes_field 3 bytes)) ≡ bytes_size rt bytes
  unfolding write_fields
  length-bytes_field bytes = elim (Bool-cases (length bytes == 0)) [
    | inl zero ↦ rw zero refl
    | inr more ↦ rw more (length-write_field (3, delimited bytes) (omega arith, omega arith))
  ]

  length-entries :
      (m : Metadata)
      → length (write_fields rt (map (entry_field rt) m)) ≡ length m + sum (map rt.entry_size m)
  unfolding write_fields
  length-entries [] = refl
  length-entries (e ∷ m) = omega (
    arith,
    length-append (rt.write (entry_field rt e)) (write_fields rt (map (entry_field rt) m)),
    laws.length-write (entry_field rt e) (omega arith, omega arith),
    laws.entry_size-entry e,
    length-entries m,
  )

  -- `ByteSizeLong` of a hop is the length of what is written of it.
  pub length-hop_bytes : (hop : Hop) → IsHop hop → length (hop_bytes rt hop) ≡ hop_size rt hop
  unfolding hop_fields hop_size
  length-hop_bytes hop h =
      let entries = map (entry_field rt) (written_entries rt hop.metadata) in
      omega (
        arith,
        length-write_fields-append rt (number_field 1 hop.asn)
            (number_field 2 hop.node_id ++ entries),
        length-write_fields-append rt (number_field 2 hop.node_id) entries,
        length-number_field 1 hop.asn (omega arith) (omega arith) h.asn_u64,
        length-number_field 2 hop.node_id (omega arith) (omega arith)
            (omega (arith, h.node_id_u32)),
        length-entries (written_entries rt hop.metadata),
        Perm-length _ _ (written_entries-Perm rt laws hop.metadata),
        Perm-length _ _ (laws.visit-Perm hop.metadata),
        Perm-sum rt.entry_size _ _ (written_entries-Perm rt laws hop.metadata),
        Perm-sum rt.entry_size _ _ (laws.visit-Perm hop.metadata),
      )

  length-hops :
      (hops : List Hop)
      → All IsHop hops
      → length (write_fields rt (map (hop_field rt) hops))
        ≡ length hops + sum (map (λ hop. rt.delimited_size (hop_size rt hop)) hops)
  unfolding write_fields
  length-hops [] h = refl
  length-hops (hop ∷ hops) (h, hs) = omega (
    arith,
    length-append (rt.write (hop_field rt hop)) (write_fields rt (map (hop_field rt) hops)),
    laws.length-write (hop_field rt hop) (omega arith, omega arith),
    ap rt.delimited_size (length-hop_bytes hop h),
    length-hops hops hs,
  )

  -- The size that `ByteSizeLong` computes of a report, whose hops have numbers of their widths and maps of
  -- metadata, is the length of what `_InternalSerialize` writes of it.
  pub length-report_bytes :
      (report : Report)
      → All IsHop report.hops
      → length (report_bytes rt report) ≡ report_size rt report
  unfolding report_fields report_size
  length-report_bytes report h =
      let kind = number_field 2 (packet_number report.packet_type) in
      let packet = bytes_field 3 report.truncated_packet in
      omega (
        arith,
        length-write_fields-append rt (map (hop_field rt) report.hops) (kind ++ packet),
        length-write_fields-append rt kind packet,
        length-hops report.hops h,
        length-number_field 2 (packet_number report.packet_type) (omega arith) (omega arith)
            (omega (arith, packet_number-small report.packet_type)),
        length-bytes_field report.truncated_packet,
      )

  pub length-key_bytes :
      (key : FlowKey) → key.flow_id < 2 ^ 32 → length (key_bytes rt key) ≡ key_size rt key
  unfolding key_fields key_size
  length-key_bytes key h =
      length-number_field 3 key.flow_id (omega arith) (omega arith) (omega (arith, h))
