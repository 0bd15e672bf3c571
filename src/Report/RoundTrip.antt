-- ===== src/Report/RoundTrip.antt =====
-- A reader of the generated code gets the messages back that the generated code has written.
use native.Mathlib.Nat.{mod-eq_of_lt}
use scion_int_p.Prelude.{
  ℕ, ◌+◌, ◌^◌, ◌<◌, ◌≡◌, refl, sym, ap, ◌∙◌, List, [], ◌∷◌, ◌++◌, Bytes, Option, some, map, length,
  length-append, All, append_assoc, append-nil, arith, ◌==◌, ==_iff, Bool-cases, inl, inr,
}
use scion_int_p.Report.{Metadata, Hop, Report, FlowKey, new_hop, new_flow_key}
use scion_int_p.Report.Wire.{
  varint, delimited, WireField, Runtime, IsRuntime, IsWritten, message_limit, write_fields,
}
use scion_int_p.Report.Encode.{
  number_field, bytes_field, packet_number, written_entries, hop_fields, hop_bytes, report_fields,
  report_bytes, key_fields, key_bytes,
}
use scion_int_p.Report.Decode.{
  ReadReport, fold_fields, hop_step, read_hop_message, report_step, empty_report,
  read_report_message, key_step, read_key_message,
}
use scion_int_p.Report.Maps.{
  IsMap, written_entries-IsSameMap, set_entry_new, Apart, Apart-head, Apart-move, Apart-nil,
}
use scion_int_p.Report.Sizes.{
  IsHop, entry_field, hop_field, hop_fields-IsWritten, report_fields-IsWritten,
  number_field-IsWritten, packet_number-small, length-write_fields-append,
}

module _ {ℓ} {A : Type ℓ} (step : WireField → A → Option A) where
  -- A field that is left out has the value that the reader starts from.
  fold_fields-number_field :
      (n v : ℕ) (gs : List WireField) (a a' : A)
      → step (n, varint v) a ≡ some a'
      → (v ≡ 0 → a ≡ a')
      → fold_fields step (number_field n v ++ gs) a ≡ fold_fields step gs a'
  fold_fields-number_field n v gs a a' e same = elim (Bool-cases (v == 0)) [
    | inl zero ↦ rw zero (ap (fold_fields step gs) (same ((==_iff v 0).0 zero)))
    | inr more ↦ rw (more, e) refl
  ]

  fold_fields-bytes_field :
      (n : ℕ) (bytes : Bytes) (gs : List WireField) (a a' : A)
      → step (n, delimited bytes) a ≡ some a'
      → (length bytes ≡ 0 → a ≡ a')
      → fold_fields step (bytes_field n bytes ++ gs) a ≡ fold_fields step gs a'
  fold_fields-bytes_field n bytes gs a a' e same = elim (Bool-cases (length bytes == 0)) [
    | inl zero ↦ rw zero (ap (fold_fields step gs) (same ((==_iff (length bytes) 0).0 zero)))
    | inr more ↦ rw (more, e) refl
  ]

-- As it is read: the entries in the order in which they were written.
abbrev pub read_hop_of : Runtime → Hop → Hop
read_hop_of rt hop = record hop { metadata = written_entries rt hop.metadata }

abbrev pub read_report_of : Runtime → Report → ReadReport
read_report_of rt report = record {
  hops = map (read_hop_of rt) report.hops;
  packet_type = packet_number report.packet_type;
  truncated_packet = report.truncated_packet;
}

nil-length : (bytes : Bytes) → length bytes ≡ 0 → [] ≡ bytes
nil-length [] e = refl
nil-length (b ∷ bytes) e = absurd (omega arith)

module _ (rt : Runtime) (laws : IsRuntime rt) where
  write_fields-delimited :
      (n : ℕ) (bytes : Bytes) (fs : List WireField)
      → IsWritten (n, delimited bytes)
      → length bytes + length (write_fields rt fs)
        < length (write_fields rt ((n, delimited bytes) ∷ fs))
  unfolding write_fields
  write_fields-delimited n bytes fs h = omega (
    arith,
    length-append (rt.write (n, delimited bytes)) (write_fields rt fs),
    laws.length-write (n, delimited bytes) h,
    laws.le-delimited_size (length bytes),
  )

  read_entries :
      (es done : Metadata) (hop : Hop)
      → IsMap es
      → Apart done es
      → length (write_fields rt (map (entry_field rt) es)) < message_limit
      → fold_fields (hop_step rt) (map (entry_field rt) es) (record hop { metadata = done })
        ≡ some (record hop { metadata = done ++ es })
  unfolding hop_step
  read_entries [] done hop h apart room =
      ap (λ m. some (record hop { metadata = m })) (sym (append-nil done))
  read_entries (e ∷ es) done hop (new, bound, rest) apart room =
      let larger =
        write_fields-delimited 3 (rt.entry e) (map (entry_field rt) es)
          (omega arith, omega arith) in
      rw (laws.parse_entry-entry e bound (omega (arith, larger, room))) (
        ap (λ m. fold_fields (hop_step rt) (map (entry_field rt) es) (record hop { metadata = m }))
          (set_entry_new e done (Apart-head done es e apart))
        ∙ read_entries es (done ++ (e ∷ [])) hop rest (Apart-move done es e new apart)
            (omega (arith, larger, room))
        ∙ ap (λ m. some (record hop { metadata = m })) (append_assoc done (e ∷ []) es))

  -- A hop is read back, its metadata in the order in which it was written.
  pub read_hop_message-hop_bytes :
      (hop : Hop)
      → IsHop hop
      → length (hop_bytes rt hop) < message_limit
      → read_hop_message rt (hop_bytes rt hop) ≡ some (read_hop_of rt hop)
  unfolding read_hop_message hop_fields new_hop hop_step
  read_hop_message-hop_bytes hop h room =
      let entries = map (entry_field rt) (written_entries rt hop.metadata) in
      let numbers = number_field 2 hop.node_id ++ entries in
      rw (laws.parse-write_fields (hop_fields rt hop) (hop_fields-IsWritten rt hop h) room) (
        fold_fields-number_field (hop_step rt) 1 hop.asn numbers new_hop
          (record new_hop { asn = hop.asn })
          (ap (λ a. some (record new_hop { asn = a })) (mod-eq_of_lt h.asn_u64))
          (λ z. ap (λ a. record new_hop { asn = a }) (sym z))
        ∙ fold_fields-number_field (hop_step rt) 2 hop.node_id entries _
            (record new_hop { asn = hop.asn; node_id = hop.node_id })
            (ap (λ a. some (record new_hop { asn = hop.asn; node_id = a }))
              (mod-eq_of_lt h.node_id_u32))
            (λ z. ap (λ a. record new_hop { asn = hop.asn; node_id = a }) (sym z))
        ∙ read_entries (written_entries rt hop.metadata) [] hop
            (written_entries-IsSameMap rt laws hop.metadata h.is_map).0 (Apart-nil _)
            (omega (
              arith,
              room,
              length-write_fields-append rt (number_field 1 hop.asn) numbers,
              length-write_fields-append rt (number_field 2 hop.node_id) entries,
            )))

  read_hop_fields :
      (hops : List Hop) (done : List Hop) (fs : List WireField) (report : ReadReport)
      → All IsHop hops
      → length (write_fields rt (map (hop_field rt) hops)) < message_limit
      → fold_fields (report_step rt) (map (hop_field rt) hops ++ fs) (record report { hops = done })
        ≡ fold_fields
            (report_step rt)
            fs
            (record report { hops = done ++ map (read_hop_of rt) hops })
  unfolding report_step
  read_hop_fields [] done fs report h room =
      ap (λ hops. fold_fields (report_step rt) fs (record report { hops = hops }))
        (sym (append-nil done))
  read_hop_fields (hop ∷ hops) done fs report (h, hs) room =
      let larger =
        write_fields-delimited 1 (hop_bytes rt hop) (map (hop_field rt) hops)
          (omega arith, omega arith) in
      rw (read_hop_message-hop_bytes hop h (omega (arith, larger, room))) (
        read_hop_fields hops (done ++ (read_hop_of rt hop ∷ [])) fs report hs
          (omega (arith, larger, room))
        ∙ ap (λ hops. fold_fields (report_step rt) fs (record report { hops = hops }))
            (append_assoc done (read_hop_of rt hop ∷ []) (map (read_hop_of rt) hops)))

  -- A report below the limit of a message is read back: the hops in their order, the metadata of each in the order in which it was written.
  pub read_report_message-report_bytes :
      (report : Report)
      → All IsHop report.hops
      → length (report_bytes rt report) < message_limit
      → read_report_message rt (report_bytes rt report) ≡ some (read_report_of rt report)
  unfolding read_report_message report_fields report_step
  read_report_message-report_bytes report h room =
      let packet = bytes_field 3 report.truncated_packet in
      let kind = packet_number report.packet_type in
      let hops = map (read_hop_of rt) report.hops in
      rw
        (laws.parse-write_fields (report_fields rt report) (report_fields-IsWritten rt report) room)
        (read_hop_fields report.hops [] (number_field 2 kind ++ packet) empty_report h (
            omega (
              arith,
              room,
              length-write_fields-append rt (map (hop_field rt) report.hops)
                  (number_field 2 kind ++ packet),
            ))
          ∙ fold_fields-number_field (report_step rt) 2 kind packet _
              (record empty_report { hops = hops; packet_type = kind })
              (ap (λ a. some (record empty_report { hops = hops; packet_type = a }))
                (mod-eq_of_lt (omega (arith, packet_number-small report.packet_type))))
              (λ z. ap (λ a. record empty_report { hops = hops; packet_type = a }) (sym z))
          ∙ ap
              (λ fs.
                fold_fields (report_step rt) fs
                  (record empty_report { hops = hops; packet_type = kind }))
              (sym (append-nil packet))
          ∙ fold_fields-bytes_field (report_step rt) 3 report.truncated_packet [] _
              (read_report_of rt report) refl
              (λ z.
                ap
                  (λ a. record empty_report {
                    hops = hops;
                    packet_type = kind;
                    truncated_packet = a;
                  })
                  (nil-length _ z)))

  pub read_key_message-key_bytes :
      (key : FlowKey)
      → key.flow_id < 2 ^ 32
      → length (key_bytes rt key) < message_limit
      → read_key_message rt (key_bytes rt key) ≡ some key
  unfolding read_key_message key_fields key_step
  read_key_message-key_bytes key h room =
      rw
        (laws.parse-write_fields (key_fields key)
          (number_field-IsWritten 3 key.flow_id (omega arith) (omega arith) (omega (arith, h)))
          room)
        (ap (λ fs. fold_fields key_step fs new_flow_key)
            (sym (append-nil (number_field 3 key.flow_id)))
          ∙ fold_fields-number_field key_step 3 key.flow_id [] new_flow_key key
              (ap (λ a. some (record key { flow_id = a })) (mod-eq_of_lt h))
              (λ z. ap (λ a. record key { flow_id = a }) (sym z)))
