-- ===== src/Int/PacketIn/Packets.antt =====
-- The packets that the data plane clones to the controller, and what `read_packet` makes of them.
use native.Mathlib.Nat.{mul-mod_left, mul-div_cancel, mod-eq_of_lt}
use scion_int_p.Prelude.{
  ltb, if◌then◌else◌, ℕ, ◌+◌, ◌-◌, ◌*◌, ◌%◌, ◌^◌, ◌≤◌, ◌<◌, ◌≡◌, ◌≢◌, refl, ap, ◌∙◌, ◌++◌, Bytes,
  none, some, length, length-append, take, take-append_more, take-append_less, arith, map, le→ltb,
  ne→==,
}
use scion_int_p.Prelude.Words.{u32}
use scion_int_p.Prelude.Endian.{be_digits}
use scion_int_p.Outcome.{ok, fault, division_by_zero, ◌>>=◌}
use scion_int_p.Report.{Report, Serializer, scion}
use scion_int_p.Int.PacketIn.{
  int_identifier, stack_rounds, fill_report, read_stack, read_report, finish_report, read_with_key,
  read_flow, read_packet,
}
use scion_int_p.Int.Hops.RoundTrip.Stack.{hop_of, read_hops-stack_of}
use scion_int_p.TakeUint.Segments.{take_uint64-At, take_uint32-At, take_uint16-At, take_uint8-At}
use scion_int_p.Int.PacketIn.Layout.{
  IntPacket, header_bytes, stack_bytes, packet_bytes, IsIntPacket, length-header_bytes,
  At-identifier, At-length, At-flow_word, At-destination, At-shim_len, At-hop_ml, At-bitmap_int,
  At-bitmap_scion,
}

-- The report of a packet: the recorded hops, and the bytes that the controller takes for the packet,
-- the eight bytes of the length with the headers up to their last eight bytes.
abbrev pub report_of : IntPacket → Report
report_of p = record {
  hops = map (hop_of p.bitmap_int p.bitmap_scion) p.hops;
  packet_type = scion;
  truncated_packet =
      be_digits 8 (length (header_bytes p)) ++ take (length (header_bytes p) - 8) (header_bytes p);
}

abbrev pub hop_size : IntPacket → ℕ
hop_size p = p.hop_ml % 2 ^ 5

rounds_exact :
    (n size len : ℕ) → len ≡ 3 + n * size → size ≢ 0 → stack_rounds len size ≡ ok (some n)
unfolding stack_rounds
rounds_exact n size len e positive =
    let total : len - 3 ≡ n * size = omega (arith, e) in
    let above : 0 < size = omega (arith, positive) in
    rw (
      le→ltb len 3 (omega (arith, e)),
      total,
      ne→== size 0 positive,
      mul-mod_left n size,
      mul-div_cancel n above,
    )

module _ (p : IntPacket) (h : IsIntPacket p) where
  position :
      (n k : ℕ)
      → k ≤ 16
      → n ≡ 16 + length (header_bytes p) - k
      → u32 n ≡ length (header_bytes p) + (16 - k)
  position n k bound e = omega (arith, h.size, e)

  read_report-headers : read_report (packet_bytes p) (length (header_bytes p)) ≡ (
      stack_rounds p.shim_len (hop_size p) >>= λ rounds.
      read_stack (packet_bytes p) (length (header_bytes p)) p.bitmap_int p.bitmap_scion rounds)
  unfolding read_report
  read_report-headers = rw (
    position (16 + length (header_bytes p) - 8) 8 (omega arith) refl,
    position (16 + length (header_bytes p) - 4) 4 (omega arith) refl,
    position (16 + length (header_bytes p) - 12 - 3) 15 (omega arith) (omega arith),
    position (16 + length (header_bytes p) - 10) 10 (omega arith) refl,
    take_uint16-At h.bitmap_int_u16 (At-bitmap_int p h),
    take_uint16-At h.bitmap_scion_u16 (At-bitmap_scion p h),
    take_uint8-At (At-shim_len p h),
    take_uint8-At (At-hop_ml p h),
  )

  length-packet_bytes :
      length (packet_bytes p)
      ≡ 16 + length (header_bytes p) + (length (stack_bytes p) + length p.rest)
  length-packet_bytes = omega (
    arith,
    length-append (header_bytes p) (stack_bytes p ++ p.rest),
    length-append (stack_bytes p) p.rest,
  )

  read_packet-key :
      (ser : Serializer) (key : Bytes)
      → ser.serialize_key (record { flow_id = p.flow_word % 2 ^ 20 }) ≡ some key
      → read_packet ser (packet_bytes p) ≡ (
          read_report (packet_bytes p) (length (header_bytes p)) >>= λ report.
          ok (finish_report ser p.destination key report))
  unfolding read_packet read_flow read_with_key
  read_packet-key ser key hk = rw (
    le→ltb (length (packet_bytes p)) 16 (omega (arith, length-packet_bytes)),
    take_uint64-At {v = int_identifier} (omega arith) (At-identifier p h),
    take_uint64-At {v = length (header_bytes p)} (omega (arith, h.size)) (At-length p h),
    le→ltb (length (packet_bytes p) - 16) (length (header_bytes p))
        (omega (arith, length-packet_bytes)),
    take_uint32-At h.flow_u32 (At-flow_word p h),
    hk,
    take_uint64-At h.destination_u64 (At-destination p h),
  )

  fill_report-report_of :
      fill_report
        (packet_bytes p)
        (length (header_bytes p))
        (map (hop_of p.bitmap_int p.bitmap_scion) p.hops)
      ≡ report_of p
  unfolding fill_report
  fill_report-report_of =
      ap
        (λ bytes. record {
          hops = map (hop_of p.bitmap_int p.bitmap_scion) p.hops;
          packet_type = scion;
          truncated_packet = bytes;
        })
        (take-append_more (length (header_bytes p)) (be_digits 8 (length (header_bytes p))) _
            (omega (arith, length-header_bytes p h))
          ∙ ap (λ bytes. be_digits 8 (length (header_bytes p)) ++ bytes)
              (take-append_less (length (header_bytes p) - 8) (header_bytes p) _ (omega arith)))

  read_stack-hops :
      read_stack
        (packet_bytes p)
        (length (header_bytes p))
        p.bitmap_int
        p.bitmap_scion
        (some (length p.hops))
      ≡ ok (some (report_of p))
  unfolding read_stack
  read_stack-hops =
      let room : (16 + length (header_bytes p)) % 2 ^ 32 ≡ 16 + length (header_bytes p) =
        mod-eq_of_lt (omega (arith, h.size)) in
      let hops =
        read_hops-stack_of p.bitmap_int p.bitmap_scion p.hops
          (be_digits 8 int_identifier ++ (be_digits 8 (length (header_bytes p)) ++ header_bytes p))
          p.rest (16 + length (header_bytes p)) h.hops_recorded (omega arith) h.size in
      rw (room, hops, fill_report-report_of)

  -- A packet with an INT stack, whose fields fit their widths and which is shorter than 2^32 bytes, whose
  -- hop length modulo 32 is not 0 and whose shim length is 3 and that many for each hop, is read as the
  -- message of its destination, with the serialised flow (the low 20 bits of the first word) and the
  -- serialised report of its hops, if both can be serialised. The packet of this report is the eight bytes
  -- of the length and the headers less their last eight bytes.
  pub read_packet-packet_bytes :
      (ser : Serializer) (key report : Bytes)
      → hop_size p ≢ 0
      → p.shim_len ≡ 3 + length p.hops * hop_size p
      → ser.serialize_key (record { flow_id = p.flow_word % 2 ^ 20 }) ≡ some key
      → ser.serialize_report (report_of p) ≡ some report
      → read_packet ser (packet_bytes p)
        ≡ ok (some (record { as_addr = p.destination; key = key; report = report }))
  unfolding finish_report
  read_packet-packet_bytes ser key report positive exact hk hr =
      read_packet-key ser key hk
      ∙ rw (
        read_report-headers,
        rounds_exact (length p.hops) (hop_size p) p.shim_len exact positive,
        read_stack-hops,
        hr,
      )

  -- A packet whose fields fit their widths and whose hop length is a multiple of 32 makes the handler
  -- divide by zero, if the key can be serialised.
  pub read_packet_zero_hop :
      (ser : Serializer) (key : Bytes)
      → hop_size p ≡ 0
      → ser.serialize_key (record { flow_id = p.flow_word % 2 ^ 20 }) ≡ some key
      → read_packet ser (packet_bytes p) ≡ fault division_by_zero
  unfolding stack_rounds
  read_packet_zero_hop ser key e hk = read_packet-key ser key hk ∙ rw (read_report-headers, e)

  -- An INT packet whose fields fit their widths is turned away if its shim length differs from 3,
  -- up or down, by a number that is not a multiple of its hop length modulo 32, this being above 0
  -- and the key being serialisable.
  pub read_packet_ragged :
      (ser : Serializer) (key : Bytes)
      → (p.shim_len - 3 + (3 - p.shim_len)) % hop_size p ≢ 0
      → hop_size p ≢ 0
      → ser.serialize_key (record { flow_id = p.flow_word % 2 ^ 20 }) ≡ some key
      → read_packet ser (packet_bytes p) ≡ ok none
  unfolding stack_rounds read_stack finish_report
  read_packet_ragged ser key ragged positive hk =
      let apart = p.shim_len - 3 + (3 - p.shim_len) in
      let distance : (if ltb p.shim_len 3 then 3 - p.shim_len else p.shim_len - 3) ≡ apart =
        ground arith in
      read_packet-key ser key hk
      ∙ rw (read_report-headers, distance, ne→== _ _ positive, ne→== _ _ ragged)
