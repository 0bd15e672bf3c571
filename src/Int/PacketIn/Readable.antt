-- ===== src/Int/PacketIn/Readable.antt =====
-- Which payloads the sink reads without leaving them.
use scion_int_p.Prelude.{
  ℕ, ◌+◌, ◌-◌, ◌*◌, ◌/◌, ◌%◌, ◌^◌, ◌≤◌, ◌<◌, ◌≡◌, ◌≢◌, ap, ◌∙◌, Bytes, Option, none, some, length,
  take, drop, get_elem?, get_elem?-lt, arith, inl, inr, ltb, sym, if◌then◌else◌, ltb→lt, ltb→le,
  le→ltb, Bool-cases, ◌==◌, ne→==, ◌⊎◌,
}
use scion_int_p.Prelude.Endian.{be}
use scion_int_p.Prelude.Words.{u32}
use scion_int_p.Exec.{Env, Trace}
use scion_int_p.Outcome.{fault, out_of_bounds, ok, Ends, Ends-bind, ◌>>=◌}
use scion_int_p.Report.{Serializer}
use scion_int_p.TakeUint.{take_uint64, take_uint8}
use scion_int_p.TakeUint.BigEndian.{
  take_uint_outside, char_at-get_elem?, take_uint16-be, take_uint32-be, take_uint64-be,
}
use scion_int_p.Int.Hops.{read_hops}
use scion_int_p.Int.Hops.Bounds.{hop_bytes, read_hops-Ends}
use scion_int_p.Int.PacketIn.{
  int_identifier, IntController, handle_packet_in, stack_rounds, read_stack, read_report,
  read_with_key, read_flow, read_packet,
}
use scion_int_p.Int.PacketIn.Handler.{
  IsForeign, too_short, cut_off, identifier_of, length_of, read_identifier, read_length,
  read_packet_foreign,
}

abbrev value_or_zero : Option ℕ → ℕ
value_or_zero (some b) = b
value_or_zero none = 0

abbrev pub byte_at : Bytes → ℕ → ℕ
byte_at payload i = value_or_zero (get_elem? payload i)

abbrev pub word_at : Bytes → ℕ → ℕ
word_at payload i = be (take 2 (drop i payload))

-- The headers hold what is read of them, the hop length is not zero, and the hops that the shim length
-- announces lie in the payload.
pub record IsComplete (payload : Bytes) : Type 0 where
  pub small : length payload < 2 ^ 32
  pub headers : 20 ≤ length_of payload
  pub nonempty : byte_at payload (length_of payload + 6) % 2 ^ 5 ≢ 0
  pub stack :
      16
        + length_of payload
        + (byte_at payload (length_of payload + 1) - 3)
          / (byte_at payload (length_of payload + 6) % 2 ^ 5)
          * hop_bytes
              (word_at payload (length_of payload + 8))
              (word_at payload (length_of payload + 12))
      ≤ length payload

take_uint8-byte_at :
    (payload : Bytes) (i : ℕ) → i < length payload → take_uint8 payload i ≡ ok (byte_at payload i)
unfolding take_uint8
take_uint8-byte_at payload i h =
    let (b, found) = get_elem?-lt payload i h in
    char_at-get_elem? payload i found ∙ ap ok (ap value_or_zero (sym found))

module _ (payload : Bytes) (h : IsComplete payload)
    (inside : length_of payload ≤ length payload - 16) where
  abbrev header : ℕ
  header = length_of payload

  abbrev shim_len : ℕ
  shim_len = byte_at payload (header + 1)

  abbrev hop_len : ℕ
  hop_len = byte_at payload (header + 6) % 2 ^ 5

  abbrev bitmap_int : ℕ
  bitmap_int = word_at payload (header + 8)

  abbrev bitmap_scion : ℕ
  bitmap_scion = word_at payload (header + 12)

  abbrev distance : ℕ
  distance = if ltb shim_len 3 then 3 - shim_len else shim_len - 3

  read_stack-Ends :
      Ends
        (λ r. Unit {0})
        (read_stack payload header bitmap_int bitmap_scion (some ((shim_len - 3) / hop_len)))
  unfolding read_stack
  read_stack-Ends =
      Ends-bind (λ hops. Unit {0}) (λ r. Unit {0})
        (read_hops bitmap_int bitmap_scion payload ((shim_len - 3) / hop_len) (u32 (16 + header))) _
        (read_hops-Ends bitmap_int bitmap_scion payload ((shim_len - 3) / hop_len)
          (u32 (16 + header)) h.small (omega (arith, h.small, h.stack, inside)))
        λ hops u. tt

  rounds-Ends :
      Ends
        (λ r. Unit {0})
        (stack_rounds shim_len hop_len >>= λ rounds.
          read_stack payload header bitmap_int bitmap_scion rounds)
  unfolding stack_rounds
  rounds-Ends = rw (ne→== _ _ h.nonempty) (elim (Bool-cases (distance % hop_len == 0)) [
    | inl whole ↦ rw whole read_stack-Ends
    | inr partial ↦ rw partial (unfold read_stack in tt)
  ])

  read_report-Ends : Ends (λ r. Unit {0}) (read_report payload header)
  unfolding read_report
  read_report-Ends =
      let at_int : u32 (16 + header - 8) ≡ header + 8 = omega (arith, h.small, h.headers, inside) in
      let at_scion : u32 (16 + header - 4) ≡ header + 12 =
        omega (arith, h.small, h.headers, inside) in
      let at_shim : u32 (16 + header - 12 - 3) ≡ header + 1 =
        omega (arith, h.small, h.headers, inside) in
      let at_hop : u32 (16 + header - 10) ≡ header + 6 =
        omega (arith, h.small, h.headers, inside) in
      rw
        (
          at_int,
          at_scion,
          at_shim,
          at_hop,
          take_uint16-be payload (header + 8) (omega (arith, h.headers, inside)),
          take_uint16-be payload (header + 12) (omega (arith, h.headers, inside)),
          take_uint8-byte_at payload (header + 1) (omega (arith, h.headers, inside)),
          take_uint8-byte_at payload (header + 6) (omega (arith, h.headers, inside)),
        )
        rounds-Ends

  module _ (ser : Serializer) where
    read_with_key-Ends :
        (key : Option Bytes) → Ends (λ r. Unit {0}) (read_with_key ser payload header key)
    unfolding read_with_key
    read_with_key-Ends none = tt
    read_with_key-Ends (some key) =
        rw (take_uint64-be payload 28 (omega (arith, h.headers, inside))) (
          Ends-bind (λ r. Unit {0}) (λ r. Unit {0}) (read_report payload header) _ read_report-Ends
            λ r u. tt)

    read_flow-Ends : Ends (λ r. Unit {0}) (read_flow ser payload header)
    unfolding read_flow
    read_flow-Ends =
        rw (take_uint32-be payload 16 (omega (arith, h.headers, inside))) (read_with_key-Ends _)

module _ (ser : Serializer) (payload : Bytes) where
  read_packet_inside :
      16 ≤ length payload
      → length_of payload ≤ length payload - 16
      → IsComplete payload
      → Ends (λ m. Unit {0}) (read_packet ser payload)
  unfolding read_packet
  read_packet_inside long inside h =
      rw
        (
          le→ltb (length payload) 16 long,
          read_identifier ser payload long,
          read_length ser payload long,
          le→ltb (length payload - 16) (length_of payload) inside,
        )
        (elim (Bool-cases (identifier_of payload == int_identifier)) [
          | inl same ↦ rw same (read_flow-Ends payload h inside ser)
          | inr differs ↦ rw differs tt
        ])

  read_packet_complete : IsComplete payload → Ends (λ m. Unit {0}) (read_packet ser payload)
  read_packet_complete h = elim (Bool-cases (ltb (length payload) 16)) [
    | inl short ↦
        rw (read_packet_foreign ser payload (too_short (ltb→lt (length payload) 16 short))) tt
    | inr long ↦ elim (Bool-cases (ltb (length payload - 16) (length_of payload))) [
      | inl cut ↦
          rw (read_packet_foreign ser payload (cut_off (ltb→le _ _ long) (ltb→lt _ _ cut))) tt
      | inr inside ↦ read_packet_inside (ltb→le _ _ long) (ltb→le _ _ inside) h
    ]
  ]

  -- A payload that is no INT packet, or whose headers are long enough and whose stack lies inside, with a
  -- hop length other than zero, is read without undefined behaviour, whatever the serialiser does.
  pub read_packet-Ends :
      IsForeign payload ⊎ IsComplete payload → Ends (λ m. Unit {0}) (read_packet ser payload)
  read_packet-Ends (inl foreign) = rw (read_packet_foreign ser payload foreign) tt
  read_packet-Ends (inr complete) = read_packet_complete complete

module _ (env : Env) (ser : Serializer) (ctrl : IntController) where
  -- A marked payload of 20 to 34 bytes whose announced headers end inside is read behind its end, if its
  -- key can be serialised: the destination would stand in the bytes 28 to 35.
  pub handle_packet_in_overrun :
      (payload key : Bytes) (t : Trace)
      → 20 ≤ length payload
      → length payload < 35
      → identifier_of payload ≡ int_identifier
      → length_of payload ≤ length payload - 16
      → ser.serialize_key (record { flow_id = be (take 4 (drop 16 payload)) % 2 ^ 20 }) ≡ some key
      → handle_packet_in env ser ctrl payload t ≡ (fault out_of_bounds, t)
  unfolding handle_packet_in read_packet read_flow read_with_key take_uint64
  handle_packet_in_overrun payload key t long short marked inside hk =
      let above : 16 ≤ length payload = omega (arith, long) in
      rw (
        le→ltb (length payload) 16 above,
        read_identifier ser payload above,
        read_length ser payload above,
        le→ltb (length payload - 16) (length_of payload) inside,
        marked,
        take_uint32-be payload 16 (omega (arith, long)),
        hk,
        take_uint_outside 7 payload 28 (omega (arith, short)),
      )
