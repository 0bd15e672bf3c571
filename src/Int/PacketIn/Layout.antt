-- ===== src/Int/PacketIn/Layout.antt =====
-- The packets that the data plane clones to the controller, and where their fields stand.
use scion_int_p.Prelude.{
  ℕ, ◌+◌, ◌^◌, ◌<◌, ◌≡◌, refl, List, [], ◌∷◌, ◌++◌, Bytes, All, length, length-append, arith,
}
use scion_int_p.Prelude.Endian.{be_digits, length-be_digits}
use scion_int_p.TakeUint.Segments.{At, At-head, At-skip, At-left, At-move}
use scion_int_p.Int.PacketIn.{int_identifier}
use scion_int_p.Int.Hops.RoundTrip.Stack.{Recorded, IsRecorded, stack_of}

-- A packet with an INT stack. Its headers are SCION's from the common header on (`flow_word`, eight
-- bytes, the destination's ISD and AS, and the `headers` behind them), then the INT shim header and
-- the INT metadata header. The data plane puts their length in front of them, and `int_identifier`
-- in front of that.
pub record IntPacket : Type 0 where
  pub flow_word : ℕ
  pub common : Bytes
  pub destination : ℕ
  pub headers : Bytes
  pub shim_type : ℕ
  pub shim_len : ℕ
  pub shim_flags : Bytes
  pub int_flags : Bytes
  pub hop_ml : ℕ
  pub remaining : ℕ
  pub bitmap_int : ℕ
  pub domain : Bytes
  pub bitmap_scion : ℕ
  pub domain_flags : Bytes
  pub hops : List Recorded
  pub rest : Bytes

abbrev pub int_headers : IntPacket → Bytes
int_headers p =
    (p.shim_type ∷ [])
    ++ ((p.shim_len ∷ [])
        ++ (p.shim_flags
            ++ (p.int_flags
                ++ ((p.hop_ml ∷ [])
                    ++ ((p.remaining ∷ [])
                        ++ (be_digits 2 p.bitmap_int
                            ++ (p.domain ++ (be_digits 2 p.bitmap_scion ++ p.domain_flags))))))))

abbrev pub header_bytes : IntPacket → Bytes
header_bytes p =
    be_digits 4 p.flow_word
    ++ (p.common ++ (be_digits 8 p.destination ++ (p.headers ++ int_headers p)))

abbrev pub stack_bytes : IntPacket → Bytes
stack_bytes p = stack_of p.bitmap_int p.bitmap_scion p.hops

abbrev pub packet_bytes : IntPacket → Bytes
packet_bytes p =
    be_digits 8 int_identifier
    ++ (be_digits 8 (length (header_bytes p)) ++ (header_bytes p ++ (stack_bytes p ++ p.rest)))

-- The fields fit their widths, and the packet is shorter than 4 GiB.
pub record IsIntPacket (p : IntPacket) : Type 0 where
  pub flow_u32 : p.flow_word < 2 ^ 32
  pub common_size : length p.common ≡ 8
  pub destination_u64 : p.destination < 2 ^ 64
  pub shim_flags_size : length p.shim_flags ≡ 2
  pub int_flags_size : length p.int_flags ≡ 2
  pub bitmap_int_u16 : p.bitmap_int < 2 ^ 16
  pub domain_size : length p.domain ≡ 2
  pub bitmap_scion_u16 : p.bitmap_scion < 2 ^ 16
  pub domain_flags_size : length p.domain_flags ≡ 2
  pub hops_recorded : All IsRecorded p.hops
  pub size : 16 + length (header_bytes p) + length (stack_bytes p) < 2 ^ 32

module _ (p : IntPacket) (h : IsIntPacket p) where
  length-int_headers : length (int_headers p) ≡ 16
  length-int_headers = omega (
    arith,
    h.shim_flags_size,
    h.int_flags_size,
    h.domain_size,
    h.domain_flags_size,
    length-be_digits 2 p.bitmap_int,
    length-be_digits 2 p.bitmap_scion,
    length-append p.shim_flags _,
    length-append p.int_flags _,
    length-append p.domain _,
    length-append (be_digits 2 p.bitmap_scion) p.domain_flags,
  )

  pub length-header_bytes : length (header_bytes p) ≡ 36 + length p.headers
  length-header_bytes = omega (
    arith,
    h.common_size,
    length-int_headers,
    length-be_digits 4 p.flow_word,
    length-be_digits 8 p.destination,
    length-append p.common _,
    length-append p.headers (int_headers p),
  )

  -- What stands at `pos` of the headers stands 16 bytes later in the packet.
  in_packet :
      {pos : ℕ} {part : Bytes} → At (header_bytes p) pos part → At (packet_bytes p) (16 + pos) part
  in_packet {pos = pos} a = At-move _ (omega arith) (
      At-skip (be_digits 8 int_identifier) 8 (length-be_digits 8 int_identifier) (
        At-skip (be_digits 8 (length (header_bytes p))) 8
          (length-be_digits 8 (length (header_bytes p))) (At-left _ a)))

  in_int_headers :
      {pos : ℕ} {part : Bytes}
      → At (int_headers p) pos part
      → At (packet_bytes p) (length (header_bytes p) + pos) part
  in_int_headers a = At-move _ (omega (arith, length-header_bytes)) (
      in_packet (
        At-skip (be_digits 4 p.flow_word) 4 (length-be_digits 4 p.flow_word) (
          At-skip p.common 8 h.common_size (
            At-skip (be_digits 8 p.destination) 8 (length-be_digits 8 p.destination)
              (At-skip p.headers (length p.headers) refl a)))))

  pub At-identifier : At (packet_bytes p) 0 (be_digits 8 int_identifier)
  At-identifier = At-head _ _

  pub At-length : At (packet_bytes p) 8 (be_digits 8 (length (header_bytes p)))
  At-length =
      At-skip (be_digits 8 int_identifier) 8 (length-be_digits 8 int_identifier) (At-head _ _)

  pub At-flow_word : At (packet_bytes p) 16 (be_digits 4 p.flow_word)
  At-flow_word = in_packet (At-head _ _)

  pub At-destination : At (packet_bytes p) 28 (be_digits 8 p.destination)
  At-destination = in_packet (
      At-skip (be_digits 4 p.flow_word) 4 (length-be_digits 4 p.flow_word)
        (At-skip p.common 8 h.common_size (At-head _ _)))

  pub At-shim_len : At (packet_bytes p) (length (header_bytes p) + 1) (p.shim_len ∷ [])
  At-shim_len = in_int_headers (At-skip (p.shim_type ∷ []) 1 refl (At-head _ _))

  pub At-hop_ml : At (packet_bytes p) (length (header_bytes p) + 6) (p.hop_ml ∷ [])
  At-hop_ml = in_int_headers (
      At-skip (p.shim_type ∷ []) 1 refl (
        At-skip (p.shim_len ∷ []) 1 refl (
          At-skip p.shim_flags 2 h.shim_flags_size
            (At-skip p.int_flags 2 h.int_flags_size (At-head _ _)))))

  after_hop_ml :
      {pos : ℕ} {part : Bytes}
      → At
          (be_digits 2 p.bitmap_int ++ (p.domain ++ (be_digits 2 p.bitmap_scion ++ p.domain_flags)))
          pos
          part
      → At (packet_bytes p) (length (header_bytes p) + (8 + pos)) part
  after_hop_ml {pos = pos} a = At-move _ (omega arith) (
      in_int_headers (
        At-skip (p.shim_type ∷ []) 1 refl (
          At-skip (p.shim_len ∷ []) 1 refl (
            At-skip p.shim_flags 2 h.shim_flags_size (
              At-skip p.int_flags 2 h.int_flags_size
                (At-skip (p.hop_ml ∷ []) 1 refl (At-skip (p.remaining ∷ []) 1 refl a)))))))

  pub At-bitmap_int : At (packet_bytes p) (length (header_bytes p) + 8) (be_digits 2 p.bitmap_int)
  At-bitmap_int = after_hop_ml (At-head _ _)

  pub At-bitmap_scion :
      At (packet_bytes p) (length (header_bytes p) + 12) (be_digits 2 p.bitmap_scion)
  At-bitmap_scion = after_hop_ml (
      At-skip (be_digits 2 p.bitmap_int) 2 (length-be_digits 2 p.bitmap_int)
        (At-skip p.domain 2 h.domain_size (At-head _ _)))
