-- ===== src/Int/Hops.antt =====
-- The loop of `IntController::handlePacketIn` in control_plane/controllers/int/int.cpp that reads the
-- metadata of each hop from the INT stack.
pub mod Fields
pub mod RoundTrip
pub mod Bounds
pub mod Metadata
use scion_int_p.Prelude.{
  ℕ, zero, suc, ◌+◌, ◌*◌, ◌/◌, ◌%◌, ◌^◌, bit_and, List, [], ◌∷◌, Bytes, Bool, not, ◌==◌,
  if◌then◌else◌,
}
use scion_int_p.Prelude.Words.{u32, u64}
use scion_int_p.Outcome.{Outcome, ok, ◌>>=◌}
use scion_int_p.TakeUint.{char_at, take_uint64, take_uint32}
use scion_int_p.Report.{
  Hop, new_hop, push_byte, set_asn, set_node_id, interface_level1, hop_latency, queue_occupancy,
  ingress_timestamp, egress_timestamp, interface_level2, egress_tx_utilization, buffer_occupancy,
}

-- A part of the loop's body: from the position in the packet and the hop so far to the next.
abbrev pub Field : Type 0
Field = Bytes → ℕ × Hop → Outcome (ℕ × Hop)

infixr 6 ◌▹◌
abbrev pub ◌▹◌ : Field → Field → Field
◌▹◌ f g payload s = f payload s >>= λ s'. g payload s'

-- `bitmap & (1 << bit)`
unfoldable pub has_bit : ℕ → ℕ → Bool
has_bit bitmap bit = not (bit_and bitmap (2 ^ bit) == 0)

abbrev pub when : Bool → Field → Field
when b f payload s = if b then f payload s else ok s

unfoldable pub push : ℕ → ℕ → Hop → Hop
push kind byte hop = record hop { metadata = push_byte kind byte hop.metadata }

unfoldable pub read_node_id : Field
read_node_id payload (pos, hop) = do
  node_id ← take_uint32 payload pos
  ok (u32 (pos + 4), set_node_id node_id hop)

-- `for (int j = 0; j < count; j++) (*metadata)[kind].push_back(*(payload + pos + j));`
pub copy_loop : ℕ → Bytes → ℕ → ℕ → ℕ → Hop → Outcome Hop
copy_loop kind payload pos j zero hop = ok hop
copy_loop kind payload pos j (suc rounds) hop = do
  byte ← char_at payload (pos + j)
  copy_loop kind payload pos (j + 1) rounds (push kind byte hop)

unfoldable pub copy_field : ℕ → ℕ → Field
unfolding copy_loop
copy_field kind count payload (pos, hop) = do
  hop' ← copy_loop kind payload pos 0 count hop
  ok (u32 (pos + count), hop')

-- `for (int i = 7; i >= 0; i--)` over the bytes of a uint64_t in memory.
pub push_loop : ℕ → ℕ → ℕ → Hop → Hop
push_loop kind number zero hop = hop
push_loop kind number (suc i) hop = push_loop kind number i (push kind (number / 256 ^ i % 256) hop)

-- Timestamps are multiplied by 1000 in uint64_t.
unfoldable pub read_time : ℕ → Field
unfolding push_loop
read_time kind payload (pos, hop) = do
  time ← take_uint64 payload pos
  ok (u32 (pos + 8), push_loop kind (u64 (time * 1000)) 8 hop)

unfoldable pub read_asn : Field
read_asn payload (pos, hop) = do asn ← take_uint64 payload pos; ok (u32 (pos + 8), set_asn asn hop)

unfoldable pub read_hop : ℕ → ℕ → Field
read_hop bitmap_int bitmap_scion =
    when (has_bit bitmap_int 15) read_node_id
    ▹ when (has_bit bitmap_int 14) (copy_field interface_level1 4)
    ▹ when (has_bit bitmap_int 13) (copy_field hop_latency 4)
    ▹ when (has_bit bitmap_int 12) (copy_field queue_occupancy 4)
    ▹ when (has_bit bitmap_int 11) (read_time ingress_timestamp)
    ▹ when (has_bit bitmap_int 10) (read_time egress_timestamp)
    ▹ when (has_bit bitmap_int 9) (copy_field interface_level2 8)
    ▹ when (has_bit bitmap_int 8) (copy_field egress_tx_utilization 4)
    ▹ when (has_bit bitmap_int 7) (copy_field buffer_occupancy 4)
    ▹ when (has_bit bitmap_scion 0) read_asn

-- The hops in the order of the stack; `rounds` is the number that is left.
unfoldable pub read_hops : ℕ → ℕ → Bytes → ℕ → ℕ → Outcome (List Hop)
read_hops bitmap_int bitmap_scion payload zero pos = ok []
read_hops bitmap_int bitmap_scion payload (suc rounds) pos = do
  (pos', hop) ← read_hop bitmap_int bitmap_scion payload (pos, new_hop)
  hops ← read_hops bitmap_int bitmap_scion payload rounds pos'
  ok (hop ∷ hops)
