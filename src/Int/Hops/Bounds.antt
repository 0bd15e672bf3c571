-- ===== src/Int/Hops/Bounds.antt =====
-- How far the loop over the hops reads.
use scion_int_p.Prelude.{
  ℕ, zero, suc, ◌+◌, ◌*◌, ◌^◌, ◌≤◌, ◌<◌, ◌≡◌, refl, Bytes, Bool, true, false, length, if◌then◌else◌,
  get_elem?-lt, arith,
}
use scion_int_p.Outcome.{Ends, Ends-bind}
use scion_int_p.TakeUint.BigEndian.{char_at-get_elem?, take_uint64-be, take_uint32-be}
use scion_int_p.Report.{
  Hop, new_hop, interface_level1, hop_latency, queue_occupancy, ingress_timestamp, egress_timestamp,
  interface_level2, egress_tx_utilization, buffer_occupancy,
}
use scion_int_p.Int.Hops.{
  Field, ◌▹◌, has_bit, when, push, read_node_id, copy_loop, copy_field, read_time, read_asn,
  read_hop, read_hops,
}

abbrev pub size_when : Bool → ℕ → ℕ
size_when b n = if b then n else 0

-- The bytes of a hop: four for each asked field of four, eight for the timestamps, the level-2
-- interfaces and the AS.
abbrev pub hop_bytes : ℕ → ℕ → ℕ
hop_bytes int scion =
    size_when (has_bit int 15) 4
    + (size_when (has_bit int 14) 4
        + (size_when (has_bit int 13) 4
            + (size_when (has_bit int 12) 4
                + (size_when (has_bit int 11) 8
                    + (size_when (has_bit int 10) 8
                        + (size_when (has_bit int 9) 8
                            + (size_when (has_bit int 8) 4
                                + (size_when (has_bit int 7) 4
                                    + size_when (has_bit scion 0) 8))))))))

-- The part of the body reads `n` bytes, if they are there, and moves behind them.
record Fits (f : Field) (n : ℕ) : Type 0 where
  pub ends :
      (payload : Bytes) (pos end : ℕ) (hop : Hop)
      → length payload < 2 ^ 32
      → end ≡ pos + n
      → end ≤ length payload
      → Ends (λ r. r.0 ≡ end) (f payload (pos, hop))

module _ {f g : Field} {n m : ℕ} where
  Fits-▹ : Fits f n → Fits g m → Fits (f ▹ g) (n + m)
  Fits-▹ hf hg = record {
    ends = λ payload pos end hop small at inside.
        Ends-bind (λ r. r.0 ≡ pos + n) (λ r. r.0 ≡ end) (f payload (pos, hop)) _
          (hf.ends payload pos (pos + n) hop small refl (omega (arith, at, inside)))
          λ r at'. hg.ends payload r.0 end r.1 small (omega (arith, at, at')) inside;
  }

Fits-when : (b : Bool) {f : Field} {n : ℕ} → Fits f n → Fits (when b f) (size_when b n)
Fits-when true h = record { ends = h.ends }
Fits-when false h = record { ends = λ payload pos end hop small at inside. omega (arith, at) }

Fits-node_id : Fits read_node_id 4
unfolding read_node_id
Fits-node_id = record {
  ends = λ payload pos end hop small at inside.
      rw (take_uint32-be payload pos (omega (arith, at, inside)))
        (omega (arith, small, at, inside));
}

Fits-asn : Fits read_asn 8
unfolding read_asn
Fits-asn = record {
  ends = λ payload pos end hop small at inside.
      rw (take_uint64-be payload pos (omega (arith, at, inside)))
        (omega (arith, small, at, inside));
}

Fits-time : (kind : ℕ) → Fits (read_time kind) 8
unfolding read_time
Fits-time kind = record {
  ends = λ payload pos end hop small at inside.
      rw (take_uint64-be payload pos (omega (arith, at, inside)))
        (omega (arith, small, at, inside));
}

copy_loop-Ends :
    (kind : ℕ) (payload : Bytes) (pos j rounds : ℕ) (hop : Hop)
    → pos + j + rounds ≤ length payload
    → Ends (λ hop'. Unit {0}) (copy_loop kind payload pos j rounds hop)
unfolding copy_loop
copy_loop-Ends kind payload pos j zero hop inside = tt
copy_loop-Ends kind payload pos j (suc rounds) hop inside =
    let (byte, found) = get_elem?-lt payload (pos + j) (omega (arith, inside)) in
    rw (char_at-get_elem? payload (pos + j) found)
      (copy_loop-Ends kind payload pos (j + 1) rounds (push kind byte hop) (omega (arith, inside)))

Fits-copy : (kind count : ℕ) → Fits (copy_field kind count) count
unfolding copy_field
Fits-copy kind count = record {
  ends = λ payload pos end hop small at inside.
      Ends-bind (λ hop'. Unit {0}) (λ r. r.0 ≡ end) (copy_loop kind payload pos 0 count hop) _
        (copy_loop-Ends kind payload pos 0 count hop (omega (arith, at, inside)))
        λ hop' u. omega (arith, small, at, inside);
}

Fits-hop : (int scion : ℕ) → Fits (read_hop int scion) (hop_bytes int scion)
unfolding read_hop
Fits-hop int scion = Fits-▹ (Fits-when (has_bit int 15) Fits-node_id) (
    Fits-▹ (Fits-when (has_bit int 14) (Fits-copy interface_level1 4)) (
      Fits-▹ (Fits-when (has_bit int 13) (Fits-copy hop_latency 4)) (
        Fits-▹ (Fits-when (has_bit int 12) (Fits-copy queue_occupancy 4)) (
          Fits-▹ (Fits-when (has_bit int 11) (Fits-time ingress_timestamp)) (
            Fits-▹ (Fits-when (has_bit int 10) (Fits-time egress_timestamp)) (
              Fits-▹ (Fits-when (has_bit int 9) (Fits-copy interface_level2 8)) (
                Fits-▹ (Fits-when (has_bit int 8) (Fits-copy egress_tx_utilization 4)) (
                  Fits-▹ (Fits-when (has_bit int 7) (Fits-copy buffer_occupancy 4))
                    (Fits-when (has_bit scion 0) Fits-asn)))))))))

suc_mul : (rounds size : ℕ) → suc rounds * size ≡ size + rounds * size
suc_mul rounds size = omega arith

-- Hops that lie in the packet are read without a read outside of it.
pub read_hops-Ends :
    (int scion : ℕ) (payload : Bytes) (rounds pos : ℕ)
    → length payload < 2 ^ 32
    → pos + rounds * hop_bytes int scion ≤ length payload
    → Ends (λ hops. Unit {0}) (read_hops int scion payload rounds pos)
unfolding read_hops
read_hops-Ends int scion payload zero pos small inside = tt
read_hops-Ends int scion payload (suc rounds) pos small inside =
    let size = hop_bytes int scion in
    let unroll : suc rounds * size ≡ size + rounds * size = suc_mul rounds size in
    Ends-bind (λ r. r.0 ≡ pos + size) (λ hops. Unit {0}) (read_hop int scion payload (pos, new_hop))
      _
      ((Fits-hop int scion).ends payload pos (pos + size) new_hop small refl
        (omega (arith, inside, unroll)))
      λ r at.
        Ends-bind (λ hops. Unit {0}) (λ hops. Unit {0}) (read_hops int scion payload rounds r.0) _
          (read_hops-Ends int scion payload rounds r.0 small (omega (arith, inside, at, unroll)))
          λ hops u. tt
