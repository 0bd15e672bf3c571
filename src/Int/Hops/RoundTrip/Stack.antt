-- ===== src/Int/Hops/RoundTrip/Stack.antt =====
-- An INT stack as the switches of the path write it, and what `read_hops` makes of it.
use scion_int_p.Prelude.{
  ℕ, suc, ◌+◌, ◌*◌, ◌^◌, ◌<◌, ◌≡◌, refl, sym, ap, ◌∙◌, List, [], ◌∷◌, ◌++◌, Bytes, if◌then◌else◌,
  All, append_assoc, length, length-append, arith, map,
}
use scion_int_p.Prelude.Words.{u64}
use scion_int_p.Prelude.Endian.{be_digits}
use scion_int_p.Outcome.{ok}
use scion_int_p.Report.{
  Hop, new_hop, interface_level1, hop_latency, queue_occupancy, ingress_timestamp, egress_timestamp,
  interface_level2, egress_tx_utilization, buffer_occupancy,
}
use scion_int_p.Int.Hops.{has_bit, read_hop, read_hops}
use scion_int_p.Int.Hops.Fields.{Reads, Reads-▹}
use scion_int_p.Int.Hops.RoundTrip.{
  part, Reads-field, Reads-stamp, Reads-node_id_when, Reads-asn_when,
}

-- What one switch has recorded: numbers where the controller reads numbers, bytes where it copies.
pub record Recorded : Type 0 where
  pub node_id : ℕ
  pub level1 : Bytes
  pub latency : Bytes
  pub queue : Bytes
  pub ingress_time : ℕ
  pub egress_time : ℕ
  pub level2 : Bytes
  pub utilization : Bytes
  pub buffer : Bytes
  pub asn : ℕ

pub record IsRecorded (r : Recorded) : Type 0 where
  pub node_id_u32 : r.node_id < 2 ^ 32
  pub level1_size : length r.level1 ≡ 4
  pub latency_size : length r.latency ≡ 4
  pub queue_size : length r.queue ≡ 4
  pub ingress_u64 : r.ingress_time < 2 ^ 64
  pub egress_u64 : r.egress_time < 2 ^ 64
  pub level2_size : length r.level2 ≡ 8
  pub utilization_size : length r.utilization ≡ 4
  pub buffer_size : length r.buffer ≡ 4
  pub asn_u64 : r.asn < 2 ^ 64

-- The part of the stack of one switch: the fields that the bitmaps ask for, in the order of INT.
abbrev pub stack_entry : ℕ → ℕ → Recorded → Bytes
stack_entry int scion r =
    part (has_bit int 15) (be_digits 4 r.node_id)
    ++ (part (has_bit int 14) r.level1
        ++ (part (has_bit int 13) r.latency
            ++ (part (has_bit int 12) r.queue
                ++ (part (has_bit int 11) (be_digits 8 r.ingress_time)
                    ++ (part (has_bit int 10) (be_digits 8 r.egress_time)
                        ++ (part (has_bit int 9) r.level2
                            ++ (part (has_bit int 8) r.utilization
                                ++ (part (has_bit int 7) r.buffer
                                    ++ part (has_bit scion 0) (be_digits 8 r.asn)))))))))

-- The hop of the report: timestamps in units of a thousandth, what is not recorded left out.
abbrev pub hop_of : ℕ → ℕ → Recorded → Hop
hop_of int scion r = record {
  asn = if has_bit scion 0 then r.asn else 0;
  node_id = if has_bit int 15 then r.node_id else 0;
  metadata =
      part (has_bit int 14) ((interface_level1, r.level1) ∷ [])
      ++ part (has_bit int 13) ((hop_latency, r.latency) ∷ [])
      ++ part (has_bit int 12) ((queue_occupancy, r.queue) ∷ [])
      ++ part (has_bit int 11) ((ingress_timestamp, be_digits 8 (u64 (r.ingress_time * 1000))) ∷ [])
      ++ part (has_bit int 10) ((egress_timestamp, be_digits 8 (u64 (r.egress_time * 1000))) ∷ [])
      ++ part (has_bit int 9) ((interface_level2, r.level2) ∷ [])
      ++ part (has_bit int 8) ((egress_tx_utilization, r.utilization) ∷ [])
      ++ part (has_bit int 7) ((buffer_occupancy, r.buffer) ∷ []);
}

abbrev pub stack_of : ℕ → ℕ → List Recorded → Bytes
stack_of int scion [] = []
stack_of int scion (r ∷ rs) = stack_entry int scion r ++ stack_of int scion rs

read_hop-Reads :
    (int scion : ℕ) (r : Recorded)
    → IsRecorded r
    → (u : Hop → Hop) × Reads 1 9 (read_hop int scion) (stack_entry int scion r) u
      × (u new_hop ≡ hop_of int scion r)
unfolding read_hop new_hop
read_hop-Reads int scion r h = (
  _,
  Reads-▹ (Reads-node_id_when 1 (has_bit int 15) r.node_id h.node_id_u32) (
      Reads-▹ (Reads-field 1 (has_bit int 14) 4 r.level1 (omega arith) h.level1_size) (
        Reads-▹ (Reads-field 2 (has_bit int 13) 4 r.latency (omega arith) h.latency_size) (
          Reads-▹ (Reads-field 3 (has_bit int 12) 4 r.queue (omega arith) h.queue_size) (
            Reads-▹ (Reads-stamp 4 (has_bit int 11) r.ingress_time h.ingress_u64) (
              Reads-▹ (Reads-stamp 5 (has_bit int 10) r.egress_time h.egress_u64) (
                Reads-▹ (Reads-field 6 (has_bit int 9) 8 r.level2 (omega arith) h.level2_size) (
                  Reads-▹
                    (Reads-field 7 (has_bit int 8) 4 r.utilization (omega arith) h.utilization_size)
                    (Reads-▹ (Reads-field 8 (has_bit int 7) 4 r.buffer (omega arith) h.buffer_size)
                      (Reads-asn_when 9 (has_bit scion 0) r.asn h.asn_u64))))))))),
  refl,
)

read_hop-stack_entry :
    (int scion : ℕ) (r : Recorded) (before after : Bytes) (pos : ℕ)
    → IsRecorded r
    → pos ≡ length before
    → pos + length (stack_entry int scion r) < 2 ^ 32
    → read_hop int scion (before ++ (stack_entry int scion r ++ after)) (pos, new_hop)
      ≡ ok (pos + length (stack_entry int scion r), hop_of int scion r)
unfolding new_hop
read_hop-stack_entry int scion r before after pos h at room =
    let (u, reads, final) = read_hop-Reads int scion r h in
    reads.runs before after pos new_hop at room tt
    ∙ ap (λ hop. ok (pos + length (stack_entry int scion r), hop)) final

read_hops_step :
    (int scion : ℕ) (payload : Bytes) (rounds pos pos' : ℕ) (hop : Hop) (hops : List Hop)
    → read_hop int scion payload (pos, new_hop) ≡ ok (pos', hop)
    → read_hops int scion payload rounds pos' ≡ ok hops
    → read_hops int scion payload (suc rounds) pos ≡ ok (hop ∷ hops)
unfolding read_hops
read_hops_step int scion payload rounds pos pos' hop hops first others = rw (first, others)

-- Whatever stands before and behind it in the packet, a stack of the two bitmaps is read as the hops
-- that its switches have recorded, in their order, if the packet is shorter than 2^32 bytes.
pub read_hops-stack_of :
    (int scion : ℕ) (rs : List Recorded) (before after : Bytes) (pos : ℕ)
    → All IsRecorded rs
    → pos ≡ length before
    → pos + length (stack_of int scion rs) < 2 ^ 32
    → read_hops int scion (before ++ (stack_of int scion rs ++ after)) (length rs) pos
      ≡ ok (map (hop_of int scion) rs)
read_hops-stack_of int scion [] before after pos h at room = unfold read_hops in refl
read_hops-stack_of int scion (r ∷ rs) before after pos h at room =
    let e = stack_entry int scion r in
    let s = stack_of int scion rs in
    let total : length (e ++ s) ≡ length e + length s = length-append e s in
    let shift : before ++ (e ++ (s ++ after)) ≡ (before ++ e) ++ (s ++ after) =
      sym (append_assoc before e (s ++ after)) in
    let ih =
      read_hops-stack_of int scion rs (before ++ e) after (pos + length e) h.1
        (omega (arith, length-append before e)) (omega arith) in
    ap (λ p. read_hops int scion (before ++ p) (suc (length rs)) pos) (append_assoc e s after)
    ∙ read_hops_step int scion (before ++ (e ++ (s ++ after))) (length rs) pos (pos + length e)
        (hop_of int scion r) (map (hop_of int scion) rs)
        (read_hop-stack_entry int scion r before (s ++ after) pos h.0 at (omega arith))
        (ap (λ p. read_hops int scion p (length rs) (pos + length e)) shift ∙ ih)
