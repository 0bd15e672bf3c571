-- ===== src/Int/Hops/RoundTrip.antt =====
-- The loop over the hops reads back what the switches have recorded.
pub mod Stack
use native.Mathlib.Nat.{mod-eq_of_lt}
use scion_int_p.Prelude.{
  ℕ, zero, suc, ◌+◌, ◌*◌, ◌%◌, ◌^◌, ◌≤◌, ◌<◌, ◌≡◌, refl, sym, ap, ap₂, ◌∙◌, List, [], ◌∷◌, ◌++◌,
  Bytes, Bool, true, false, if◌then◌else◌, All, All-append, append-nil, append_assoc, length,
  length-append, get_elem?, get_elem?-append, get_elem?-left, arith, subst,
}
use scion_int_p.Prelude.Words.{u32, u64}
use scion_int_p.Prelude.Endian.{be_digits, length-be_digits}
use scion_int_p.Outcome.{ok}
use scion_int_p.TakeUint.{take_uint32, take_uint64}
use scion_int_p.TakeUint.BigEndian.{take_uint64-be_digits, take_uint32-be_digits}
use scion_int_p.Report.{
  Hop, Metadata, interface_level1, hop_latency, queue_occupancy, ingress_timestamp,
  egress_timestamp, interface_level2, egress_tx_utilization, buffer_occupancy,
}
use scion_int_p.Int.Hops.{
  Field, ◌▹◌, has_bit, when, read_node_id, copy_loop, copy_field, read_time, read_asn, read_hop,
}
use scion_int_p.Int.Hops.Fields.{
  Below, Below-mono, Reads, Reads-▹, with_metadata, with_kind, Stands, copy_loop-bytes,
  push_loop-be_digits,
}

-- What a bitmap does not ask for is not there.
abbrev pub part : {A : Type 0} → Bool → List A → List A
part b xs = if b then xs else []

pub Below-kind :
    (kind : ℕ) (bytes : Bytes) (m : Metadata)
    → Below kind m
    → Below (kind + 1) (m ++ ((kind, bytes) ∷ []))
Below-kind kind bytes m b =
    All-append (λ e. e.0 < kind + 1) m ((kind, bytes) ∷ [])
      (Below-mono kind (kind + 1) m (omega arith) b) (omega arith, tt)

Stands-append :
    (before todo after : Bytes) (pos : ℕ)
    → pos ≡ length before
    → Stands todo (before ++ (todo ++ after)) pos
Stands-append before todo after pos e i h =
    ap (λ k. get_elem? (before ++ (todo ++ after)) (k + i)) e
    ∙ get_elem?-append before (todo ++ after) i
    ∙ get_elem?-left todo after i h

Reads-copy :
    (kind c : ℕ) (bytes : Bytes)
    → Reads kind
        (kind + 1)
        (copy_field kind (suc (length bytes)))
        (c ∷ bytes)
        (with_kind kind (c ∷ bytes))
unfolding copy_field
Reads-copy kind c bytes = record {
  runs = λ before after pos hop e room b.
      rw
        (copy_loop-bytes kind (before ++ (c ∷ (bytes ++ after))) pos c bytes hop b
          (Stands-append before (c ∷ bytes) after pos e))
        (ap (λ n. ok (n, with_kind kind (c ∷ bytes) hop)) (mod-eq_of_lt room));
  keeps = λ hop b. Below-kind kind (c ∷ bytes) hop.metadata b;
}

Reads-time :
    (kind time : ℕ)
    → time < 2 ^ 64
    → Reads kind
        (kind + 1)
        (read_time kind)
        (be_digits 8 time)
        (with_kind kind (be_digits 8 (u64 (time * 1000))))
unfolding read_time
Reads-time kind time h = record {
  runs = λ before after pos hop e room b. rw (take_uint64-be_digits before after pos time e h) (
      ap₂ (λ n hop'. ok (n, hop')) (mod-eq_of_lt room)
        (push_loop-be_digits kind (u64 (time * 1000)) 7 hop b));
  keeps = λ hop b. Below-kind kind _ hop.metadata b;
}

Reads-node_id :
    (k node_id : ℕ)
    → node_id < 2 ^ 32
    → Reads k k read_node_id (be_digits 4 node_id) (λ hop. record hop { node_id = node_id })
unfolding read_node_id
Reads-node_id k node_id h = record {
  runs = λ before after pos hop e room b.
      rw (take_uint32-be_digits before after pos node_id e h)
        (ap (λ n. ok (n, record hop { node_id = node_id })) (mod-eq_of_lt room));
  keeps = λ hop b. b;
}

Reads-asn :
    (k asn : ℕ)
    → asn < 2 ^ 64
    → Reads k k read_asn (be_digits 8 asn) (λ hop. record hop { asn = asn })
unfolding read_asn
Reads-asn k asn h = record {
  runs = λ before after pos hop e room b.
      rw (take_uint64-be_digits before after pos asn e h)
        (ap (λ n. ok (n, record hop { asn = asn })) (mod-eq_of_lt room));
  keeps = λ hop b. b;
}

Reads-skip : (k k' : ℕ) (f : Field) → k ≤ k' → Reads k k' (when false f) [] (λ hop. hop)
Reads-skip k k' f h = record {
  runs = λ before after pos hop e room b. ap (λ n. ok (n, hop)) (omega arith);
  keeps = λ hop b. Below-mono k k' hop.metadata h b;
}

-- The two numbers, where the bitmap asks for them.
pub Reads-node_id_when :
    (k : ℕ) (b : Bool) (node_id : ℕ)
    → node_id < 2 ^ 32
    → Reads k k
        (when b read_node_id)
        (part b (be_digits 4 node_id))
        (λ hop. record hop { node_id = if b then node_id else hop.node_id })
Reads-node_id_when k true node_id h = Reads-node_id k node_id h
Reads-node_id_when k false node_id h = Reads-skip k k read_node_id (omega arith)

pub Reads-asn_when :
    (k : ℕ) (b : Bool) (asn : ℕ)
    → asn < 2 ^ 64
    → Reads k k
        (when b read_asn)
        (part b (be_digits 8 asn))
        (λ hop. record hop { asn = if b then asn else hop.asn })
Reads-asn_when k true asn h = Reads-asn k asn h
Reads-asn_when k false asn h = Reads-skip k k read_asn (omega arith)

-- A field of metadata; what is off adds nothing.
Reads-kind :
    (kind : ℕ) (b : Bool) (f : Field) (e bytes : Bytes)
    → Reads kind (kind + 1) f e (with_kind kind bytes)
    → Reads kind (kind + 1) (when b f) (part b e) (with_metadata (part b ((kind, bytes) ∷ [])))
Reads-kind kind true f e bytes r = r
Reads-kind kind false f e bytes r = record {
  runs = λ before after pos hop at room b.
      ap₂ (λ n m. ok (n, record hop { metadata = m })) (omega arith)
        (sym (append-nil hop.metadata));
  keeps = λ hop b.
      All-append (λ e. e.0 < kind + 1) hop.metadata []
        (Below-mono kind (kind + 1) hop.metadata (omega arith) b) tt;
}

pub Reads-field :
    (kind : ℕ) (b : Bool) (count : ℕ) (bytes : Bytes)
    → 0 < count
    → length bytes ≡ count
    → Reads kind
        (kind + 1)
        (when b (copy_field kind count))
        (part b bytes)
        (with_metadata (part b ((kind, bytes) ∷ [])))
Reads-field kind b count [] h e = absurd (omega arith)
Reads-field kind b count (c ∷ cs) h e =
    Reads-kind kind b (copy_field kind count) (c ∷ cs) (c ∷ cs) (
      subst (λ n. Reads kind (kind + 1) (copy_field kind n) (c ∷ cs) (with_kind kind (c ∷ cs))) e
        (Reads-copy kind c cs))

pub Reads-stamp :
    (kind : ℕ) (b : Bool) (time : ℕ)
    → time < 2 ^ 64
    → Reads kind
        (kind + 1)
        (when b (read_time kind))
        (part b (be_digits 8 time))
        (with_metadata (part b ((kind, be_digits 8 (u64 (time * 1000))) ∷ [])))
Reads-stamp kind b time h =
    Reads-kind kind b (read_time kind) (be_digits 8 time) _ (Reads-time kind time h)
