-- ===== src/Report/Decode.antt =====
-- control_plane/controllers/int/report/report.pb.cc: `_InternalParse`, by which a reader gets the
-- messages back.
use scion_int_p.Prelude.{ℕ, List, [], ◌∷◌, ◌++◌, Bytes, Option, none, some, ◌==◌, if◌then◌else◌}
use scion_int_p.Prelude.Words.{u32, u64}
use scion_int_p.Report.{Metadata, Hop, FlowKey, new_hop, new_flow_key}
use scion_int_p.Report.Wire.{varint, delimited, WireField, Runtime}

infixl 5 ◌>>=◌
abbrev pub ◌>>=◌ {ℓ κ} : {A : Type ℓ} {B : Type κ} → Option A → (A → Option B) → Option B
none >>= f = none
some a >>= f = f a

-- A report as it is read: an enumeration is open, so that its number is kept.
pub record ReadReport : Type 0 where
  pub hops : List Hop
  pub packet_type : ℕ
  pub truncated_packet : Bytes

-- `map[key] = value`
unfoldable pub set_entry : ℕ × Bytes → Metadata → Metadata
set_entry e [] = e ∷ []
set_entry e (x ∷ m) = if x.0 == e.0 then e ∷ m else x ∷ set_entry e m

-- The fields of a message one after the other.
abbrev pub fold_fields {ℓ} :
    {A : Type ℓ} → (WireField → A → Option A) → List WireField → A → Option A
fold_fields step [] a = some a
fold_fields step (f ∷ fs) a = do a' ← step f a; fold_fields step fs a'

abbrev pub empty_report : ReadReport
empty_report = record { hops = []; packet_type = 0; truncated_packet = [] }

-- The fields other than `flow_id`, which this record lacks, are skipped.
unfoldable pub key_step : WireField → FlowKey → Option FlowKey
key_step (n, varint v) key = if n == 3 then some (record key { flow_id = u32 v }) else some key
key_step f key = some key

module _ (rt : Runtime) where
  -- Fields of other numbers or wire types are skipped: they are kept as unknown.
  unfoldable pub hop_step : WireField → Hop → Option Hop
  hop_step (n, varint v) hop =
      if n == 1
      then some (record hop { asn = u64 v })
      else if n == 2
      then some (record hop { node_id = u32 v })
      else some hop
  hop_step (n, delimited bytes) hop =
      if n == 3
      then (rt.parse_entry bytes >>= λ e. some (record hop { metadata = set_entry e hop.metadata }))
      else some hop
  hop_step f hop = some hop

  unfoldable pub read_hop_message : Bytes → Option Hop
  unfolding new_hop
  read_hop_message bytes = do fields ← rt.parse bytes; fold_fields hop_step fields new_hop

  unfoldable pub report_step : WireField → ReadReport → Option ReadReport
  report_step (n, varint v) report =
      if n == 2 then some (record report { packet_type = u32 v }) else some report
  report_step (n, delimited bytes) report =
      if n == 1
      then (read_hop_message bytes >>= λ hop.
          some (record report { hops = report.hops ++ (hop ∷ []) }))
      else if n == 3
      then some (record report { truncated_packet = bytes })
      else some report
  report_step f report = some report

  unfoldable pub read_report_message : Bytes → Option ReadReport
  read_report_message bytes = do
    fields ← rt.parse bytes
    fold_fields report_step fields empty_report

  unfoldable pub read_key_message : Bytes → Option FlowKey
  read_key_message bytes = do fields ← rt.parse bytes; fold_fields key_step fields new_flow_key
