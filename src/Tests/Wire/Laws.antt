-- ===== src/Tests/Wire/Laws.antt =====
-- That the runtime of the tests behaves as documented.
use mathlib.Core.List.Perm
use scion_int_p.Prelude.{
  ℕ, zero, suc, ◌+◌, ◌*◌, ◌/◌, ◌%◌, ◌^◌, ◌≤◌, ◌<◌, ◌≡◌, refl, sym, ap, ◌∙◌, List, [], ◌∷◌, ◌++◌,
  Bytes, false, some, ltb, lt→ltb, le→ltb, length, length-append, take-append, drop-append, All,
  append_assoc, append-nil, arith, Bool-cases, inl, inr,
}
use scion_int_p.Report.Wire.{
  Value, varint, fixed64, fixed32, delimited, WireField, IsRuntime, IsWritten, message_limit,
  write_fields, value_size,
}
use scion_int_p.Tests.Wire.{groups, read_groups, write_value, read_value, read_fields, wire}

read_groups-groups :
    (k v : ℕ) (bytes : Bytes)
    → v < 128 ^ suc k
    → read_groups (groups k v ++ bytes) ≡ some (v, bytes)
unfolding groups read_groups
read_groups-groups zero v bytes h = ground arith
read_groups-groups (suc k) v bytes h = elim (Bool-cases (ltb v 128)) [
  | inl last ↦ rw (last) (rw last refl)
  | inr more ↦
      rw
        (
          more,
          le→ltb (v % 128 + 128) 128 (omega arith),
          read_groups-groups k (v / 128) bytes (omega arith),
        )
        (ap (λ n. some (n, bytes)) (omega arith))
]

length-groups : (k v : ℕ) → (1 ≤ length (groups k v)) × (length (groups k v) ≤ k + 1)
unfolding groups
length-groups zero v = omega arith
length-groups (suc k) v = ground (arith, length-groups k (v / 128))

groups_small : (v : ℕ) → v < 128 → groups 9 v ≡ v ∷ []
unfolding groups
groups_small v h = rw (lt→ltb v 128 h) refl

read_fields-step :
    (fuel : ℕ) (bytes : Bytes) (tag : ℕ) (rest : Bytes) (value : Value) (behind : Bytes)
    (fs : List WireField)
    → 1 ≤ length bytes
    → read_groups bytes ≡ some (tag, rest)
    → read_value (tag % 8) rest ≡ some (value, behind)
    → read_fields fuel behind ≡ some fs
    → read_fields (suc fuel) bytes ≡ some ((tag / 8, value) ∷ fs)
unfolding read_fields
read_fields-step fuel [] tag rest value behind fs h e e' e'' = absurd (omega arith)
read_fields-step fuel (b ∷ bytes) tag rest value behind fs h e e' e'' = rw (e, e', e'') refl

-- A field of each kind in front of others.
read_fields-varint :
    (fuel n v : ℕ) (bytes : Bytes) (fs : List WireField)
    → n < 16
    → v < 2 ^ 64
    → read_fields fuel bytes ≡ some fs
    → read_fields (suc fuel) (write_value n (varint v) ++ bytes) ≡ some ((n, varint v) ∷ fs)
unfolding read_value
read_fields-varint fuel n v bytes fs hn hv e =
    let kind : 8 * n % 8 ≡ 0 = omega arith in
    let value : read_value (8 * n % 8) (groups 9 v ++ bytes) ≡ some (varint v, bytes) =
      rw (kind, read_groups-groups 9 v bytes (omega (arith, hv))) refl in
    read_fields-step fuel (write_value n (varint v) ++ bytes) (8 * n) (groups 9 v ++ bytes)
      (varint v) bytes fs
      (omega (
        arith,
        length-append (groups 9 (8 * n) ++ groups 9 v) bytes,
        length-append (groups 9 (8 * n)) (groups 9 v),
        length-groups 9 v,
      ))
      (ap read_groups (append_assoc (groups 9 (8 * n)) (groups 9 v) bytes)
        ∙ read_groups-groups 9 (8 * n) (groups 9 v ++ bytes) (omega arith))
      value e
    ∙ ap (λ k. some ((k, varint v) ∷ fs)) (omega arith)

read_fields-delimited :
    (fuel n : ℕ) (content bytes : Bytes) (fs : List WireField)
    → n < 16
    → length content < 2 ^ 32
    → read_fields fuel bytes ≡ some fs
    → read_fields (suc fuel) (write_value n (delimited content) ++ bytes)
      ≡ some ((n, delimited content) ∷ fs)
unfolding read_value
read_fields-delimited fuel n content bytes fs hn hc e =
    let size = groups 9 (length content) in
    let behind = size ++ (content ++ bytes) in
    let kind : (8 * n + 2) % 8 ≡ 2 = omega arith in
    let inside : ltb (length (content ++ bytes)) (length content) ≡ false =
      le→ltb _ _ (omega (arith, length-append content bytes)) in
    let value : read_value ((8 * n + 2) % 8) behind ≡ some (delimited content, bytes) =
      rw
        (
          kind,
          read_groups-groups 9 (length content) (content ++ bytes) (omega (arith, hc)),
          inside,
          take-append (length content) content bytes refl,
          drop-append (length content) content bytes refl,
        )
        refl in
    let split : write_value n (delimited content) ++ bytes ≡ groups 9 (8 * n + 2) ++ behind =
      append_assoc (groups 9 (8 * n + 2)) (size ++ content) bytes
      ∙ ap (λ b. groups 9 (8 * n + 2) ++ b) (append_assoc size content bytes) in
    read_fields-step fuel (write_value n (delimited content) ++ bytes) (8 * n + 2) behind
      (delimited content) bytes fs
      (omega (
        arith,
        ap length split,
        length-append (groups 9 (8 * n + 2)) behind,
        length-groups 9 (8 * n + 2),
      ))
      (ap read_groups split ∙ read_groups-groups 9 (8 * n + 2) behind (omega arith)) value e
    ∙ ap (λ k. some ((k, delimited content) ∷ fs)) (omega arith)

length-write_value :
    (f : WireField) → IsWritten f → length (write_value f.0 f.1) ≡ 1 + value_size wire f.1
length-write_value (n, varint v) h = omega (
  arith,
  ap length (groups_small (8 * n) (omega (arith, h.1))),
  length-append (groups 9 (8 * n)) (groups 9 v),
)
length-write_value (n, delimited bytes) h = omega (
  arith,
  ap length (groups_small (8 * n + 2) (omega (arith, h.1))),
  length-append (groups 9 (8 * n + 2)) (groups 9 (length bytes) ++ bytes),
  length-append (groups 9 (length bytes)) bytes,
)
length-write_value (n, fixed64 v) h = absurd h
length-write_value (n, fixed32 v) h = absurd h

read_fields-write_fields :
    (fs : List WireField) (fuel : ℕ)
    → All IsWritten fs
    → length (write_fields wire fs) ≤ fuel
    → length (write_fields wire fs) < message_limit
    → read_fields fuel (write_fields wire fs) ≡ some fs
unfolding write_fields
read_fields-write_fields [] fuel h enough small = unfold read_fields in refl
read_fields-write_fields ((n, fixed64 v) ∷ fs) fuel h enough small = absurd h.0
read_fields-write_fields ((n, fixed32 v) ∷ fs) fuel h enough small = absurd h.0
read_fields-write_fields ((n, varint v) ∷ fs) zero h enough small = absurd (
    omega (
      arith,
      length-append (write_value n (varint v)) (write_fields wire fs),
      length-write_value (n, varint v) h.0,
    ))
read_fields-write_fields ((n, delimited bytes) ∷ fs) zero h enough small = absurd (
    omega (
      arith,
      length-append (write_value n (delimited bytes)) (write_fields wire fs),
      length-write_value (n, delimited bytes) h.0,
    ))
read_fields-write_fields ((n, varint v) ∷ fs) (suc fuel) h enough small =
    let total = length-append (write_value n (varint v)) (write_fields wire fs) in
    let own = length-write_value (n, varint v) h.0 in
    read_fields-varint fuel n v (write_fields wire fs) fs h.0.1 h.0.2 (
      read_fields-write_fields fs fuel h.1 (omega (arith, total, own, enough))
        (omega (arith, total, small)))
read_fields-write_fields ((n, delimited bytes) ∷ fs) (suc fuel) h enough small =
    let total = length-append (write_value n (delimited bytes)) (write_fields wire fs) in
    let own = length-write_value (n, delimited bytes) h.0 in
    read_fields-delimited fuel n bytes (write_fields wire fs) fs h.0.1
      (omega (arith, total, own, small))
      (read_fields-write_fields fs fuel h.1 (omega (arith, total, own, enough))
        (omega (arith, total, small)))

entry_fields : ℕ × Bytes → List WireField
entry_fields e = (1, varint e.0) ∷ (2, delimited e.1) ∷ []

entry-entry_fields : (e : ℕ × Bytes) → wire.entry e ≡ write_fields wire (entry_fields e)
unfolding write_fields entry_fields
entry-entry_fields e =
    ap (λ b. write_value 1 (varint e.0) ++ b) (sym (append-nil (write_value 2 (delimited e.1))))

parse_entry-wire :
    (e : ℕ × Bytes)
    → e.0 < 2 ^ 32
    → length (wire.entry e) < message_limit
    → wire.parse_entry (wire.entry e) ≡ some e
unfolding entry_fields
parse_entry-wire e bound small =
    rw
      (
        entry-entry_fields e,
        read_fields-write_fields (entry_fields e) (length (write_fields wire (entry_fields e)))
            ((omega arith, omega arith, omega (arith, bound)), ((omega arith, omega arith), tt))
            (omega arith) (omega (arith, small, ap length (entry-entry_fields e))),
      )
      refl

to_string-wire :
    (size : ℕ) (bytes : Bytes)
    → size ≡ length bytes
    → size < message_limit
    → wire.to_string size bytes ≡ some bytes
to_string-wire size bytes e small = rw (lt→ltb size (2 ^ 31) (omega (arith, small))) refl

pub wire-IsRuntime : IsRuntime wire
wire-IsRuntime = record {
  parse-write_fields = λ fs h small.
      read_fields-write_fields fs (length (write_fields wire fs)) h (omega arith) small;
  length-write = length-write_value;
  varint_size_small = λ v h. (length-groups 9 v).1;
  le-delimited_size = λ n. omega arith;
  parse_entry-entry = parse_entry-wire;
  entry_size-entry = λ e. refl;
  visit-Perm = λ m. Perm.rfl;
  to_string_small = to_string-wire;
}
