-- ===== src/Tests/Wire.antt =====
-- A runtime of Protocol Buffers, as its encoding is documented, for the tests: varints of groups of
-- seven bits, and the wire types 0 and 2.
pub mod Laws
use scion_int_p.Prelude.{
  ℕ, zero, suc, ◌+◌, ◌-◌, ◌*◌, ◌/◌, ◌%◌, ◌^◌, ◌≤◌, ◌<◌, ◌≡◌, refl, sym, ap, ◌∙◌, List, [], ◌∷◌,
  ◌++◌, Bytes, true, false, Option, none, some, ltb, lt→ltb, le→ltb, ◌==◌, if◌then◌else◌, length,
  length-append, take, drop, take-append, drop-append, All, append_assoc, append-nil, arith,
  Bool-cases, inl, inr,
}
use scion_int_p.Report.Wire.{
  Value, varint, fixed64, fixed32, delimited, WireField, Runtime, IsRuntime, IsWritten,
  message_limit, write_fields, value_size,
}
use scion_int_p.Report.Decode.{◌>>=◌}

-- The groups of seven bits, the lowest first, `k` of them at most before the last.
unfoldable pub groups : ℕ → ℕ → Bytes
groups zero v = v ∷ []
groups (suc k) v =
    let rest = groups k (v / 128) in if ltb v 128 then v ∷ [] else (v % 128 + 128) ∷ rest

unfoldable pub read_groups : Bytes → Option (ℕ × Bytes)
read_groups [] = none
read_groups (b ∷ bytes) =
    let rest = read_groups bytes in
    if ltb b 128 then some (b, bytes) else (rest >>= λ r. some (b - 128 + 128 * r.0, r.1))

abbrev pub write_value : ℕ → Value → Bytes
write_value n (varint v) = groups 9 (8 * n) ++ groups 9 v
write_value n (delimited bytes) = groups 9 (8 * n + 2) ++ (groups 9 (length bytes) ++ bytes)
write_value n (fixed64 v) = []
write_value n (fixed32 v) = []

unfoldable pub read_value : ℕ → Bytes → Option (Value × Bytes)
read_value kind bytes =
    if kind == 0
    then (read_groups bytes >>= λ (v, rest). some (varint v, rest))
    else if kind == 2
    then (read_groups bytes >>= λ (n, rest).
        if ltb (length rest) n then none else some (delimited (take n rest), drop n rest))
    else none

unfoldable pub read_fields : ℕ → Bytes → Option (List WireField)
read_fields fuel [] = some []
read_fields zero (b ∷ bytes) = none
read_fields (suc fuel) (b ∷ bytes) = do
  (tag, rest) ← read_groups (b ∷ bytes)
  (value, behind) ← read_value (tag % 8) rest
  fs ← read_fields fuel behind
  some ((tag / 8, value) ∷ fs)

abbrev pub as_entry : List WireField → Option (ℕ × Bytes)
as_entry ((_, varint k) ∷ (_, delimited bytes) ∷ []) = some (k, bytes)
as_entry _ = none

abbrev pub wire : Runtime
wire = record {
  write = λ f. write_value f.0 f.1;
  varint_size = λ v. length (groups 9 v);
  delimited_size = λ n. length (groups 9 n) + n;
  entry = λ e. write_value 1 (varint e.0) ++ write_value 2 (delimited e.1);
  entry_size = λ e.
      let n = length (write_value 1 (varint e.0) ++ write_value 2 (delimited e.1)) in
      length (groups 9 n) + n;
  visit = λ m. m;
  deterministic = true;
  to_string = λ size bytes. if ltb size (2 ^ 31) then some bytes else none;
  parse = λ bytes. read_fields (length bytes) bytes;
  parse_entry = λ bytes. read_fields (length bytes) bytes >>= as_entry;
}
