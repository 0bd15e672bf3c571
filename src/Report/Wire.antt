-- ===== src/Report/Wire.antt =====
-- The runtime of Protocol Buffers behind the generated code of control_plane/controllers/int/report:
-- it is not part of the sources, so that it is a parameter, with the behaviour that its encoding is
-- documented to have.
use scion_int_p.Prelude.{
  ℕ, ◌+◌, ◌-◌, ◌^◌, ◌≤◌, ◌<◌, ◌≡◌, List, [], ◌∷◌, ◌++◌, Bytes, Bool, Option, some, All, length,
}
use mathlib.Core.List.{Perm}
use scion_int_p.Report.{Metadata}

-- What stands behind a tag, by its wire type.
pub data Value : Type 0 where
  varint fixed64 fixed32 : ℕ → Value
  delimited : Bytes → Value

-- A field's number and value.
abbrev pub WireField : Type 0
WireField = ℕ × Value

pub record Runtime : Type 0 where
  -- `WriteUInt64ToArray`, `WriteUInt32ToArray` and `WriteEnumToArray` on a varint, and
  -- `WriteBytesMaybeAliased` and `InternalWriteMessage` on delimited bytes.
  pub write : WireField → Bytes
  -- `UInt64Size`, `UInt32Size` and `EnumSize`; then `LengthDelimitedSize`, by which `BytesSize` and
  -- `MessageSize` go.
  pub varint_size : ℕ → ℕ
  pub delimited_size : ℕ → ℕ
  -- The message of an entry of a `map<uint32, bytes>`.
  pub entry : ℕ × Bytes → Bytes
  -- `Funcs::ByteSizeLong` of the entry: its size behind the tag.
  pub entry_size : ℕ × Bytes → ℕ
  -- The entries in the order in which a loop visits them.
  pub visit : Metadata → Metadata
  -- `IsSerializationDeterministic`
  pub deterministic : Bool
  -- `SerializeToString`, once the size and the bytes are known.
  pub to_string : ℕ → Bytes → Option Bytes
  -- What `ReadTag` and the readers of values find in a message until it ends, and what they find in the
  -- message of an entry.
  pub parse : Bytes → Option (List WireField)
  pub parse_entry : Bytes → Option (ℕ × Bytes)

-- Above the largest message that can be written and read.
abbrev pub message_limit : ℕ
message_limit = 2 ^ 31 - 16

-- Fields that the generated code writes: their numbers take one byte of tag, and integers have 64 bits.
abbrev pub IsWritten : WireField → Type 0
IsWritten (n, varint v) = (1 ≤ n) × (n < 16) × (v < 2 ^ 64)
IsWritten (n, delimited bytes) = (1 ≤ n) × (n < 16)
IsWritten (n, fixed64 v) = ⊥
IsWritten (n, fixed32 v) = ⊥

module _ (rt : Runtime) where
  unfoldable pub write_fields : List WireField → Bytes
  write_fields [] = []
  write_fields (f ∷ fs) = rt.write f ++ write_fields fs

  abbrev pub value_size : Value → ℕ
  value_size (varint v) = rt.varint_size v
  value_size (delimited bytes) = rt.delimited_size (length bytes)
  value_size (fixed64 v) = 8
  value_size (fixed32 v) = 4

-- The documented behaviour: what is written is read, sizes are those of what is written, a loop over a
-- map visits each entry once, and messages below the limit are serialised.
pub record IsRuntime (rt : Runtime) : Type 0 where
  pub parse-write_fields :
      (fs : List WireField)
      → All IsWritten fs
      → length (write_fields rt fs) < message_limit
      → rt.parse (write_fields rt fs) ≡ some fs
  pub length-write : (f : WireField) → IsWritten f → length (rt.write f) ≡ 1 + value_size rt f.1
  pub varint_size_small : (v : ℕ) → v < 2 ^ 64 → rt.varint_size v ≤ 10
  pub le-delimited_size : (n : ℕ) → n ≤ rt.delimited_size n
  pub parse_entry-entry :
      (e : ℕ × Bytes)
      → e.0 < 2 ^ 32
      → length (rt.entry e) < message_limit
      → rt.parse_entry (rt.entry e) ≡ some e
  pub entry_size-entry : (e : ℕ × Bytes) → rt.entry_size e ≡ rt.delimited_size (length (rt.entry e))
  pub visit-Perm : (m : Metadata) → Perm (rt.visit m) m
  pub to_string_small :
      (size : ℕ) (bytes : Bytes)
      → size ≡ length bytes
      → size < message_limit
      → rt.to_string size bytes ≡ some bytes
