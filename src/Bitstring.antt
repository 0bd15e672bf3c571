-- ===== src/Bitstring.antt =====
-- control_plane/bitstring.h: bitstrings of P4Runtime, the most significant byte first.
pub mod LittleEndian
pub mod RoundTrip
use mathlib.Core.List.{reverse}
use scion_int_p.Prelude.{
  ℕ, zero, suc, ◌+◌, ◌*◌, ◌/◌, ◌%◌, ◌^◌, bit_and, bit_or, List, [], ◌∷◌, Bytes, ltb, if◌then◌else◌,
}

-- The loop of `fromBitstring<bytes, T>` over the reversed string, from digit `i` on; `size` is
-- sizeof(T). `static_cast<T>(c) << (8 * i)` keeps the bits of a `T`.
from_loop : ℕ → ℕ → ℕ → ℕ → Bytes → ℕ
from_loop size bytes i value [] = value
from_loop size bytes i value (c ∷ cs) =
    let rest = from_loop size bytes (i + 1) (bit_or value (c * 2 ^ (8 * i) % 2 ^ (8 * size))) cs in
    if ltb i bytes then rest else value

unfoldable pub from_bitstring : ℕ → ℕ → Bytes → ℕ
unfolding from_loop
from_bitstring size bytes bitstring = from_loop size bytes 0 0 (reverse bitstring)

-- `toBitstring<bytes>`: the shift `bytes - i - 1` is one less than the rounds that are left.
unfoldable pub to_bitstring : ℕ → ℕ → Bytes
to_bitstring zero value = []
to_bitstring (suc left) value = bit_and (value / 2 ^ (8 * left)) 0xff ∷ to_bitstring left value
