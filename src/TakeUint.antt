-- ===== src/TakeUint.antt =====
-- control_plane/controllers/int/takeUint.h: unsigned numbers out of a packet, the most significant
-- byte first.
pub mod BigEndian
pub mod Segments
use scion_int_p.Prelude.{
  ℕ, zero, suc, ◌+◌, ◌-◌, ◌*◌, List, [], ◌∷◌, Bytes, length, get_elem?, Option, none, some,
  if◌then◌else◌, ◌==◌,
}
use scion_int_p.Outcome.{Outcome, ok, fault, out_of_bounds, ◌>>=◌}

-- `payload[i]` for `payload` from `std::string::c_str()`: the string, a terminating zero, and
-- nothing that may be read behind it.
at_end : Bytes → ℕ → Option ℕ → Outcome ℕ
at_end payload i (some b) = ok b
at_end payload i none = if i == length payload then ok 0 else fault out_of_bounds

unfoldable pub char_at : Bytes → ℕ → Outcome ℕ
unfolding at_end
char_at payload i = at_end payload i (get_elem? payload i)

-- Rounds `i`, …, `width - 1` of the loop of `takeUint…`. Round `i` sets byte `i` of `number`, which
-- is worth 256^i on the little-endian machine, from `payload[pos + (width - 1) - i]`.
take_loop : Bytes → ℕ → ℕ → ℕ → ℕ → Outcome ℕ
take_loop payload pos width i zero = ok 0
take_loop payload pos width i (suc rounds) = do
  byte ← char_at payload (pos + (width - 1) - i)
  high ← take_loop payload pos width (i + 1) rounds
  ok (byte + 256 * high)

unfoldable pub take_uint : ℕ → Bytes → ℕ → Outcome ℕ
unfolding take_loop
take_uint width payload pos = take_loop payload pos width 0 width

unfoldable pub take_uint64 : Bytes → ℕ → Outcome ℕ
unfolding take_uint
take_uint64 = take_uint 8

unfoldable pub take_uint32 : Bytes → ℕ → Outcome ℕ
unfolding take_uint
take_uint32 = take_uint 4

unfoldable pub take_uint16 : Bytes → ℕ → Outcome ℕ
unfolding take_uint
take_uint16 = take_uint 2

unfoldable pub take_uint8 : Bytes → ℕ → Outcome ℕ
unfolding char_at
take_uint8 payload pos = char_at payload pos
