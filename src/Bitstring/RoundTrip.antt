-- ===== src/Bitstring/RoundTrip.antt =====
-- What `toBitstring` writes, `fromBitstring` reads, and the other way round.
use mathlib.Core.List.{reverse}
use scion_int_p.Prelude.{
  ℕ, ◌*◌, ◌%◌, ◌^◌, ◌≤◌, ◌≡◌, sym, ap, ◌∙◌, Bytes, IsByte, All, length, take-length, arith, subst,
}
use scion_int_p.Prelude.Endian.{
  be, be_digits, le-be_digits, length-be_digits, be_digits-IsByte, be_digits-be, length-reverse,
  pow_256, le,
}
use scion_int_p.Bitstring.{from_bitstring, to_bitstring}
use scion_int_p.Bitstring.LittleEndian.{to_bitstring-be_digits, from_bitstring-le}

pub to_bitstring-IsByte : (n value : ℕ) → All IsByte (to_bitstring n value)
to_bitstring-IsByte n value =
    subst (All IsByte) (sym (to_bitstring-be_digits n value)) (be_digits-IsByte n value)

pub length-to_bitstring : (n value : ℕ) → length (to_bitstring n value) ≡ n
length-to_bitstring n value = ap length (to_bitstring-be_digits n value) ∙ length-be_digits n value

-- A bitstring of `bytes` bytes at most is its big-endian value.
pub from_bitstring-be :
    (size bytes : ℕ) (s : Bytes)
    → All IsByte s
    → bytes ≤ size
    → length s ≤ bytes
    → from_bitstring size bytes s ≡ be s
from_bitstring-be size bytes s h hs fits =
    from_bitstring-le size bytes s h hs
    ∙ ap le (take-length bytes (reverse s) (rw (length-reverse s) fits))

-- Reading back a written value keeps its lowest `bytes` bytes, for every width of the word that is
-- read at least `bytes` wide.
pub from_bitstring-to_bitstring :
    (size bytes value : ℕ)
    → bytes ≤ size
    → from_bitstring size bytes (to_bitstring bytes value) ≡ value % 2 ^ (8 * bytes)
from_bitstring-to_bitstring size bytes value h =
    from_bitstring-be size bytes _ (to_bitstring-IsByte bytes value) h
      (omega (arith, length-to_bitstring bytes value))
    ∙ ap be (to_bitstring-be_digits bytes value)
    ∙ le-be_digits bytes value
    ∙ ap (λ k. value % k) (sym (pow_256 bytes))

-- Writing back the value of a string of bytes gives the string, if the word is wide enough.
pub to_bitstring-from_bitstring :
    (size : ℕ) (s : Bytes)
    → All IsByte s
    → length s ≤ size
    → to_bitstring (length s) (from_bitstring size (length s) s) ≡ s
to_bitstring-from_bitstring size s h fits =
    to_bitstring-be_digits (length s) _
    ∙ ap (be_digits (length s)) (from_bitstring-be size (length s) s h fits (omega arith))
    ∙ be_digits-be s h
