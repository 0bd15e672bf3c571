-- ===== src/Bitstring/LittleEndian.antt =====
-- `from_bitstring` and `to_bitstring` as arithmetic on the digits of a number.
use mathlib.Core.List.{reverse, reverse-append}
use native.Mathlib.Nat.{pow-suc, mod-eq_of_lt, le_trans, pow-le-pow_right, one-le-pow}
use native.Mathlib.Numerals.{add-one}
use scion_int_p.Prelude.{
  ℕ, zero, suc, ◌+◌, ◌*◌, ◌/◌, ◌%◌, ◌^◌, ◌≤◌, ◌<◌, ◌≡◌, refl, sym, ap, ◌∙◌, [], ◌∷◌, Bytes, IsByte,
  All, arith, take, lt→ltb, le→ltb, bit_and,
}
use scion_int_p.Prelude.Bits.{bit_or_shifted, bit_and_mask}
use scion_int_p.Prelude.Endian.{le, le_digits, be_digits, le_digits_last, pow_256, All-reverse}
use scion_int_p.Bitstring.{from_loop, from_bitstring, to_bitstring}

eight_more : (i : ℕ) → 2 ^ (8 * (i + 1)) ≡ 256 * 2 ^ (8 * i)
eight_more i = pow_256 (i + 1) ∙ rw add-one (rw pow-suc (omega (arith, pow_256 i)))

byte_shifted : (c p : ℕ) → c < 256 → 1 ≤ p → c * p + p ≤ 256 * p
byte_shifted c p h pos = grind arith

-- A byte shifted by less than the size of the word loses no bit.
pub shift_fits :
    (size i c : ℕ) → c < 256 → i < size → c * 2 ^ (8 * i) % 2 ^ (8 * size) ≡ c * 2 ^ (8 * i)
shift_fits size i c hc hi =
    mod-eq_of_lt (le_trans room (pow-le-pow_right (omega arith) (omega arith)))
  where
    room : c * 2 ^ (8 * i) < 2 ^ (8 * (i + 1))
    room = rw (eight_more i) (
        omega (
          arith,
          byte_shifted c (2 ^ (8 * i)) hc (one-le-pow (8 * i) 2 (omega arith)),
          one-le-pow (8 * i) 2 (omega arith),
        ))

from_loop-le :
    (size bytes i value : ℕ) (cs : Bytes)
    → All IsByte cs
    → bytes ≤ size
    → i ≤ bytes
    → value < 2 ^ (8 * i)
    → (left : ℕ) → left + i ≡ bytes
    → from_loop size bytes i value cs ≡ value + 2 ^ (8 * i) * le (take left cs)
unfolding from_loop
from_loop-le size bytes i value [] h hs hi hv zero e = omega arith
from_loop-le size bytes i value [] h hs hi hv (suc left) e = omega arith
from_loop-le size bytes i value (c ∷ cs) h hs hi hv zero e =
    rw (le→ltb i bytes (omega arith)) (omega arith)
from_loop-le size bytes i value (c ∷ cs) h hs hi hv (suc left) e =
    rw (lt→ltb i bytes (omega arith)) (
      rw (shift_fits size i c h.0 (omega arith), bit_or_shifted (8 * i) value c hv)
        (rw
          (from_loop-le size bytes (i + 1) (value + c * 2 ^ (8 * i)) cs h.1 hs (omega arith)
            (rw (eight_more i) (
              omega (arith, byte_shifted c (2 ^ (8 * i)) h.0 (one-le-pow (8 * i) 2 (omega arith)))))
            left (omega arith))
          (omega (arith, ap (λ (t : ℕ). t * le (take left cs)) (eight_more i)))))

-- `to_bitstring` writes the digits of the value, the most significant first.
pub to_bitstring-be_digits : (n value : ℕ) → to_bitstring n value ≡ be_digits n value
unfolding to_bitstring
to_bitstring-be_digits zero value = refl
to_bitstring-be_digits (suc n) value =
    ap (λ t. bit_and (value / 2 ^ (8 * n)) 0xff ∷ t) (to_bitstring-be_digits n value)
    ∙ ap (λ b. b ∷ be_digits n value) top
    ∙ sym (ap reverse (le_digits_last n value) ∙ reverse-append (le_digits n value) _)
  where
    top : bit_and (value / 2 ^ (8 * n)) 0xff ≡ value / 256 ^ n % 256
    top = bit_and_mask 8 (value / 2 ^ (8 * n)) ∙ ap (λ k. value / k % 256) (pow_256 n)

-- `from_bitstring` reads the last bytes, the very last one lowest.
pub from_bitstring-le :
    (size bytes : ℕ) (s : Bytes)
    → All IsByte s
    → bytes ≤ size
    → from_bitstring size bytes s ≡ le (take bytes (reverse s))
unfolding from_bitstring
from_bitstring-le size bytes s h hs =
    from_loop-le size bytes 0 0 (reverse s) (All-reverse IsByte s h) hs (omega arith) (omega arith)
      bytes (omega arith)
    ∙ omega arith
