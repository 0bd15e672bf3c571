-- ===== src/Prelude/Bits.antt =====
-- `|` of disjoint fields and `&` with a mask of low bits, as arithmetic, at every width.
use Prim.Native.Nat.{
  ℕ, zero, suc, ◌+◌, ◌-◌, ◌*◌, ◌/◌, ◌%◌, ◌^◌, ◌≤◌, ◌<◌, min, max, bit_and, bit_or, digits,
  bit_and-bitwise, bit_or-bitwise,
}
use mathlib.Core.Path.{◌≡◌, refl, ap, ◌∙◌}
use native.Mathlib.Nat.{pow-suc, one-le-pow, mod-lt, div-add-mod}
use native.Mathlib.Omega.{arith}

double_field : (q k : ℕ) → q * 2 ^ suc k ≡ 2 * (q * 2 ^ k)
double_field q k = omega (arith, ap (λ (t : ℕ). q * t) (pow-suc 2 k))

or_digits : (n k a q : ℕ) → a ≤ n → a < 2 ^ k → digits (λ b. b) max n a (q * 2 ^ k) ≡ a + q * 2 ^ k
or_digits zero k zero q h fits = omega arith
or_digits zero k (suc a) q h fits = absurd (omega arith)
or_digits (suc n) k zero q h fits = omega arith
or_digits (suc n) zero (suc a) q h fits = absurd (omega arith)
or_digits (suc n) (suc k) (suc a) q h fits =
    let ih = or_digits n k (suc a / 2) q (omega arith) (omega (arith, pow-suc 2 k)) in
    let halved : 2 * (q * 2 ^ k) / 2 ≡ q * 2 ^ k = omega arith in
    rw (double_field q k) (rw halved (omega (arith, ih)))

-- `a | (q << k)` is a sum when `a` has `k` bits at most.
pub bit_or_shifted : (k a q : ℕ) → a < 2 ^ k → bit_or a (q * 2 ^ k) ≡ a + q * 2 ^ k
bit_or_shifted k a q fits = bit_or-bitwise a (q * 2 ^ k) ∙ or_digits a k a q (omega arith) fits

no_mask : (n a : ℕ) → digits (λ b. zero) min n a 0 ≡ 0
no_mask zero a = refl
no_mask (suc n) zero = refl
no_mask (suc n) (suc a) = omega (arith, no_mask n (suc a / 2))

mask_digits :
    (n k a q r : ℕ)
    → a ≤ n
    → a ≡ q * 2 ^ k + r
    → r < 2 ^ k
    → digits (λ b. zero) min n a (2 ^ k - 1) ≡ r
mask_digits n zero a q r h e fits = omega (arith, no_mask n a)
mask_digits zero (suc k) a q r h e fits = omega arith
mask_digits (suc n) (suc k) zero q r h e fits = omega arith
mask_digits (suc n) (suc k) (suc a) q r h e fits =
    let half_mask : (2 ^ suc k - 1) / 2 ≡ 2 ^ k - 1 = omega (arith, pow-suc 2 k) in
    let odd : (2 ^ suc k - 1) % 2 ≡ 1 = omega (arith, pow-suc 2 k, one-le-pow k 2) in
    let ih =
      mask_digits n k (suc a / 2) q (r / 2) (omega arith) (omega (arith, double_field q k))
        (omega (arith, pow-suc 2 k)) in
    rw (half_mask, odd) (omega (arith, ih, double_field q k))

-- `a & (2^k - 1)` is the remainder by `2^k`.
pub bit_and_mask : (k a : ℕ) → bit_and a (2 ^ k - 1) ≡ a % 2 ^ k
bit_and_mask k a =
    bit_and-bitwise a (2 ^ k - 1)
    ∙ mask_digits a k a (a / 2 ^ k) (a % 2 ^ k) (omega arith) (omega (arith, div-add-mod a (2 ^ k)))
        (mod-lt a (one-le-pow k 2 (omega arith)))
