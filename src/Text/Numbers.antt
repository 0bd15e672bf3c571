-- ===== src/Text/Numbers.antt =====
-- `std::stoi` and `std::stoull` of <string>, by the rules of `strtol` and `strtoull`: leading spaces,
-- a sign, for base 16 a prefix "0x" that a digit follows, then the digits.
use scion_int_p.Prelude.{
  ℕ, ◌-◌, ◌%◌, ◌^◌, ◌≤◌, ◌<◌, ◌≡◌, ◌≢◌, refl, sym, ap, ◌∙◌, [], ◌∷◌, Bytes, Bool, true, false, ◌&&◌,
  ◌||◌, Option, none, some, ltb, lt→ltb, leb, ◌==◌, if◌then◌else◌, arith, ne→==, All, append-nil,
}
use scion_int_p.Outcome.{Outcome, ok, throw, out_of_range, invalid_argument, Ends}
use scion_int_p.Text.Digits.{
  scan_stops, is_digit, scan, print, digit_value, scan-print, print-IsNumeral, print-ne-nil,
  IsNumeral, IsNumeral-ranges,
}

-- `std::isspace` in the C locale.
unfoldable pub is_space : ℕ → Bool
is_space c = c == b' ' || (leb 9 c && leb c 13)

unfoldable pub skip_spaces : Bytes → Bytes
skip_spaces [] = []
skip_spaces (c ∷ cs) = if is_space c then skip_spaces cs else c ∷ cs

-- A value of a signed type: its sign and its magnitude.
pub record Signed : Type 0 where
  pub negative : Bool
  pub magnitude : ℕ

unfoldable pub split_sign : Bytes → Bool × Bytes
split_sign [] = (false, [])
split_sign (c ∷ cs) =
    if c == b'-' then (true, cs) else if c == b'+' then (false, cs) else (false, c ∷ cs)

unfoldable pub strip_prefix : ℕ → Bytes → Bytes
strip_prefix base (z ∷ x ∷ c ∷ cs) =
    if base == 16 && z == b'0' && (x == b'x' || x == b'X') && is_digit 16 c
    then c ∷ cs
    else z ∷ x ∷ c ∷ cs
strip_prefix base text = text

unfoldable pub digits : ℕ → Bytes → Option ℕ
digits base [] = none
digits base (c ∷ cs) = if is_digit base c then some (scan base 0 (c ∷ cs)) else none

unfoldable pub with_sign : Bool → Option ℕ → Option Signed
with_sign negative none = none
with_sign negative (some m) = some (record { negative = negative; magnitude = m })

unfoldable pub strto : ℕ → Bytes → Option Signed
unfolding skip_spaces split_sign strip_prefix digits with_sign is_space
strto base text =
    let (negative, rest) = split_sign (skip_spaces text) in
    with_sign negative (digits base (strip_prefix base rest))

-- -2^31 ≤ value < 2^31
fits_int : Signed → Bool
fits_int v = if v.negative then leb v.magnitude (2 ^ 31) else ltb v.magnitude (2 ^ 31)

-- |value| < 2^64; `strtoull` accepts a sign and negates in the unsigned type.
fits_u64 : Signed → Bool
fits_u64 v = ltb v.magnitude (2 ^ 64)

ranged : (Signed → Bool) → Option Signed → Outcome Signed
ranged fits none = throw invalid_argument
ranged fits (some v) = if fits v then ok v else throw out_of_range

unfoldable pub stoi : ℕ → Bytes → Outcome Signed
unfolding ranged fits_int
stoi base text = ranged fits_int (strto base text)

unfoldable pub stoull : ℕ → Bytes → Outcome Signed
unfolding ranged fits_u64
stoull base text = ranged fits_u64 (strto base text)

-- The conversion of an integer to an unsigned type of `bits` bits.
unfoldable pub to_unsigned : ℕ → Signed → ℕ
to_unsigned bits v =
    if v.negative then (2 ^ bits - v.magnitude % 2 ^ bits) % 2 ^ bits else v.magnitude % 2 ^ bits

zero_first : (is_digit 16 b'0' ≡ true) × (is_space b'0' ≡ false)
unfolding is_digit digit_value is_space
zero_first = (refl, refl)

x_ends : (text : Bytes) → scan 16 0 (b'0' ∷ b'x' ∷ text) ≡ 0
unfolding scan digit_value
x_ends text = refl

-- Text behind "0x" is always a number: the zero is one where no digit follows.
pub strto_hex :
    (text : Bytes)
    → strto 16 (b'0' ∷ b'x' ∷ text) ≡ some (record { negative = false; magnitude = scan 16 0 text })
unfolding strto
strto_hex [] = rw (zero_first.0, x_ends []) (unfold scan in refl)
strto_hex (c ∷ cs) = ground (arith, zero_first.0, x_ends (c ∷ cs), scan_stops 16 0 c cs)

strip_prefix_other : (base : ℕ) (text : Bytes) → base < 16 → strip_prefix base text ≡ text
unfolding strip_prefix
strip_prefix_other base [] h = refl
strip_prefix_other base (z ∷ []) h = refl
strip_prefix_other base (z ∷ x ∷ []) h = refl
strip_prefix_other base (z ∷ x ∷ c ∷ cs) h = rw (ne→== base 16 (λ e. absurd (omega arith)))

strto-IsNumeral :
    (base c : ℕ) (cs : Bytes)
    → base < 16
    → IsNumeral base c
    → strto base (c ∷ cs) ≡ some (record { negative = false; magnitude = scan base 0 (c ∷ cs) })
unfolding strto
strto-IsNumeral base c cs h d =
    ground (arith, strip_prefix_other base (c ∷ cs) h, IsNumeral-ranges base c d)

strto-All :
    (base n : ℕ) (text : Bytes)
    → base < 16
    → text ≢ []
    → All (IsNumeral base) text
    → scan base 0 text ≡ n
    → strto base text ≡ some (record { negative = false; magnitude = n })
strto-All base n [] h ne all e = absurd (ne refl)
strto-All base n (c ∷ cs) h ne all e =
    strto-IsNumeral base c cs h all.0
    ∙ ap (λ m. some (record { negative = false; magnitude = m })) e

-- A printed number is read back.
pub strto-print :
    (base n : ℕ)
    → 2 ≤ base
    → base < 16
    → strto base (print base n) ≡ some (record { negative = false; magnitude = n })
strto-print base n two small =
    strto-All base n (print base n) small (print-ne-nil base n)
      (print-IsNumeral base two (omega arith) n)
      (ap (scan base 0) (sym (append-nil (print base n)))
        ∙ scan-print base two (omega arith) n []
        ∙ unfold scan in refl)

-- So a conversion of such a text only throws if the number is too large.
pub stoi_hex :
    (text : Bytes)
    → stoi 16 (b'0' ∷ b'x' ∷ text) ≡ (
        if ltb (scan 16 0 text) (2 ^ 31)
        then ok (record { negative = false; magnitude = scan 16 0 text })
        else throw out_of_range)
unfolding stoi
stoi_hex text = rw (strto_hex text)

pub stoull_hex :
    (text : Bytes)
    → stoull 16 (b'0' ∷ b'x' ∷ text) ≡ (
        if ltb (scan 16 0 text) (2 ^ 64)
        then ok (record { negative = false; magnitude = scan 16 0 text })
        else throw out_of_range)
unfolding stoull
stoull_hex text = rw (strto_hex text)

pub stoi-print :
    (n : ℕ) → n < 2 ^ 31 → stoi 10 (print 10 n) ≡ ok (record { negative = false; magnitude = n })
unfolding stoi
stoi-print n h = rw (strto-print 10 n (omega arith) (omega arith)) (rw (lt→ltb n (2 ^ 31) h))

pub to_unsigned_natural :
    (bits n : ℕ) → to_unsigned bits (record { negative = false; magnitude = n }) ≡ n % 2 ^ bits
unfolding to_unsigned
to_unsigned_natural bits n = refl

ranged-Ends : (fits : Signed → Bool) (o : Option Signed) → Ends (λ v. Unit {0}) (ranged fits o)
unfolding ranged
ranged-Ends fits none = tt
ranged-Ends fits (some v) = ground arith

-- `std::stoi` returns or throws.
pub stoi-Ends : (base : ℕ) (text : Bytes) → Ends (λ v. Unit {0}) (stoi base text)
unfolding stoi
stoi-Ends base text = ranged-Ends fits_int (strto base text)
