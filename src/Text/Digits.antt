-- ===== src/Text/Digits.antt =====
-- Digits and numerals to a base of at most 16, in lower case, as `operator<<` prints them.
use native.Mathlib.Nat.{mod-lt, div-add-mod', div-lt_self}
use mathlib.Core.List.{concat-ne-nil}
use scion_int_p.Prelude.{
  ℕ, zero, suc, ◌+◌, ◌-◌, ◌*◌, ◌/◌, ◌%◌, ◌≤◌, ◌<◌, ◌≡◌, ap, ◌∙◌, [], ◌∷◌, ◌++◌, Bytes, Bool, true,
  false, ◌&&◌, Option, none, some, ltb, ltb→lt, ltb→le, leb, if◌then◌else◌, arith, append_assoc,
  All, All-append, Bool-cases, Option-cases, inl, inr, ◌≢◌, ◌⊎◌,
}

-- The value of a character as a digit, of any base.
unfoldable pub any_digit : ℕ → Option ℕ
any_digit c =
    if leb b'0' c && leb c b'9'
    then some (c - b'0')
    else if leb b'a' c && leb c b'f'
    then some (c - b'a' + 10)
    else if leb b'A' c && leb c b'F'
    then some (c - b'A' + 10)
    else none

below : ℕ → Option ℕ → Option ℕ
below base none = none
below base (some d) = if ltb d base then some d else none

unfoldable pub digit_value : ℕ → ℕ → Option ℕ
unfolding any_digit below
digit_value base c = below base (any_digit c)

unfoldable pub is_digit : ℕ → ℕ → Bool
is_digit base c = elim (digit_value base c) [ none ↦ false | some d ↦ true ]

-- The number that the leading digits spell behind `acc`; a character that is no digit ends it.
unfoldable pub scan : ℕ → ℕ → Bytes → ℕ
scan base acc [] = acc
scan base acc (c ∷ cs) = elim (digit_value base c) [
  | none ↦ acc
  | some d ↦ scan base (acc * base + d) cs
]

-- What stands behind the leading digits.
unfoldable pub after_digits : ℕ → Bytes → Bytes
after_digits base [] = []
after_digits base (c ∷ cs) = elim (digit_value base c) [
  | none ↦ c ∷ cs
  | some d ↦ after_digits base cs
]

unfoldable pub digit : ℕ → ℕ
digit d = if ltb d 10 then b'0' + d else b'a' + (d - 10)

-- The numeral of `n`, most significant digit first, with fuel for the digits but one.
print_loop : ℕ → ℕ → ℕ → Bytes
print_loop base zero n = digit n ∷ []
print_loop base (suc fuel) n =
    let high = print_loop base fuel (n / base) in
    if ltb n base then digit n ∷ [] else high ++ (digit (n % base) ∷ [])

unfoldable pub print : ℕ → ℕ → Bytes
unfolding print_loop
print base n = print_loop base n n

-- The characters of the numerals to a base.
abbrev pub IsNumeral : ℕ → ℕ → Type 0
IsNumeral base c = is_digit base c ≡ true

-- None of them is a sign, a space or a separator.
pub IsNumeral-ranges :
    (base c : ℕ)
    → IsNumeral base c
    → ((b'0' ≤ c) × (c ≤ b'9')) ⊎ ((b'A' ≤ c) × (c ≤ b'F')) ⊎ ((b'a' ≤ c) × (c ≤ b'f'))
unfolding is_digit digit_value
IsNumeral-ranges base c h = ground arith

digit_value-digit : (base d : ℕ) → d < base → base ≤ 16 → digit_value base (digit d) ≡ some d
unfolding digit_value digit
digit_value-digit base d h hb = ground arith

scan-digit :
    (base acc d : ℕ) (rest : Bytes)
    → d < base
    → base ≤ 16
    → scan base acc (digit d ∷ rest) ≡ scan base (acc * base + d) rest
unfolding scan
scan-digit base acc d rest h hb = rw (digit_value-digit base d h hb, scan)

after_digits-digit :
    (base d : ℕ) (rest : Bytes)
    → d < base
    → base ≤ 16
    → after_digits base (digit d ∷ rest) ≡ after_digits base rest
unfolding after_digits
after_digits-digit base d rest h hb = rw (digit_value-digit base d h hb, after_digits)

digit-IsNumeral : (base d : ℕ) → d < base → base ≤ 16 → IsNumeral base (digit d)
unfolding is_digit
digit-IsNumeral base d h hb = rw (digit_value-digit base d h hb, is_digit)

pub scan_stops :
    (base acc c : ℕ) (cs : Bytes) → is_digit base c ≡ false → scan base acc (c ∷ cs) ≡ acc
unfolding scan is_digit
scan_stops base acc c cs e = elim (Option-cases (digit_value base c)) [
  | inl no_digit ↦ rw (no_digit, scan)
  | inr (d, a_digit) ↦ cc (rw (a_digit, is_digit) at e)
]

module _ (base : ℕ) (two : 2 ≤ base) (sixteen : base ≤ 16) where
  shrinks : (n fuel : ℕ) → n ≤ suc fuel → base ≤ n → n / base ≤ fuel
  shrinks n fuel h big = omega (arith, div-lt_self {n = n} {k = base} (omega arith) two)

  scan-print_loop :
      (fuel n : ℕ) (rest : Bytes)
      → n ≤ fuel
      → scan base 0 (print_loop base fuel n ++ rest) ≡ scan base n rest
  unfolding print_loop
  scan-print_loop zero n rest h =
      scan-digit base 0 n rest (omega arith) sixteen ∙ ap (λ k. scan base k rest) (omega arith)
  scan-print_loop (suc fuel) n rest h = elim (Bool-cases (ltb n base)) [
    | inl small ↦ rw small (
        scan-digit base 0 n rest (omega (arith, ltb→lt n base small)) sixteen
        ∙ ap (λ k. scan base k rest) (omega arith))
    | inr big ↦
        rw (big, append_assoc)
          (scan-print_loop fuel (n / base) (digit (n % base) ∷ rest)
              (shrinks n fuel h (ltb→le n base big))
            ∙ scan-digit base (n / base) (n % base) rest (mod-lt n (omega arith)) sixteen
            ∙ ap (λ k. scan base k rest) (div-add-mod' n base))
  ]

  after_digits-print_loop :
      (fuel n : ℕ) (rest : Bytes)
      → n ≤ fuel
      → after_digits base (print_loop base fuel n ++ rest) ≡ after_digits base rest
  unfolding print_loop
  after_digits-print_loop zero n rest h = after_digits-digit base n rest (omega arith) sixteen
  after_digits-print_loop (suc fuel) n rest h = elim (Bool-cases (ltb n base)) [
    | inl small ↦
        rw small (after_digits-digit base n rest (omega (arith, ltb→lt n base small)) sixteen)
    | inr big ↦
        rw (big, append_assoc)
          (after_digits-print_loop fuel (n / base) (digit (n % base) ∷ rest)
              (shrinks n fuel h (ltb→le n base big))
            ∙ after_digits-digit base (n % base) rest (mod-lt n (omega arith)) sixteen)
  ]

  print_loop-IsNumeral : (fuel n : ℕ) → n ≤ fuel → All (IsNumeral base) (print_loop base fuel n)
  unfolding print_loop
  print_loop-IsNumeral zero n h = (digit-IsNumeral base n (omega arith) sixteen, tt)
  print_loop-IsNumeral (suc fuel) n h = elim (Bool-cases (ltb n base)) [
    | inl small ↦ rw small (digit-IsNumeral base n (omega (arith, ltb→lt n base small)) sixteen, tt)
    | inr big ↦ rw big (
        All-append (IsNumeral base) _ _
          (print_loop-IsNumeral fuel (n / base) (shrinks n fuel h (ltb→le n base big)))
          (digit-IsNumeral base (n % base) (mod-lt n (omega arith)) sixteen, tt))
  ]

  -- The numeral of `n` is read back as `n`, up to whatever digits follow.
  pub scan-print : (n : ℕ) (rest : Bytes) → scan base 0 (print base n ++ rest) ≡ scan base n rest
  unfolding print
  scan-print n rest = scan-print_loop n n rest (omega arith)

  pub after_digits-print :
      (n : ℕ) (rest : Bytes) → after_digits base (print base n ++ rest) ≡ after_digits base rest
  unfolding print
  after_digits-print n rest = after_digits-print_loop n n rest (omega arith)

  pub print-IsNumeral : (n : ℕ) → All (IsNumeral base) (print base n)
  unfolding print
  print-IsNumeral n = print_loop-IsNumeral n n (omega arith)

print_loop-ne-nil : (base fuel n : ℕ) → print_loop base fuel n ≢ []
unfolding print_loop
print_loop-ne-nil base zero n e = cc
print_loop-ne-nil base (suc fuel) n e = elim (Bool-cases (ltb n base)) [
  | inl small ↦ cc (rw small at e)
  | inr big ↦ concat-ne-nil _ _ (rw big at e)
]

pub print-ne-nil : (base n : ℕ) → print base n ≢ []
unfolding print
print-ne-nil base n = print_loop-ne-nil base n n
