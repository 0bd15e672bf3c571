-- ===== src/Text/Streams/Extract.antt =====
-- What `>>` extracts from a line of words and hexadecimal numbers.
use scion_int_p.Prelude.{
  ℕ, ◌^◌, ◌<◌, ◌≡◌, ◌≢◌, refl, ap₂, [], ◌∷◌, ◌++◌, Bytes, true, false, some, arith, All, lt→ltb,
}
use scion_int_p.Text.Digits.{
  scan, after_digits, print, scan-print, after_digits-print, print-IsNumeral, print-ne-nil,
  IsNumeral,
}
use scion_int_p.Text.Numbers.{is_space, skip_spaces, split_sign, strip_prefix, with_sign, digits}
use scion_int_p.Text.Streams.{open_text, extract_word, extract_hex, word, after_word, read_u16}

-- No character is a space.
abbrev pub IsWord : Bytes → Type 0
IsWord = All (λ c. is_space c ≡ false)

space : is_space b' ' ≡ true
unfolding is_space
space = refl

word-append : (w rest : Bytes) → IsWord w → word (w ++ (b' ' ∷ rest)) ≡ w
unfolding word
word-append [] rest h = rw space
word-append (c ∷ cs) rest h = rw (h.0, word-append cs rest h.1)

after_word-append : (w rest : Bytes) → IsWord w → after_word (w ++ (b' ' ∷ rest)) ≡ b' ' ∷ rest
unfolding after_word
after_word-append [] rest h = rw space
after_word-append (c ∷ cs) rest h = rw (h.0, after_word-append cs rest h.1)

-- A word at the start of a line is extracted, up to the space behind it.
pub extract_word-append :
    (w rest old : Bytes)
    → w ≢ []
    → IsWord w
    → extract_word (open_text (w ++ (b' ' ∷ rest))) old
      ≡ (w, record { rest = b' ' ∷ rest; good = true })
unfolding extract_word open_text skip_spaces
extract_word-append [] rest old ne h = absurd (ne refl)
extract_word-append (c ∷ cs) rest old ne h =
    rw (h.0, skip_spaces)
      (ap₂ (λ w s. (w, record { rest = s; good = true })) (word-append (c ∷ cs) rest h)
        (after_word-append (c ∷ cs) rest h))

digits-append :
    (text rest : Bytes)
    → text ≢ []
    → All (IsNumeral 16) text
    → digits 16 (text ++ rest) ≡ some (scan 16 0 (text ++ rest))
unfolding digits
digits-append [] rest ne h = absurd (ne refl)
digits-append (c ∷ cs) rest ne h = rw h.0

strip_prefix-append :
    (text rest : Bytes)
    → text ≢ []
    → All (IsNumeral 16) text
    → strip_prefix 16 (b'0' ∷ b'x' ∷ (text ++ rest)) ≡ text ++ rest
unfolding strip_prefix
strip_prefix-append [] rest ne h = absurd (ne refl)
strip_prefix-append (c ∷ cs) rest ne h = rw h.0

hex-IsNumeral : (n : ℕ) → All (IsNumeral 16) (print 16 n)
hex-IsNumeral = print-IsNumeral 16 (omega arith) (omega arith)

read_u16_small :
    (rest : Bytes) (n : ℕ)
    → n < 2 ^ 16
    → read_u16 rest (some (record { negative = false; magnitude = n }))
      ≡ (n, record { rest = rest; good = true })
unfolding read_u16
read_u16_small rest n h = rw (lt→ltb n (2 ^ 16) h)

-- A number written "0x…" behind a space is extracted, if it is a uint16 and no digit follows it.
pub extract_hex-print :
    (n old : ℕ) (rest : Bytes)
    → n < 2 ^ 16
    → scan 16 n rest ≡ n
    → after_digits 16 rest ≡ rest
    → extract_hex (record { rest = b' ' ∷ b'0' ∷ b'x' ∷ (print 16 n ++ rest); good = true }) old
      ≡ (n, record { rest = rest; good = true })
unfolding extract_hex skip_spaces is_space split_sign with_sign
extract_hex-print n old rest fits ends stays =
    rw
      (
        strip_prefix-append (print 16 n) rest (print-ne-nil 16 n) (hex-IsNumeral n),
        digits-append (print 16 n) rest (print-ne-nil 16 n) (hex-IsNumeral n),
        scan-print 16 (omega arith) (omega arith) n rest,
        after_digits-print 16 (omega arith) (omega arith) n rest,
        ends,
        stays,
      )
      (read_u16_small rest n fits)
