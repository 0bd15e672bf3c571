-- ===== src/Text/Streams.antt =====
-- Extraction from a `std::istringstream` or a file: `std::getline`, and `>>` into a string and into a
-- hexadecimal uint16_t. A stream is the text that is left with its state bits.
pub mod Extract
use scion_int_p.Prelude.{
  ℕ, ◌+◌, ◌-◌, ◌*◌, ◌%◌, ◌^◌, ◌≤◌, ◌<◌, ◌≡◌, ◌≢◌, refl, sym, ap, ◌∙◌, List, [], ◌∷◌, ◌++◌, Bytes,
  Bool, true, false, ◌&&◌, ◌||◌, not, Option, none, some, ltb, leb, ◌==◌, ==_refl, if◌then◌else◌,
  arith, Bool-cases, inl, inr, ◌⊎◌, All, append-nil,
}
use mathlib.Core.List.{cons-ne-nil}
use scion_int_p.Text.Digits.{
  is_digit, scan, after_digits, print, scan-print, after_digits-print, print-IsNumeral,
  print-ne-nil, IsNumeral, IsNumeral-ranges,
}
use scion_int_p.Text.Numbers.{
  is_space, skip_spaces, split_sign, strip_prefix, Signed, with_sign, digits,
}

-- `good` is false once eofbit or failbit is set.
pub record Stream : Type 0 where
  pub rest : Bytes
  pub good : Bool

unfoldable pub open_text : Bytes → Stream
open_text text = record { rest = text; good = true }

-- The text up to the delimiter, and what follows it, if it occurs.
unfoldable pub cut : ℕ → Bytes → Bytes × Option Bytes
cut delim [] = ([], none)
cut delim (c ∷ cs) =
    let (line, after) = cut delim cs in if c == delim then ([], some cs) else (c ∷ line, after)

unfoldable pub is_empty : Bytes → Bool
is_empty [] = true
is_empty (c ∷ cs) = false

-- At the end of the text eofbit is set, and failbit too where no character was extracted.
unfoldable pub got_line : Bytes × Option Bytes → Bool × Bytes × Stream
got_line (line, some after) = (true, line, record { rest = after; good = true })
got_line (line, none) = (not (is_empty line), line, record { rest = []; good = false })

-- `std::getline(stream, line, delim)`: whether it succeeded, the new value of `line`, the stream.
-- A stream that is not good leaves `line` as it is.
unfoldable pub get_line : ℕ → Stream → Bytes → Bool × Bytes × Stream
unfolding got_line cut is_empty
get_line delim stream line =
    if stream.good then got_line (cut delim stream.rest) else (false, line, stream)

add_to_first : ℕ → List Bytes → List Bytes
add_to_first c [] = (c ∷ []) ∷ []
add_to_first c (line ∷ lines) = (c ∷ line) ∷ lines

-- The lines that `while (std::getline(stream, line, delim))` goes through.
unfoldable pub lines : ℕ → Bytes → List Bytes
unfolding add_to_first
lines delim [] = []
lines delim (c ∷ cs) =
    let others = lines delim cs in if c == delim then [] ∷ others else add_to_first c others

unfoldable pub left_lines : ℕ → Stream → List Bytes
unfolding lines
left_lines delim stream = if stream.good then lines delim stream.rest else []

lines_of_cut : ℕ → Bytes × Option Bytes → List Bytes
lines_of_cut delim (line, some after) = line ∷ lines delim after
lines_of_cut delim (line, none) = if is_empty line then [] else line ∷ []

lines_of_cut-cons :
    (delim c : ℕ) (p : Bytes × Option Bytes)
    → add_to_first c (lines_of_cut delim p) ≡ lines_of_cut delim (c ∷ p.0, p.1)
unfolding lines_of_cut add_to_first is_empty
lines_of_cut-cons delim c (line, some after) = refl
lines_of_cut-cons delim c ([], none) = refl
lines_of_cut-cons delim c (d ∷ ds, none) = refl

lines-cut : (delim : ℕ) (text : Bytes) → lines delim text ≡ lines_of_cut delim (cut delim text)
unfolding lines cut
lines-cut delim [] = unfold lines_of_cut is_empty in refl
lines-cut delim (c ∷ cs) = elim (Bool-cases (c == delim)) [
  | inl here ↦ rw here (unfold lines_of_cut in refl)
  | inr later ↦
      rw later (ap (add_to_first c) (lines-cut delim cs) ∙ lines_of_cut-cons delim c (cut delim cs))
]

got_line-lines :
    (delim : ℕ) (p : Bytes × Option Bytes)
    → lines_of_cut delim p
      ≡ (if (got_line p).0 then (got_line p).1 ∷ left_lines delim (got_line p).2 else [])
unfolding lines_of_cut left_lines get_line
got_line-lines delim (line, some after) = refl
got_line-lines delim ([], none) = refl
got_line-lines delim (c ∷ cs, none) = refl

-- The first of the lines is what `getline` returns, and the others are those of the stream that it
-- leaves; there is none where `getline` fails.
pub left_lines-get_line :
    (delim : ℕ) (stream : Stream) (line : Bytes)
    → let (done, first, after) = get_line delim stream line in
      left_lines delim stream ≡ (if done then first ∷ left_lines delim after else [])
unfolding get_line left_lines
left_lines-get_line delim stream line = elim (Bool-cases stream.good) [
  | inl good ↦ rw good (lines-cut delim stream.rest ∙ got_line-lines delim (cut delim stream.rest))
  | inr bad ↦ rw bad
]

word : Bytes → Bytes
word [] = []
word (c ∷ cs) = let more = word cs in if is_space c then [] else c ∷ more

after_word : Bytes → Bytes
after_word [] = []
after_word (c ∷ cs) = let more = after_word cs in if is_space c then c ∷ cs else more

read_word : Bytes → Bytes → Bytes × Stream
unfolding word after_word
read_word old [] = (old, record { rest = []; good = false })
read_word old (c ∷ cs) = (word (c ∷ cs), record { rest = after_word (c ∷ cs); good = true })

-- `stream >> word`, `old` being the value before: the characters up to a space. Here and below
-- `good` says that no extraction has failed yet, which is what the next one asks.
unfoldable pub extract_word : Stream → Bytes → Bytes × Stream
unfolding read_word
extract_word stream old =
    if stream.good then read_word old (skip_spaces stream.rest) else (old, stream)

-- `strtoull`, and the limits of uint16_t: a value out of range is replaced by the largest one and
-- counts as a failure.
read_u16 : Bytes → Option Signed → ℕ × Stream
read_u16 rest none = (0, record { rest = rest; good = false })
read_u16 rest (some v) =
    let value = (if v.negative then 2 ^ 64 - v.magnitude else v.magnitude) in
    if ltb value (2 ^ 16)
    then (value, record { rest = rest; good = true })
    else (2 ^ 16 - 1, record { rest = rest; good = false })

-- `stream >> std::hex >> value` at a uint16_t that holds `old`.
unfoldable pub extract_hex : Stream → ℕ → ℕ × Stream
unfolding read_u16 is_empty
extract_hex stream old =
    let (negative, unsigned) = split_sign (skip_spaces stream.rest) in
    let text = strip_prefix 16 unsigned in
    if stream.good && not (is_empty (skip_spaces stream.rest))
    then read_u16 (after_digits 16 text) (with_sign negative (digits 16 text))
    else (old, record stream { good = false })

-- No character is the delimiter.
abbrev pub Lacks : ℕ → Bytes → Type 0
Lacks delim = All (λ c. (c == delim) ≡ false)

pub lines-append :
    (delim : ℕ) (line rest : Bytes)
    → Lacks delim line
    → lines delim (line ++ (delim ∷ rest)) ≡ line ∷ lines delim rest
unfolding lines
lines-append delim [] rest h = rw ==_refl
lines-append delim (c ∷ cs) rest h = rw (h.0, lines-append delim cs rest h.1)

pub lines_last :
    (delim : ℕ) (line : Bytes) → Lacks delim line → line ≢ [] → lines delim line ≡ line ∷ []
unfolding lines
lines_last delim [] h ne = absurd (ne refl)
lines_last delim (c ∷ []) h ne = rw h.0
lines_last delim (c ∷ d ∷ cs) h ne = rw (h.0, lines_last delim (d ∷ cs) h.1 (cons-ne-nil d cs))

pub cut-append :
    (delim : ℕ) (line rest : Bytes)
    → Lacks delim line
    → cut delim (line ++ (delim ∷ rest)) ≡ (line, some rest)
unfolding cut
cut-append delim [] rest h = rw ==_refl
cut-append delim (c ∷ cs) rest h = rw (h.0, cut-append delim cs rest h.1)

pub get_line-append :
    (delim : ℕ) (line rest old : Bytes)
    → Lacks delim line
    → get_line delim (open_text (line ++ (delim ∷ rest))) old ≡ (true, line, open_text rest)
unfolding get_line open_text
get_line-append delim line rest old h = rw (cut-append delim line rest h)

cut_last : (delim : ℕ) (line : Bytes) → Lacks delim line → cut delim line ≡ (line, none)
unfolding cut
cut_last delim [] h = refl
cut_last delim (c ∷ cs) h = rw (h.0, cut_last delim cs h.1)

pub get_line_last :
    (delim : ℕ) (line old : Bytes)
    → Lacks delim line
    → get_line delim (open_text line) old
      ≡ (not (is_empty line), line, record { rest = []; good = false })
unfolding get_line open_text
get_line_last delim line old h = ap got_line (cut_last delim line h)

pub left_lines-open_text :
    (delim : ℕ) (text : Bytes) → left_lines delim (open_text text) ≡ lines delim text
unfolding left_lines open_text
left_lines-open_text delim text = refl

-- No numeral holds a separator such as `-`, `:`, a space or the end of a line.
pub Lacks-numeral :
    (base delim : ℕ) (text : Bytes)
    → (delim < 48) ⊎ (delim ≡ 58)
    → All (IsNumeral base) text
    → Lacks delim text
Lacks-numeral base delim [] sep h = tt
Lacks-numeral base delim (c ∷ cs) sep h =
    (ground (arith, IsNumeral-ranges base c h.0), Lacks-numeral base delim cs sep h.1)
