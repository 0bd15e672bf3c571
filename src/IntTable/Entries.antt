-- ===== src/IntTable/Entries.antt =====
-- A table written in the notation of the repository's tables is read back.
use scion_int_p.Prelude.{
  ℕ, ◌+◌, ◌*◌, ◌^◌, ◌<◌, ◌≡◌, ◌≢◌, refl, sym, ap, ◌∙◌, List, [], ◌∷◌, ◌++◌, Bytes, false, some,
  arith, All, append_assoc, append-nil, All-append, map,
}
use scion_int_p.Outcome.{ok}
use scion_int_p.Text.Digits.{
  digit_value, scan, after_digits, print, print-IsNumeral, print-ne-nil, IsNumeral,
  IsNumeral-ranges,
}
use scion_int_p.Text.Numbers.{is_space}
use scion_int_p.Text.Streams.{lines, lines-append, Lacks}
use scion_int_p.Text.Streams.Extract.{IsWord, extract_word-append, extract_hex-print}
use scion_int_p.Address.Scion.{as_groups, scion_notation, split_scion_address-notation}
use scion_int_p.IntTable.{Lists, is_comment, as_key, read_entry, read_lines, read_int_table}

pub record Row : Type 0 where
  pub isd : ℕ
  pub as_address : ℕ
  pub bitmap_int : ℕ
  pub bitmap_scion : ℕ

pub record IsRow (r : Row) : Type 0 where
  pub isd_u16 : r.isd < 2 ^ 16
  pub as_u48 : r.as_address < 2 ^ 48
  pub int_u16 : r.bitmap_int < 2 ^ 16
  pub scion_u16 : r.bitmap_scion < 2 ^ 16

pub data TableLine : Type 0 where
  comment : Bytes → TableLine
  row : Row → TableLine

abbrev pub IsTableLine : TableLine → Type 0
IsTableLine (comment text) = Lacks b'\n' text
IsTableLine (row r) = IsRow r

abbrev pub bitmaps_text : Row → Bytes
bitmaps_text r =
    b'0' ∷ b'x' ∷ (print 16 r.bitmap_int ++ (b' ' ∷ b'0' ∷ b'x' ∷ (print 16 r.bitmap_scion ++ [])))

-- A row is the AS in SCION notation and the two bitmaps in hexadecimal.
abbrev pub line_text : TableLine → Bytes
line_text (comment text) = b'#' ∷ text
line_text (row r) = scion_notation r.isd r.as_address ++ (b' ' ∷ bitmaps_text r)

abbrev pub table_text : List TableLine → Bytes
table_text [] = []
table_text (line ∷ others) = line_text line ++ (b'\n' ∷ table_text others)

abbrev pub rows : List TableLine → List Row
rows [] = []
rows (comment text ∷ others) = rows others
rows (row r ∷ others) = r ∷ rows others

abbrev pub row_key : Row → ℕ
row_key r = r.isd * 2 ^ 48 + r.as_address

-- The vectors with the rows of a table behind what they held.
abbrev pub append_rows : Lists → List Row → Lists
append_rows lists rs = record {
  as_list = lists.as_list ++ map row_key rs;
  bitmask_int_list = lists.bitmask_int_list ++ map (λ r. r.bitmap_int) rs;
  bitmask_scion_list = lists.bitmask_scion_list ++ map (λ r. r.bitmap_scion) rs;
}

append_rows-nil : (lists : Lists) → append_rows lists [] ≡ lists
append_rows-nil lists = λ i. record {
  as_list = append-nil lists.as_list i;
  bitmask_int_list = append-nil lists.bitmask_int_list i;
  bitmask_scion_list = append-nil lists.bitmask_scion_list i;
}

append_rows-cons :
    (lists : Lists) (r : Row) (rs : List Row)
    → append_rows (append_rows lists (r ∷ [])) rs ≡ append_rows lists (r ∷ rs)
append_rows-cons lists r rs = λ i. record {
  as_list = append_assoc lists.as_list (row_key r ∷ []) (map row_key rs) i;
  bitmask_int_list =
      append_assoc lists.bitmask_int_list (r.bitmap_int ∷ []) (map (λ r. r.bitmap_int) rs) i;
  bitmask_scion_list =
      append_assoc lists.bitmask_scion_list (r.bitmap_scion ∷ []) (map (λ r. r.bitmap_scion) rs) i;
}

-- Every character lies above `k`: above 32 there is no space, above 10 no newline.
abbrev Above : ℕ → Bytes → Type 0
Above k = All (λ c. k < c)

numeral-Above : (k : ℕ) (text : Bytes) → k < 48 → All (IsNumeral 16) text → Above k text
numeral-Above k [] small h = tt
numeral-Above k (c ∷ cs) small h =
    (ground (arith, IsNumeral-ranges 16 c h.0), numeral-Above k cs small h.1)

hex-Above : (k n : ℕ) → k < 48 → Above k (print 16 n)
hex-Above k n small =
    numeral-Above k (print 16 n) small (print-IsNumeral 16 (omega arith) (omega arith) n)

notation-Above : (k isd as_address : ℕ) → k < 45 → Above k (scion_notation isd as_address)
unfolding scion_notation as_groups
notation-Above k isd as_address small =
    All-append (λ c. k < c) (print 16 isd) _ (hex-Above k isd (omega arith))
      (
        small,
        All-append (λ c. k < c) (print 16 _) _ (hex-Above k _ (omega arith))
            (
              omega arith,
              All-append (λ c. k < c) (print 16 _) _ (hex-Above k _ (omega arith))
                  (omega arith, hex-Above k _ (omega arith)),
            ),
      )

row-Above : (r : Row) → Above 10 (line_text (row r))
row-Above r =
    All-append (λ c. 10 < c) (scion_notation r.isd r.as_address) _
      (notation-Above 10 r.isd r.as_address (omega arith))
      (
        omega arith,
        (
          omega arith,
          (
            omega arith,
            All-append (λ c. 10 < c) (print 16 r.bitmap_int) _ (hex-Above 10 _ (omega arith))
                (
                  omega arith,
                  (
                    omega arith,
                    (
                      omega arith,
                      All-append (λ c. 10 < c) (print 16 r.bitmap_scion) []
                          (hex-Above 10 _ (omega arith)) tt,
                    ),
                  ),
                ),
          ),
        ),
      )

Above-IsWord : (text : Bytes) → Above 32 text → IsWord text
unfolding is_space
Above-IsWord [] h = tt
Above-IsWord (c ∷ cs) h = (ground arith, Above-IsWord cs h.1)

Above-Lacks : (text : Bytes) → Above 10 text → Lacks b'\n' text
Above-Lacks [] h = tt
Above-Lacks (c ∷ cs) h = (ground arith, Above-Lacks cs h.1)

append-ne-nil : (xs ys : Bytes) → xs ≢ [] → xs ++ ys ≢ []
append-ne-nil [] ys h e = h refl
append-ne-nil (x ∷ xs) ys h e = cc

notation-ne-nil : (isd as_address : ℕ) → scion_notation isd as_address ≢ []
unfolding scion_notation
notation-ne-nil isd as_address = append-ne-nil (print 16 isd) _ (print-ne-nil 16 isd)

line-Lacks : (line : TableLine) → IsTableLine line → Lacks b'\n' (line_text line)
line-Lacks (comment text) h = (refl, h)
line-Lacks (row r) h = Above-Lacks (line_text (row r)) (row-Above r)

numeral-is_comment :
    (text rest : Bytes) → text ≢ [] → All (IsNumeral 16) text → is_comment (text ++ rest) ≡ false
unfolding is_comment
numeral-is_comment [] rest ne h = absurd (ne refl)
numeral-is_comment (c ∷ cs) rest ne h = ground (arith, IsNumeral-ranges 16 c h.0)

row-is_comment : (r : Row) → is_comment (line_text (row r)) ≡ false
unfolding scion_notation
row-is_comment r =
    ap is_comment (append_assoc (print 16 r.isd) _ (b' ' ∷ bitmaps_text r))
    ∙ numeral-is_comment (print 16 r.isd) _ (print-ne-nil 16 r.isd)
        (print-IsNumeral 16 (omega arith) (omega arith) r.isd)

as_key_lem : (r : Row) → IsRow r → as_key r.isd r.as_address ≡ row_key r
unfolding as_key
as_key_lem r h = omega arith

read_entry-row :
    (r : Row) (lists : Lists)
    → IsRow r
    → read_entry (line_text (row r)) lists ≡ ok (append_rows lists (r ∷ []))
unfolding read_entry scan digit_value after_digits
read_entry-row r lists h =
    rw
      (
        extract_word-append (scion_notation r.isd r.as_address) (bitmaps_text r) []
            (notation-ne-nil r.isd r.as_address)
            (Above-IsWord _ (notation-Above 32 r.isd r.as_address (omega arith))),
        extract_hex-print r.bitmap_int 0 (b' ' ∷ b'0' ∷ b'x' ∷ (print 16 r.bitmap_scion ++ []))
            h.int_u16 refl refl,
        extract_hex-print r.bitmap_scion 0 [] h.scion_u16 refl refl,
        split_scion_address-notation r.isd r.as_address h.isd_u16 h.as_u48,
      )
      (ap
        (λ k. ok (record {
          as_list = lists.as_list ++ (k ∷ []);
          bitmask_int_list = lists.bitmask_int_list ++ (r.bitmap_int ∷ []);
          bitmask_scion_list = lists.bitmask_scion_list ++ (r.bitmap_scion ∷ []);
        }))
        (as_key_lem r h))

read_lines-text :
    (table : List TableLine) (lists : Lists)
    → All IsTableLine table
    → read_lines (lines b'\n' (table_text table)) lists ≡ ok (append_rows lists (rows table))
unfolding read_lines
read_lines-text [] lists h = unfold lines in ap ok (sym (append_rows-nil lists))
read_lines-text (comment text ∷ others) lists h =
    rw (lines-append b'\n' (b'#' ∷ text) (table_text others) (line-Lacks (comment text) h.0))
      (read_lines-text others lists h.1)
read_lines-text (row r ∷ others) lists h =
    rw
      (
        lines-append b'\n' (line_text (row r)) (table_text others) (line-Lacks (row r) h.0),
        row-is_comment r,
        read_entry-row r lists h.0,
      )
      (read_lines-text others (append_rows lists (r ∷ [])) h.1
        ∙ ap ok (append_rows-cons lists r (rows others)))

-- A table of comments and rows, each line ended by a newline, appends to the three vectors the keys
-- and the bitmaps of its rows in order; the key of a row is its ISD above its 48-bit AS number.
pub read_int_table-text :
    (table : List TableLine) (lists : Lists)
    → All IsTableLine table
    → read_int_table (some (table_text table)) lists ≡ ok (append_rows lists (rows table))
unfolding read_int_table
read_int_table-text = read_lines-text
