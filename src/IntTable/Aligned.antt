-- ===== src/IntTable/Aligned.antt =====
-- The three vectors of the table stay as long as each other, whatever the file holds.
use scion_int_p.Prelude.{
  ℕ, ◌≡◌, List, [], ◌∷◌, Bytes, Bool-cases, inl, inr, Option, none, some, length, length-append,
  All, All-append, ◌<◌, ◌^◌, arith,
}
use scion_int_p.Outcome.{Ends, Ends-bind}
use scion_int_p.Address.Scion.{split_scion_address-total}
use scion_int_p.Text.Streams.{lines, open_text, extract_word}
use scion_int_p.Address.{split_scion_address}
use scion_int_p.IntTable.{Lists, is_comment, as_key, read_entry, read_lines, read_int_table}

-- One key, one INT bitmap and one SCION bitmap for each row, and each key a uint64.
pub record IsAligned (lists : Lists) : Type 0 where
  pub ints : length lists.bitmask_int_list ≡ length lists.as_list
  pub scions : length lists.bitmask_scion_list ≡ length lists.as_list
  pub keys_u64 : All (λ key. key < 2 ^ 64) lists.as_list

abbrev Any : ℕ × ℕ → Type 0
Any address = Unit {0}

split_scion_address-Ends : (text : Bytes) → Ends Any (split_scion_address text)
split_scion_address-Ends text = elim (split_scion_address-total text) [
  | inl (isd, as_address, read, isd_u16, as_u64) ↦ rw read tt
  | inr refused ↦ rw refused tt
]

read_entry-IsAligned :
    (line : Bytes) (lists : Lists) → IsAligned lists → Ends IsAligned (read_entry line lists)
unfolding read_entry as_key
read_entry-IsAligned line lists h =
    Ends-bind Any IsAligned (split_scion_address (extract_word (open_text line) []).0) _
      (split_scion_address-Ends (extract_word (open_text line) []).0)
      λ address _. record {
        ints =
            omega (
              arith,
              h.ints,
              length-append lists.bitmask_int_list _,
              length-append lists.as_list _,
            );
        scions = omega (
          arith,
          h.scions,
          length-append lists.bitmask_scion_list _,
          length-append lists.as_list _,
        );
        keys_u64 = All-append (λ key. key < 2 ^ 64) lists.as_list _ h.keys_u64 (omega arith, tt);
      }

read_lines-IsAligned :
    (texts : List Bytes) (lists : Lists) → IsAligned lists → Ends IsAligned (read_lines texts lists)
unfolding read_lines
read_lines-IsAligned [] lists h = h
read_lines-IsAligned (line ∷ others) lists h = elim (Bool-cases (is_comment line)) [
  | inl comment ↦ rw comment (read_lines-IsAligned others lists h)
  | inr entry ↦ rw entry (
      Ends-bind IsAligned IsAligned (read_entry line lists) _ (read_entry-IsAligned line lists h)
        λ lists' h'. read_lines-IsAligned others lists' h')
]

-- From vectors as long as each other with keys of 64 bits, `readIntTable` returns such vectors or throws,
-- on any file and without one.
pub read_int_table-IsAligned :
    (file : Option Bytes) (lists : Lists)
    → IsAligned lists
    → Ends IsAligned (read_int_table file lists)
unfolding read_int_table
read_int_table-IsAligned none lists h = tt
read_int_table-IsAligned (some text) lists h = read_lines-IsAligned (lines b'\n' text) lists h
