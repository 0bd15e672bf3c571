-- ===== src/IntTable.antt =====
-- control_plane/controllers/int/readIntTable.h: the table of INT bitmaps per destination AS.
pub mod Entries
pub mod Aligned
use scion_int_p.Prelude.{
  ℕ, ◌+◌, ◌*◌, ◌^◌, List, [], ◌∷◌, ◌++◌, Bytes, Bool, false, Option, none, some, if◌then◌else◌,
  ◌==◌,
}
use scion_int_p.Prelude.Words.{u64}
use scion_int_p.Outcome.{Outcome, ok, throw, runtime_error, ◌>>=◌}
use scion_int_p.Text.Streams.{lines, open_text, extract_word, extract_hex}
use scion_int_p.Address.{split_scion_address}

-- The three vectors that `readIntTable` appends to.
pub record Lists : Type 0 where
  pub as_list : List ℕ
  pub bitmask_int_list : List ℕ
  pub bitmask_scion_list : List ℕ

-- `line[0] == '#'`; `line[0]` of an empty line is the terminating zero.
unfoldable pub is_comment : Bytes → Bool
is_comment [] = false
is_comment (c ∷ cs) = c == b'#'

-- `((uint64_t)isdAddr << 48) + asAddr`
unfoldable pub as_key : ℕ → ℕ → ℕ
as_key isd as_address = u64 (u64 (isd * 2 ^ 48) + as_address)

unfoldable pub read_entry : Bytes → Lists → Outcome Lists
unfolding as_key
read_entry line lists = do
  let (as_name, stream) = extract_word (open_text line) []
  let (bitmask_int, stream') = extract_hex stream 0
  let (bitmask_scion, _) = extract_hex stream' 0
  (isd, as_address) ← split_scion_address as_name
  ok (record {
    as_list = lists.as_list ++ (as_key isd as_address ∷ []);
    bitmask_int_list = lists.bitmask_int_list ++ (bitmask_int ∷ []);
    bitmask_scion_list = lists.bitmask_scion_list ++ (bitmask_scion ∷ []);
  })

unfoldable pub read_lines : List Bytes → Lists → Outcome Lists
unfolding is_comment
read_lines [] lists = ok lists
read_lines (line ∷ others) lists =
    let read = (do lists' ← read_entry line lists; read_lines others lists') in
    let skip = read_lines others lists in if is_comment line then skip else read

-- `file` is what the path names: nothing, if it cannot be opened.
unfoldable pub read_int_table : Option Bytes → Lists → Outcome Lists
read_int_table none lists = throw (runtime_error "ERROR: Failed to open int_table.txt")
read_int_table (some text) lists = read_lines (lines b'\n' text) lists
