-- ===== src/Tests/Codecs.antt =====
-- The byte strings, texts and connections at concrete inputs.
use scion_int_p.Prelude.{◌%◌, ◌^◌, ◌≡◌, refl, [], ◌∷◌, Bytes, some, codes, take, drop, arith}
use scion_int_p.Outcome.{ok}
use scion_int_p.Bitstring.{from_bitstring, to_bitstring}
use scion_int_p.Bitstring.RoundTrip.{from_bitstring-to_bitstring, to_bitstring-from_bitstring}
use scion_int_p.TakeUint.{take_uint}
use scion_int_p.TakeUint.BigEndian.{take_uint-from_bitstring}
use scion_int_p.Address.{split_scion_address}
use scion_int_p.Address.Scion.{
  scion_notation, split_scion_address-notation, IsScionResult, split_scion_address-total,
}
use scion_int_p.IntTable.{Lists, read_int_table}
use scion_int_p.IntTable.Entries.{table_text, rows, append_rows, read_int_table-text}
use scion_int_p.Tests.Data.{table_lines}

from_bitstring-to_bitstring_example :
    from_bitstring 8 6 (to_bitstring 6 0x1_0203_0405) ≡ 0x1_0203_0405 % 2 ^ 48
from_bitstring-to_bitstring_example = from_bitstring-to_bitstring 8 6 0x1_0203_0405 (omega arith)

abbrev mac_bytes : Bytes
mac_bytes = 2 ∷ 0 ∷ 0 ∷ 0 ∷ 0 ∷ 255 ∷ []

to_bitstring-from_bitstring_example : to_bitstring 6 (from_bitstring 8 6 mac_bytes) ≡ mac_bytes
to_bitstring-from_bitstring_example =
    to_bitstring-from_bitstring 8 mac_bytes
      (omega arith, (omega arith, (omega arith, (omega arith, (omega arith, (omega arith, tt))))))
      (omega arith)

take_uint-from_bitstring_example :
    take_uint 4 mac_bytes 1 ≡ ok (from_bitstring 8 4 (take 4 (drop 1 mac_bytes)))
take_uint-from_bitstring_example =
    take_uint-from_bitstring 8 4 mac_bytes 1
      (omega arith, (omega arith, (omega arith, (omega arith, (omega arith, (omega arith, tt))))))
      (omega arith) (omega arith)

split_scion_address-notation_example :
    split_scion_address (scion_notation 1 0xff00_0000_0110) ≡ ok (1, 0xff00_0000_0110)
split_scion_address-notation_example =
    split_scion_address-notation 1 0xff00_0000_0110 (omega arith) (omega arith)

split_scion_address-total_example :
    IsScionResult (split_scion_address (codes "1-zz:10000000000000000"))
split_scion_address-total_example = split_scion_address-total (codes "1-zz:10000000000000000")

abbrev no_lists : Lists
no_lists = record { as_list = []; bitmask_int_list = []; bitmask_scion_list = [] }

read_int_table-text_example :
    read_int_table (some (table_text table_lines)) no_lists
    ≡ ok (append_rows no_lists (rows table_lines))
read_int_table-text_example = read_int_table-text table_lines no_lists (
  (refl, (refl, (refl, (refl, (refl, (refl, (refl, (refl, (refl, (refl, (refl, tt))))))))))),
  (
    record {
      isd_u16 = omega arith;
      as_u48 = omega arith;
      int_u16 = omega arith;
      scion_u16 = omega arith;
    },
    tt,
  ),
)
