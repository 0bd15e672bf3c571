-- ===== src/UnitTests.antt =====
-- control_plane/tests/test_bitstring.cpp and test_int.cpp, with the tables beside them: the checks of
-- the repository's own tests, on the model.
use scion_int_p.Prelude.{◌≡◌, refl, [], ◌∷◌, ◌++◌, Bytes, codes, some, take}
use scion_int_p.Outcome.{ok}
use scion_int_p.Bitstring.{from_bitstring, to_bitstring}
use scion_int_p.Address.{
  hex_isd, hex_group, as_loop, scion_parts, split_scion_address, split_ip_address,
}
use scion_int_p.Text.Digits.{any_digit, digit_value, is_digit, scan, after_digits}
use scion_int_p.Text.Numbers.{
  is_space, skip_spaces, split_sign, strip_prefix, digits, with_sign, strto, stoi, stoull,
  to_unsigned,
}
use scion_int_p.Text.Streams.{
  open_text, cut, is_empty, got_line, get_line, left_lines, lines, extract_word, extract_hex,
}
use scion_int_p.IntTable.{Lists, is_comment, as_key, read_entry, read_lines, read_int_table}
use scion_int_p.TakeUint.{char_at, take_uint, take_uint64, take_uint32, take_uint16, take_uint8}

abbrev bitstring_str : Bytes
bitstring_str = 1 ∷ 2 ∷ 3 ∷ 4 ∷ 5 ∷ 6 ∷ 7 ∷ 8 ∷ []

-- "fromBitstring (big endian)"
abbrev FromBitstringCase : Type 0
FromBitstringCase =
    (from_bitstring 2 2 bitstring_str ≡ 0x0708)
    × (from_bitstring 4 4 bitstring_str ≡ 0x0506_0708)
    × (from_bitstring 8 8 bitstring_str ≡ 0x0102_0304_0506_0708)
    × (from_bitstring 8 4 bitstring_str ≡ 0x0506_0708)
    × (from_bitstring 4 4 (take 1 bitstring_str) ≡ 1)

from_bitstring_passes : FromBitstringCase
unfolding from_bitstring
from_bitstring_passes = (refl, refl, refl, refl, refl)

-- "toBitstring (big endian)"
abbrev ToBitstringCase : Type 0
ToBitstringCase =
    (to_bitstring 8 0x0102_0304_0506_0708 ≡ bitstring_str)
    × (to_bitstring 4 0x0102_0304 ≡ take 4 bitstring_str)
    × (to_bitstring 2 0x0102_0304 ≡ 3 ∷ 4 ∷ [])
    × (to_bitstring 8 0x0102_0304 ≡ 0 ∷ 0 ∷ 0 ∷ 0 ∷ take 4 bitstring_str)

to_bitstring_passes : ToBitstringCase
unfolding to_bitstring
to_bitstring_passes = (refl, refl, refl, refl)

-- "round trip conversion"
abbrev BitstringCase : Type 0
BitstringCase = from_bitstring 8 8 (to_bitstring 8 0x0102_0304_0506_0708) ≡ 0x0102_0304_0506_0708

bitstring_passes : BitstringCase
unfolding from_bitstring to_bitstring
bitstring_passes = refl

-- "splitScionAddress"
abbrev SplitScionAddressCase : Type 0
SplitScionAddressCase =
    (split_scion_address [] ≡ ok (0, 0))
    × (split_scion_address (codes "fa-ff00:0:100") ≡ ok (0xfa, 0xff00_0000_0100))

split_scion_address_passes : SplitScionAddressCase
unfolding split_scion_address scion_parts hex_isd hex_group as_loop stoi stoull strto to_unsigned
    skip_spaces is_space split_sign strip_prefix digits with_sign scan is_digit digit_value
    any_digit after_digits open_text cut is_empty got_line get_line left_lines lines
split_scion_address_passes = (refl, refl)

-- "splitIpAddress"
abbrev SplitIpAddressCase : Type 0
SplitIpAddressCase =
    (split_ip_address [] [] 0 ≡ ok ([], 0))
    × (split_ip_address (codes "255.127.63.31:54321") [] 0 ≡ ok (codes "255.127.63.31", 54321))

split_ip_address_passes : SplitIpAddressCase
unfolding split_ip_address stoi stoull strto to_unsigned skip_spaces is_space split_sign
    strip_prefix digits with_sign scan is_digit digit_value any_digit after_digits open_text cut
    is_empty got_line get_line left_lines lines
split_ip_address_passes = (refl, refl)

-- int_table1.txt is empty.
abbrev int_table2 : Bytes
int_table2 =
    codes "#Dst AS        | INT  | SCION"
    ++ (b'\n'
        ∷ (codes "#-----------------------"
            ++ (b'\n'
                ∷ (codes "1-ff00:0:1"
                    ++ (b'\n'
                        ∷ (codes "1-ff00:0:20     0x0000 0x0000"
                            ++ (b'\n'
                                ∷ (codes "1-ff00:ff00:300 0x8d00 0x0001"
                                    ++ (b'\n'
                                        ∷ (codes "f-ff00:0:4      0xffff 0xffff"
                                            ++ (b'\n' ∷ [])))))))))))

abbrev empty_lists : Lists
empty_lists = record { as_list = []; bitmask_int_list = []; bitmask_scion_list = [] }

-- "ReadTable"
abbrev ReadTableCase : Type 0
ReadTableCase =
    (read_int_table (some []) empty_lists ≡ ok empty_lists)
    × (read_int_table (some int_table2) empty_lists
        ≡ ok (record {
          as_list =
              0x0001_ff00_0000_0001 ∷ 0x0001_ff00_0000_0020 ∷ 0x0001_ff00_ff00_0300
              ∷ 0x000f_ff00_0000_0004 ∷ [];
          bitmask_int_list = 0 ∷ 0 ∷ 0x8d00 ∷ 0xffff ∷ [];
          bitmask_scion_list = 0 ∷ 0 ∷ 1 ∷ 0xffff ∷ [];
        }))

read_table_passes : ReadTableCase
unfolding read_int_table read_lines read_entry extract_word extract_hex is_comment as_key
    split_scion_address scion_parts hex_isd hex_group as_loop stoi stoull strto to_unsigned
    skip_spaces is_space split_sign strip_prefix digits with_sign scan is_digit digit_value
    any_digit after_digits open_text cut is_empty got_line get_line left_lines lines
read_table_passes = (refl, refl)

abbrev take_uint_str : Bytes
take_uint_str = 0 ∷ 0 ∷ 0 ∷ 0 ∷ 0 ∷ 0 ∷ 0 ∷ 0 ∷ 1 ∷ 1 ∷ 2 ∷ 3 ∷ 5 ∷ 8 ∷ 13 ∷ 21 ∷ []

-- "TakeUint"
abbrev TakeUintCase : Type 0
TakeUintCase =
    (take_uint64 take_uint_str 0 ≡ ok 0)
    × (take_uint64 take_uint_str 8 ≡ ok 0x0101_0203_0508_0d15)
    × (take_uint32 take_uint_str 6 ≡ ok 0x0000_0101)
    × (take_uint16 take_uint_str 14 ≡ ok 0x0d15)
    × (take_uint8 take_uint_str 15 ≡ ok 0x15)

take_uint_passes : TakeUintCase
unfolding take_uint64 take_uint32 take_uint16 take_uint8 take_uint char_at
take_uint_passes = (refl, refl, refl, refl, refl)
