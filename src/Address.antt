-- ===== src/Address.antt =====
-- control_plane/controllers/int/addressConversion.h: SCION addresses "isd-as:as:as" in hexadecimal
-- and "host:port" addresses.
pub mod Scion
pub mod Ip
use scion_int_p.Prelude.{ℕ, ◌+◌, ◌*◌, ◌^◌, List, [], ◌∷◌, Bytes, if◌then◌else◌, codes, ◌++◌}
use scion_int_p.Prelude.Words.{u64}
use scion_int_p.Outcome.{Outcome, ok, ◌>>=◌}
use scion_int_p.Text.Numbers.{stoi, stoull, to_unsigned}
use scion_int_p.Text.Streams.{Stream, get_line, left_lines, open_text}

-- `std::stoi("0x" + part, nullptr, 16)` and `std::stoull("0x" + part, nullptr, 16)`, the first
-- converted to the uint16_t that it is assigned to.
unfoldable pub hex_isd : Bytes → Outcome ℕ
hex_isd part = do value ← stoi 16 (b'0' ∷ b'x' ∷ part); ok (to_unsigned 16 value)

unfoldable pub hex_group : Bytes → Outcome ℕ
hex_group part = do value ← stoull 16 (b'0' ∷ b'x' ∷ part); ok (to_unsigned 64 value)

-- `while (getline(addressStream, part, ':')) asAddress = (asAddress << 16) + …`, in uint64_t.
unfoldable pub as_loop : List Bytes → ℕ → Outcome ℕ
as_loop [] as_address = ok as_address
as_loop (part ∷ parts) as_address = do
  group ← hex_group part
  as_loop parts (u64 (u64 (as_address * 2 ^ 16) + group))

-- The conversions of `splitScionAddress`, behind its first `getline`.
unfoldable pub scion_parts : Bytes → Stream → Outcome (ℕ × ℕ)
scion_parts part stream = do
  isd ← hex_isd part
  as_address ← as_loop (left_lines b':' stream) 0
  ok (isd, as_address)

unfoldable pub split_scion_address : Bytes → Outcome (ℕ × ℕ)
unfolding scion_parts
split_scion_address address =
    let (_, part, stream) = get_line b'-' (open_text address) [] in scion_parts part stream

-- `ipAddress` and `port` are the values before; they are kept where the address is empty.
unfoldable pub split_ip_address : Bytes → Bytes → ℕ → Outcome (Bytes × ℕ)
split_ip_address [] ip port = ok (ip, port)
split_ip_address (c ∷ cs) ip port = do
  let (_, host, after_host) = get_line b':' (open_text (c ∷ cs)) ip
  let (_, port_text, _) = get_line b':' after_host []
  number ← stoi 10 port_text
  ok (host, to_unsigned 16 number)
