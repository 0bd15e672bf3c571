-- ===== src/Widths.antt =====
-- control_plane/common.h and control_plane/controllers/int/commonInt.h: how many bytes the numbers of
-- the data plane have, and how many those of the types that hold them.
use scion_int_p.Prelude.{ℕ}

abbrev pub mac_addr_bytes : ℕ
mac_addr_bytes = 6

abbrev pub mac_addr_size : ℕ
mac_addr_size = 8

-- Of a port the lower 9 bits are used.
abbrev pub port_bytes : ℕ
port_bytes = 2

abbrev pub port_size : ℕ
port_size = 4

abbrev pub isd_bytes : ℕ
isd_bytes = 2

abbrev pub as_bytes : ℕ
as_bytes = 6

abbrev pub flag_bytes : ℕ
flag_bytes = 1

abbrev pub node_id_bytes : ℕ
node_id_bytes = 4

abbrev pub link_util_bytes : ℕ
link_util_bytes = 4
