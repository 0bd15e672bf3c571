-- ===== src/Int/Tables.antt =====
-- The entities that control_plane/controllers/int/int.cpp writes to the switch, with the widths of
-- control_plane/controllers/int/commonInt.h and control_plane/common.h.
use scion_int_p.Prelude.{ℕ, [], ◌∷◌, Option, none, some, ◌==◌, if◌then◌else◌}
use scion_int_p.P4Runtime.{Action, Entity, table_entry, clone_session_entry}
use scion_int_p.Bitstring.{to_bitstring}
use scion_int_p.Widths.{port_bytes, isd_bytes, as_bytes, flag_bytes, node_id_bytes, link_util_bytes}

abbrev pub cpu_port : ℕ
cpu_port = 128

abbrev pub action_insert_int : ℕ
action_insert_int = 0x0100_2001

abbrev pub action_clone_int : ℕ
action_clone_int = 0x0100_2002

abbrev pub action_insert_node_id : ℕ
action_insert_node_id = 0x0100_2003

abbrev pub action_insert_tx_util : ℕ
action_insert_tx_util = 0x0100_2004

abbrev pub action_insert_as_addr : ℕ
action_insert_as_addr = 0x0100_2005

abbrev pub table_scion_int : ℕ
table_scion_int = 0x0200_2001

abbrev pub table_int_node_id : ℕ
table_int_node_id = 0x0200_2002

abbrev pub table_int_tx_util : ℕ
table_int_tx_util = 0x0200_2003

abbrev pub table_int_as_addr : ℕ
table_int_as_addr = 0x0200_2004

-- The action of an entry of the SCION INT table; `def_action` may also be neither of the two.
unfoldable pub scion_int_action : ℕ → ℕ → ℕ → Option Action
scion_int_action bitmap_int bitmap_scion def_action =
    if def_action == action_insert_int
    then some (record {
      action_id = action_insert_int;
      params =
          record { param_id = 1; value = to_bitstring 2 bitmap_int }
          ∷ record { param_id = 2; value = to_bitstring 2 bitmap_scion }
          ∷ [];
    })
    else if def_action == action_clone_int
    then some (record { action_id = action_clone_int; params = [] })
    else none

unfoldable pub build_scion_int_table_entry : ℕ → ℕ → ℕ → ℕ → ℕ → Entity
build_scion_int_table_entry isd as_address bitmap_int bitmap_scion def_action =
    table_entry (record {
      table_id = table_scion_int;
      matches =
          record { field_id = 1; value = to_bitstring isd_bytes isd }
          ∷ record { field_id = 2; value = to_bitstring as_bytes as_address }
          ∷ [];
      action = scion_int_action bitmap_int bitmap_scion def_action;
    })

unfoldable pub build_int_node_id_table_entry : ℕ → Entity
build_int_node_id_table_entry node_id = table_entry (record {
  table_id = table_int_node_id;
  matches = record { field_id = 1; value = to_bitstring flag_bytes 1 } ∷ [];
  action = some (record {
    action_id = action_insert_node_id;
    params = record { param_id = 1; value = to_bitstring node_id_bytes node_id } ∷ [];
  });
})

unfoldable pub build_sci_as_addr_table_entry : ℕ → Entity
build_sci_as_addr_table_entry as_address = table_entry (record {
  table_id = table_int_as_addr;
  matches = record { field_id = 1; value = to_bitstring flag_bytes 1 } ∷ [];
  action = some (record {
    action_id = action_insert_as_addr;
    params = record { param_id = 1; value = to_bitstring 8 as_address } ∷ [];
  });
})

unfoldable pub build_int_tx_util_table_entry : ℕ → ℕ → Entity
build_int_tx_util_table_entry port tx_count = table_entry (record {
  table_id = table_int_tx_util;
  matches =
      record { field_id = 1; value = to_bitstring flag_bytes 1 }
      ∷ record { field_id = 2; value = to_bitstring port_bytes port }
      ∷ [];
  action = some (record {
    action_id = action_insert_tx_util;
    params = record { param_id = 1; value = to_bitstring link_util_bytes tx_count } ∷ [];
  });
})

unfoldable pub build_clone_session_entry : ℕ → Entity
build_clone_session_entry id = clone_session_entry (record {
  session_id = id;
  replicas = record { egress_port = cpu_port; instance_id = 1 } ∷ [];
  class_of_service = 0;
  packet_length_bytes = 0;
})
