-- ===== src/MacLearn/Tables.antt =====
-- The entities that mac_learn.cpp writes to the switch.
use scion_int_p.Prelude.{ℕ, zero, suc, ◌+◌, ◌*◌, List, [], ◌∷◌, some, ◌==◌, if◌then◌else◌}
use scion_int_p.P4Runtime.{Replica, Entity, table_entry, multicast_group_entry, digest_entry}
use scion_int_p.Bitstring.{to_bitstring}
use scion_int_p.Widths.{mac_addr_bytes, port_bytes}

abbrev pub num_switch_ports : ℕ
num_switch_ports = 8

abbrev pub action_none : ℕ
action_none = 0x0100_0001

abbrev pub action_forward : ℕ
action_forward = 0x0100_1002

abbrev pub table_learn : ℕ
table_learn = 0x0200_1001

abbrev pub table_forward : ℕ
table_forward = 0x0200_1002

unfoldable pub build_learn_table_entry : ℕ → Entity
build_learn_table_entry mac = table_entry (record {
  table_id = table_learn;
  matches = record { field_id = 1; value = to_bitstring mac_addr_bytes mac } ∷ [];
  action = some (record { action_id = action_none; params = [] });
})

unfoldable pub build_forward_table_entry : ℕ → ℕ → Entity
build_forward_table_entry mac out_port = table_entry (record {
  table_id = table_forward;
  matches = record { field_id = 1; value = to_bitstring mac_addr_bytes mac } ∷ [];
  action = some (record {
    action_id = action_forward;
    params = record { param_id = 1; value = to_bitstring port_bytes out_port } ∷ [];
  });
})

-- The loop over the ports, from port `i` on, with the number of the next replica.
unfoldable pub replica_loop : ℕ → ℕ → ℕ → ℕ → List Replica
replica_loop exclude zero i count = []
replica_loop exclude (suc rounds) i count =
    let replica : Replica = record { egress_port = i; instance_id = count } in
    let added = replica ∷ replica_loop exclude rounds (i + 1) (count + 1) in
    let passed = replica_loop exclude rounds (i + 1) count in if i == exclude then passed else added

unfoldable pub build_flood_mcast_grp_entity : ℕ → ℕ → Entity
build_flood_mcast_grp_entity id exclude =
    multicast_group_entry id (replica_loop exclude num_switch_ports 0 0)

unfoldable pub build_digest_entity : ℕ → Entity
build_digest_entity digest_id = digest_entry (record {
  digest_id = digest_id;
  max_timeout_ns = 0;
  max_list_size = 1;
  ack_timeout_ns = 1000 * 1000;
})
