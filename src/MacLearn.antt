-- ===== src/MacLearn.antt =====
-- control_plane/controllers/mac_learn.h and mac_learn.cpp: a learning switch.
mod Tables
pub mod Flood
pub mod Digest
pub mod Installed
pub mod Defined
pub mod Learning
unfoldable pub use Tables.{
  table_learn, table_forward, action_none, action_forward, build_learn_table_entry,
  build_forward_table_entry, replica_loop, build_flood_mcast_grp_entity, build_digest_entity,
  num_switch_ports,
}
use scion_int_p.Prelude.{
  ℕ, zero, suc, ◌+◌, List, [], ◌∷◌, Bytes, bytes_eq, Bool, true, false, Option, none, some, ◌==◌,
  if◌then◌else◌, codes,
}
use scion_int_p.Outcome
use scion_int_p.Outcome.{Outcome, ok, throw, fault, runtime_error, uninitialized}
use scion_int_p.P4Runtime.{
  Preamble, P4Info, DigestData, struct, other, DigestList, insert, WriteMessage,
}
use scion_int_p.Exec.{Env, Exec, ◌>>=◌, ◌>>◌, pure, lift}
use scion_int_p.Connection.{
  SwitchConnection, create_write_request, add_update, send_write_request, ack_digest_list,
}
use scion_int_p.Bitstring.{from_bitstring}
use scion_int_p.Widths.{mac_addr_bytes, mac_addr_size, port_bytes, port_size}

pub record MacLearningCtrl : Type 0 where
  pub mac_learn_digest_id : ℕ

-- The id of the first object of a name, as the loops over `p4Info` find it.
unfoldable pub find_id : Bytes → List Preamble → Option ℕ
find_id name [] = none
find_id name (p ∷ ps) =
    let later = find_id name ps in if bytes_eq p.name name then some p.id else later

checked_id : Option ℕ → Outcome MacLearningCtrl
checked_id none = fault uninitialized
checked_id (some id) =
    if id == 0
    then throw (runtime_error "P4Info does not contain a digest of the name macLearnMsg_t")
    else ok (record { mac_learn_digest_id = id })

-- The constructor. `macLearnDigestId` has no initial value: where no digest has the name, the test
-- behind the loop reads a variable that was never set.
unfoldable pub mac_learning_ctrl : P4Info → Outcome MacLearningCtrl
unfolding checked_id
mac_learning_ctrl p4info = checked_id (find_id (codes "macLearnMsg_t") p4info.digests)

-- The source MAC and the ingress port of a digest: the two members of its struct.
unfoldable pub learned : DigestData → Outcome (ℕ × ℕ)
learned (struct (mac ∷ port ∷ [])) =
    ok (from_bitstring mac_addr_size mac_addr_bytes mac, from_bitstring port_size port_bytes port)
learned _ = throw (runtime_error "Invalid digest format")

-- The loop over the digests of a list, which adds two updates for each.
unfoldable pub learn_loop : List DigestData → WriteMessage → Outcome WriteMessage
learn_loop [] message = ok message
learn_loop (digest ∷ digests) message = Outcome.◌>>=◌ (learned digest) λ m. learn_loop digests (
    add_update insert (build_forward_table_entry m.0 m.1)
      (add_update insert (build_learn_table_entry m.0) message))

unfoldable pub flood_loop : ℕ → ℕ → WriteMessage → WriteMessage
flood_loop zero i message = message
flood_loop (suc rounds) i message =
    flood_loop rounds (i + 1) (add_update insert (build_flood_mcast_grp_entity (i + 1) i) message)

module _ (env : Env) (con : SwitchConnection) where
  unfoldable pub handle_digest : MacLearningCtrl → DigestList → Exec Bool
  handle_digest ctrl digests =
      let handled = (do
        message ← lift (learn_loop digests.entries (create_write_request con))
        send_write_request env message
        ack_digest_list env digests.digest_id digests.list_id
        pure true) in
      if digests.digest_id == ctrl.mac_learn_digest_id then handled else pure false

  unfoldable pub create_flood_multicast_group : Exec Bool
  create_flood_multicast_group =
      send_write_request env (flood_loop num_switch_ports 0 (create_write_request con))

  unfoldable pub install_static_table_entries : Exec Bool
  install_static_table_entries =
      send_write_request env
        (add_update insert (build_learn_table_entry 0xffff_ffff_ffff) (create_write_request con))

  unfoldable pub config_digest_messages : MacLearningCtrl → Exec Bool
  config_digest_messages ctrl =
      send_write_request env (
        add_update insert (build_digest_entity ctrl.mac_learn_digest_id) (create_write_request con))

  unfoldable pub handle_arbitration_update : MacLearningCtrl → ℕ → Exec (Unit {0})
  handle_arbitration_update ctrl status =
      let setup : Exec (Unit {0}) = (do
        create_flood_multicast_group
        install_static_table_entries
        config_digest_messages ctrl
        pure tt) in
      if status == 0 then setup else pure tt
