-- ===== src/MacLearn/Installed.antt =====
-- What the learning switch writes to the switch when it is elected.
use scion_int_p.Prelude.{ℕ, ◌+◌, ◌≡◌, ◌≢◌, ap, ◌∙◌, List, [], ◌∷◌, ◌++◌, map, append_assoc, ne→==}
use scion_int_p.Outcome.{ok}
use scion_int_p.P4Runtime.{Entity, insert, WriteMessage}
use scion_int_p.Exec.{Trace, Env, write}
use scion_int_p.Connection.{SwitchConnection, create_write_request, add_update, send_write_request}
use scion_int_p.MacLearn.{
  MacLearningCtrl, build_learn_table_entry, build_flood_mcast_grp_entity, build_digest_entity,
  create_flood_multicast_group, flood_loop, install_static_table_entries, config_digest_messages,
  handle_arbitration_update,
}

abbrev pub inserts : SwitchConnection → List Entity → WriteMessage
inserts con entities = record (create_write_request con) {
  updates = map (λ e. record { kind = insert; entity = e }) entities;
}

-- The three requests of an election: the groups of the eight ports, the broadcast address as a known
-- one, and the digest.
abbrev pub mac_installed : SwitchConnection → MacLearningCtrl → Trace
mac_installed con ctrl =
    write (
      inserts con (
        map (λ port. build_flood_mcast_grp_entity (port + 1) port)
          (0 ∷ 1 ∷ 2 ∷ 3 ∷ 4 ∷ 5 ∷ 6 ∷ 7 ∷ [])))
    ∷ write (inserts con (build_learn_table_entry 0xffff_ffff_ffff ∷ []))
    ∷ write (inserts con (build_digest_entity ctrl.mac_learn_digest_id ∷ []))
    ∷ []

module _ (env : Env) (con : SwitchConnection) (ctrl : MacLearningCtrl) where
  -- Elected, the learning switch sends these three requests in this order, whatever the switch answers.
  pub mac_handle_arbitration_update-installed :
      (t : Trace)
      → handle_arbitration_update env con ctrl 0 t ≡ (ok tt, t ++ mac_installed con ctrl)
  unfolding handle_arbitration_update create_flood_multicast_group install_static_table_entries
      config_digest_messages send_write_request flood_loop add_update create_write_request
  mac_handle_arbitration_update-installed t =
      ap (λ u. (ok tt, u))
        (append_assoc (t ++ (_ ∷ [])) (_ ∷ []) (_ ∷ []) ∙ append_assoc t (_ ∷ []) (_ ∷ _ ∷ []))

  pub mac_handle_arbitration_update_other :
      (status : ℕ) (t : Trace)
      → status ≢ 0
      → handle_arbitration_update env con ctrl status t ≡ (ok tt, t)
  unfolding handle_arbitration_update
  mac_handle_arbitration_update_other status t h = rw (ne→== _ _ h)
