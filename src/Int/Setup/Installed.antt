-- ===== src/Int/Setup/Installed.antt =====
-- What `IntController` writes to the switch when it is elected.
use scion_int_p.Prelude.{
  ℕ, zero, suc, ◌+◌, ◌/◌, ◌%◌, ◌^◌, ◌≡◌, ◌≢◌, inl, inr, Bool-cases, ne→==, refl, sym, ap, ap₂, ◌∙◌,
  List, [], ◌∷◌, ◌++◌, ◌&&◌, All, append_assoc, append-nil, map, arith, ◌==◌, if◌then◌else◌,
}
use scion_int_p.Outcome.{ok}
use scion_int_p.P4Runtime.{Update, insert, WriteMessage}
use scion_int_p.Exec.{Effect, Trace, Env, write}
use scion_int_p.Connection.{SwitchConnection, create_write_request, add_update, send_write_request}
use scion_int_p.Int.Tables.{
  action_insert_int, action_clone_int, build_scion_int_table_entry, build_int_node_id_table_entry,
  build_sci_as_addr_table_entry, build_int_tx_util_table_entry, build_clone_session_entry,
}
use scion_int_p.IntTable.Entries.{Row, IsRow, row_key}
use scion_int_p.Int.PacketIn.{IntController}
use scion_int_p.Int.Setup.{
  is_host, entry_request, tx_util_loop, host_request, node_request, entries_loop,
  install_static_table_entries, config_clone_session, handle_arbitration_update,
}

-- The members of a controller that come from the rows of its table.
abbrev pub with_rows : IntController → List Row → IntController
with_rows ctrl rows = record ctrl {
  as_list = map row_key rows;
  bitmap_int_list = map (λ r. r.bitmap_int) rows;
  bitmap_scion_list = map (λ r. r.bitmap_scion) rows;
}

abbrev pub insertion : SwitchConnection → List Update → WriteMessage
insertion con updates = record (create_write_request con) { updates = updates }

-- What is installed for a row: an INT insertion with its bitmaps for packets to its AS, but nothing for
-- the AS of the switch itself.
abbrev pub row_updates : IntController → Row → List Update
row_updates ctrl r =
    if r.isd == ctrl.host_isd && r.as_address == ctrl.host_as
    then []
    else record {
      kind = insert;
      entity =
          build_scion_int_table_entry r.isd r.as_address r.bitmap_int r.bitmap_scion
            action_insert_int;
    }
      ∷ []

abbrev pub tx_util_updates : ℕ → ℕ → List Update
tx_util_updates zero port = []
tx_util_updates (suc rounds) port =
    record { kind = insert; entity = build_int_tx_util_table_entry port 0 }
    ∷ tx_util_updates rounds (port + 1)

abbrev pub row_effect : SwitchConnection → IntController → Row → Effect
row_effect con ctrl r = write (insertion con (row_updates ctrl r))

abbrev clone_request : SwitchConnection → WriteMessage
clone_request con =
    insertion con (record { kind = insert; entity = build_clone_session_entry 1 } ∷ [])

-- The requests of an election, in order.
abbrev pub installed : SwitchConnection → IntController → List Row → Trace
installed con ctrl rows =
    write (
      insertion con (
        record {
          kind = insert;
          entity = build_scion_int_table_entry ctrl.host_isd ctrl.host_as 0 0 action_clone_int;
        }
        ∷ []))
    ∷ (map (row_effect con ctrl) rows
        ++ (write (
              insertion con (
                record { kind = insert; entity = build_int_node_id_table_entry ctrl.node_id }
                ∷ record { kind = insert; entity = build_sci_as_addr_table_entry ctrl.host_as }
                ∷ tx_util_updates 512 0))
            ∷ write (clone_request con)
            ∷ []))

updates-tx_util_loop :
    (rounds port : ℕ) (message : WriteMessage)
    → tx_util_loop rounds port message
      ≡ record message { updates = message.updates ++ tx_util_updates rounds port }
unfolding tx_util_loop add_update
updates-tx_util_loop zero port message =
    ap (λ us. record message { updates = us }) (sym (append-nil message.updates))
updates-tx_util_loop (suc rounds) port message =
    updates-tx_util_loop rounds (port + 1)
      (add_update insert (build_int_tx_util_table_entry port 0) message)
    ∙ ap (λ us. record message { updates = us })
        (append_assoc message.updates _ (tx_util_updates rounds (port + 1)))

entry_request-row :
    (con : SwitchConnection) (ctrl : IntController) (r : Row)
    → IsRow r
    → entry_request con ctrl (row_key r) r.bitmap_int r.bitmap_scion
      ≡ insertion con (row_updates ctrl r)
unfolding entry_request is_host add_update create_write_request
entry_request-row con ctrl r h =
    let isd : row_key r / 2 ^ 48 ≡ r.isd = omega (arith, h.as_u48) in
    let as_address : row_key r % 2 ^ 48 ≡ r.as_address = omega (arith, h.as_u48) in
    rw (isd, as_address)
      (elim (Bool-cases (r.isd == ctrl.host_isd && r.as_address == ctrl.host_as)) [
        | inl own ↦ rw own
        | inr another ↦ rw another
      ])

node_request_lem :
    (con : SwitchConnection) (ctrl : IntController)
    → node_request con ctrl
      ≡ insertion con (
          record { kind = insert; entity = build_int_node_id_table_entry ctrl.node_id }
          ∷ record { kind = insert; entity = build_sci_as_addr_table_entry ctrl.host_as }
          ∷ tx_util_updates 512 0)
unfolding node_request add_update create_write_request
node_request_lem con ctrl = updates-tx_util_loop 512 0 _

host_request_lem :
    (con : SwitchConnection) (ctrl : IntController)
    → host_request con ctrl
      ≡ insertion con (
          record {
            kind = insert;
            entity = build_scion_int_table_entry ctrl.host_isd ctrl.host_as 0 0 action_clone_int;
          }
          ∷ [])
unfolding host_request add_update create_write_request
host_request_lem con ctrl = refl

module _ (env : Env) (con : SwitchConnection) where
  entries_loop-rows :
      (ctrl : IntController) (rs : List Row) (t : Trace)
      → All IsRow rs
      → entries_loop env con ctrl
          (map row_key rs)
          (map (λ r. r.bitmap_int) rs)
          (map (λ r. r.bitmap_scion) rs)
          t
        ≡ (ok tt, t ++ map (row_effect con ctrl) rs)
  unfolding entries_loop send_write_request
  entries_loop-rows ctrl [] t h = ap (λ u. (ok tt, u)) (sym (append-nil t))
  entries_loop-rows ctrl (r ∷ rs) t h = rw (entry_request-row con ctrl r h.0) (
      entries_loop-rows ctrl rs (t ++ (row_effect con ctrl r ∷ [])) h.1
      ∙ ap (λ u. (ok tt, u)) (append_assoc t (row_effect con ctrl r ∷ []) _))

  -- Elected, a controller with the rows of a table, all in range, sends exactly the requests of
  -- `installed`, whatever the switch answers: the cloning entry of its own AS, for each row its entry
  -- (none in the row of its own AS), the node, the AS and 512 port entries, and the clone session.
  pub handle_arbitration_update-installed :
      (ctrl : IntController) (rs : List Row) (t : Trace)
      → All IsRow rs
      → handle_arbitration_update env con (with_rows ctrl rs) 0 t
        ≡ (ok tt, t ++ installed con ctrl rs)
  unfolding handle_arbitration_update install_static_table_entries config_clone_session
      send_write_request add_update create_write_request
  handle_arbitration_update-installed ctrl rs t h =
      let ctrl' = with_rows ctrl rs in
      let host = host_request con ctrl' in
      let node = node_request con ctrl' in
      let clone = clone_request con in
      let effects = map (row_effect con ctrl) rs in
      rw (entries_loop-rows ctrl' rs (t ++ (write host ∷ [])) h) (
        ap (λ u. (ok tt, u))
          (append_assoc ((t ++ (write host ∷ [])) ++ effects) (write node ∷ []) (write clone ∷ [])
            ∙ append_assoc (t ++ (write host ∷ [])) effects (write node ∷ write clone ∷ [])
            ∙ append_assoc t (write host ∷ []) (effects ++ (write node ∷ write clone ∷ []))
            ∙ ap₂ (λ a b. t ++ (write a ∷ (effects ++ (write b ∷ write clone ∷ []))))
                (host_request_lem con ctrl') (node_request_lem con ctrl')))

  -- Not elected, it sends nothing.
  pub handle_arbitration_update_other :
      (ctrl : IntController) (status : ℕ) (t : Trace)
      → status ≢ 0
      → handle_arbitration_update env con ctrl status t ≡ (ok tt, t)
  unfolding handle_arbitration_update
  handle_arbitration_update_other ctrl status t h = rw (ne→== _ _ h)
