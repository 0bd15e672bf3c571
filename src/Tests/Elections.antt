-- ===== src/Tests/Elections.antt =====
-- Elections at concrete inputs.
use scion_int_p.Prelude.{[], ◌∷◌, refl}
use scion_int_p.P4Runtime.{arbitration_update}
use scion_int_p.P4Runtime.Switch.{after, SameTables}
use scion_int_p.Exec.{Trace, write}
use scion_int_p.Connection.{create_write_request}
use scion_int_p.MacLearn.{table_learn}
use scion_int_p.MacLearn.Digest.{updates_for}
use scion_int_p.MacLearn.Learning.{mac_key}
use scion_int_p.Int.Setup.Installed.{with_rows}
use scion_int_p.ControlPlane.{handle_message}
use scion_int_p.ControlPlane.Election.{int_switch}
use scion_int_p.ControlPlane.Reelection.{handle_message-reelected}
use scion_int_p.Tests.Data.{all_ok, switch_con, mac_ctrl, int_ctrl, info, plain, table_rows}
use scion_int_p.Tests.Control.{rows_in_range}
use scion_int_p.Tests.Tables.{Tables, endless_tables}
use scion_int_p.Prelude.{none}

-- A switch that knows an address without an action.
abbrev other_entries : Tables
other_entries =
    record { table_id = table_learn; matches = mac_key 0x0200_0000_00aa; action = none } ∷ []

-- An address has been learned.
abbrev learning : Trace
learning =
    write (record (create_write_request switch_con) {
      updates = updates_for ((0x0200_0000_00ff, 3) ∷ []);
    })
    ∷ []

handle_message-reelected_example :
    SameTables endless_tables
      (after endless_tables []
        (handle_message all_ok plain
          (int_switch switch_con info [] mac_ctrl (with_rows int_ctrl table_rows))
          (arbitration_update 0)
          []).1)
      (after endless_tables other_entries
        (handle_message all_ok plain
          (int_switch switch_con info [] mac_ctrl (with_rows int_ctrl table_rows))
          (arbitration_update 0)
          learning).1)
handle_message-reelected_example =
    handle_message-reelected all_ok plain switch_con info [] mac_ctrl int_ctrl table_rows
      rows_in_range endless_tables [] other_entries [] learning (λ s s' e same. refl)
