-- ===== src/Tests/Control.antt =====
-- The controllers and the programs at concrete inputs.
use scion_int_p.Prelude.{
  ℕ, ◌≡◌, refl, List, [], ◌∷◌, ◌++◌, Bytes, bytes_eq, Option, if◌then◌else◌, true, ◌&&◌, not, ltb,
  ◌==◌, none, some, codes, arith, map, All, get_elem?, length,
}
use scion_int_p.Outcome.{ok, throw, runtime_error}
use scion_int_p.P4Runtime.{
  Replica, insert, multicast_group_entry, other, StreamResponse, arbitration_update, packet_in,
  digest_list, idle_timeout, arbitration,
}
use scion_int_p.Exec.{Trace, stream_write}
use scion_int_p.Exec.Runs.{Holds}
use scion_int_p.Connection.{create_write_request}
use scion_int_p.MacLearn.{find_id, flood_loop}
use scion_int_p.MacLearn.Flood.{reaches, count_from, flood_group}
use scion_int_p.MacLearn.Digest.{digest_of}
use scion_int_p.MacLearn.Installed.{mac_installed}
use scion_int_p.Address.Scion.{scion_notation}
use scion_int_p.IntTable.Entries.{IsRow, table_text, rows}
use scion_int_p.Int.Setup
use scion_int_p.Int.Setup.{int_controller}
use scion_int_p.Int.Setup.Installed.{with_rows, installed, handle_arbitration_update-installed}
use scion_int_p.Int.Setup.Constructed.{fresh, int_controller-table}
use scion_int_p.ControlPlane.{ControlPlane, handle_message, read_loop, run}
use scion_int_p.ControlPlane.Election.{int_switch, pipeline_of, handle_message-elected}
use scion_int_p.ControlPlane.Stack.{IsReporting, constant_part}
use scion_int_p.ControlPlane.Invariants.{packet, timeout, run_quiet}
use scion_int_p.ControlPlane.Events.{read_loop_invalid_digest}
use scion_int_p.Main.{World}
use scion_int_p.Tests.Data.{
  all_ok, switch_con, mac_ctrl, int_ctrl, info, plain, table_lines, table_rows,
}

flood_group_example :
    (replicas : List Replica) × (get_elem?
        (flood_loop 8 0 (create_write_request switch_con)).updates
        3
      ≡ some (record { kind = insert; entity = multicast_group_entry 4 replicas }))
    × ((port : ℕ) → reaches port replicas ≡ (ltb port 8 && not (port == 3)))
    × (map (λ r. r.instance_id) replicas ≡ count_from (length replicas) 0)
flood_group_example = flood_group switch_con 3 (omega arith)

abbrev pub seen : List (ℕ × ℕ)
seen = (0x0200_0000_00ff, 3) ∷ []

abbrev pub rows_in_range : All IsRow table_rows
rows_in_range = (
  record {
    isd_u16 = omega arith;
    as_u48 = omega arith;
    int_u16 = omega arith;
    scion_u16 = omega arith;
  },
  tt,
)

handle_arbitration_update-installed_example :
    Setup.handle_arbitration_update all_ok switch_con (with_rows int_ctrl table_rows) 0 []
    ≡ (ok tt, [] ++ installed switch_con int_ctrl table_rows)
handle_arbitration_update-installed_example =
    handle_arbitration_update-installed all_ok switch_con int_ctrl table_rows [] rows_in_range

int_controller-table_example :
    int_controller all_ok
      (λ text. none)
      info
      (scion_notation 1 0xff00_0000_0110)
      2
      (some (table_text table_lines))
      []
      []
      []
    ≡ (ok (with_rows (fresh 310 2 1 0xff00_0000_0110) (rows table_lines)), [])
unfolding find_id bytes_eq
int_controller-table_example =
    int_controller-table all_ok (λ text. none) info 310 1 0xff00_0000_0110 2 table_lines [] [] refl
      refl (omega arith) (omega arith) (omega arith)
      (
        (refl, (refl, (refl, (refl, (refl, (refl, (refl, (refl, (refl, (refl, (refl, tt))))))))))),
        rows_in_range,
      )

abbrev pub plane : ControlPlane
plane = int_switch switch_con info [] mac_ctrl int_ctrl

handle_message-elected_example :
    handle_message all_ok plain
      (int_switch switch_con info [] mac_ctrl (with_rows int_ctrl table_rows))
      (arbitration_update 0)
      []
    ≡ (
      ok (int_switch switch_con info [] mac_ctrl (with_rows int_ctrl table_rows)).ctrls,
      []
          ++ (pipeline_of switch_con info []
              ∷ (mac_installed switch_con mac_ctrl ++ installed switch_con int_ctrl table_rows)),
    )
handle_message-elected_example =
    handle_message-elected all_ok plain switch_con info [] mac_ctrl int_ctrl table_rows []
      rows_in_range

abbrev pub quiet_messages : List StreamResponse
quiet_messages = packet_in (codes "hello") ∷ idle_timeout ∷ []

run_quiet_example :
    Holds
      (λ p. map constant_part p.ctrls ≡ map constant_part plane.ctrls)
      (run all_ok plain plane quiet_messages []).0
    × ((requests : Trace) × ((run all_ok plain plane quiet_messages []).1
          ≡ [] ++ (stream_write (arbitration 1 0 7) ∷ requests))
        × All IsReporting requests)
run_quiet_example =
    run_quiet all_ok plain plane quiet_messages [] (packet (codes "hello"), (timeout, tt))

read_loop_invalid_digest_example :
    read_loop all_ok plain plane
      (digest_list
          (record { digest_id = 385; list_id = 4; entries = map digest_of seen ++ (other ∷ []) })
        ∷ quiet_messages)
      []
    ≡ (throw (runtime_error "Invalid digest format"), [])
read_loop_invalid_digest_example =
    read_loop_invalid_digest all_ok plain switch_con info [] mac_ctrl int_ctrl seen other [] 4
      quiet_messages [] ((omega arith, omega arith), tt) (λ mac port e. absurd (cc e))

abbrev pub files : Bytes → Option Bytes
files name = if bytes_eq name (codes "table") then some (table_text table_lines) else some []

abbrev pub world : World
world = record {
  env = all_ok;
  serializer = plain;
  files = files;
  parse_p4_info = λ text. some info;
  make_address = λ text. none;
  atoi = λ text. 1;
  atoll = λ text. 7;
  connected = λ address. true;
  messages = arbitration_update 0 ∷ [];
}
