-- ===== src/Tests/Operation.antt =====
-- A whole session of the INT program.
use mathlib.Core.Option
use mathlib.Core.Option.{or_else}
use scion_int_p.Prelude.{
  sym, ap, All, ℕ, ◌≡◌, refl, [], ◌∷◌, ◌++◌, bytes_eq, some, codes, arith, map,
}
use scion_int_p.Outcome.{Outcome, ok}
use scion_int_p.P4Runtime.{arbitration_update, arbitration}
use scion_int_p.Exec.{Trace, stream_write}
use scion_int_p.Address.Scion.{scion_notation}
use scion_int_p.IntTable.Entries.{rows}
use scion_int_p.MacLearn.{find_id}
use scion_int_p.MacLearn.Installed.{mac_installed}
use scion_int_p.MacLearn.Learning.{forwards, forward_to, first_port}
use scion_int_p.P4Runtime.Switch.{after, HasRoom}
use scion_int_p.Int.PacketIn.{IntController}
use scion_int_p.Int.PacketIn.Handler.{too_short}
use scion_int_p.Int.Setup.Installed.{installed, with_rows}
use scion_int_p.Int.Setup.Constructed.{fresh}
use scion_int_p.ControlPlane.Election.{pipeline_of}
use scion_int_p.ControlPlane.Reports.{published}
use scion_int_p.Main.{World, int_main}
use scion_int_p.Main.Startup.{IsReady}
use scion_int_p.Main.Delivered.{int_main-delivers}
use scion_int_p.Report.Encode.{serializer}
use scion_int_p.ControlPlane.Delivered.{
  arrival_message, read_message, told, IsArrival, event_of, events-IsEvent, messages-event_of,
}
use scion_int_p.Tests.Packets.{packet}
use scion_int_p.Tests.Wire.{wire}
use scion_int_p.Tests.Wire.Laws.{wire-IsRuntime}
use scion_int_p.Tests.Delivery.{arrivals, packet-IsReportable}
use scion_int_p.Tests.Data.{switch_con, mac_ctrl, info, table_lines}
use scion_int_p.Tests.Control.{world, rows_in_range}
use scion_int_p.ControlPlane.Interleaving.{effects}
use scion_int_p.Main.Operation.{operates}
use scion_int_p.Tests.Room.{updates_in-HasRoom}
use scion_int_p.Tests.Tables.{tables}
use scion_int_p.Tests.Programs.{no_entries}

-- Elected, then the arrivals; every text is an address.
abbrev busy : World
busy = record world {
  make_address = λ text. some text;
  serializer = serializer wire;
  messages = arbitration_update 0 ∷ map (arrival_message mac_ctrl) arrivals;
}

abbrev busy-IsReady :
    IsReady busy info [] 385 310 1 0xff00_0000_0110 table_lines
      (codes "info")
      (codes "config")
      (codes "switch")
      (codes "1")
      (codes "7")
      (codes "1")
      (codes "table")
      (codes "kafka")
      []
unfolding find_id bytes_eq
busy-IsReady = record {
  answers = refl;
  p4info_read = refl;
  p4info_parsed = refl;
  config_read = refl;
  digest_found = refl;
  digest_id = omega arith;
  counter_found = refl;
  counter_id = omega arith;
  isd_u16 = omega arith;
  as_u48 = omega arith;
  table_read = refl;
  producer_made = refl;
  table_lines = (
    (refl, (refl, (refl, (refl, (refl, (refl, (refl, (refl, (refl, (refl, (refl, tt))))))))))),
    rows_in_range,
  );
}

abbrev arrivals-IsArrival : All (IsArrival wire) arrivals
arrivals-IsArrival = (
  packet-IsReportable,
  (((omega arith, omega arith), tt), (too_short (omega arith), (packet-IsReportable, tt))),
)

abbrev sink : IntController
sink = fresh 310 1 1 0xff00_0000_0110

abbrev set_up : Trace
set_up =
    (stream_write (arbitration 1 0 7) ∷ [])
    ++ (pipeline_of switch_con info []
        ∷ (mac_installed switch_con mac_ctrl ++ installed switch_con sink (rows table_lines)))

abbrev session : Outcome ℕ × Trace
session =
    int_main busy
      (codes "info"
        ∷ codes "config"
        ∷ codes "switch"
        ∷ codes "1"
        ∷ codes "7"
        ∷ scion_notation 1 0xff00_0000_0110
        ∷ codes "1"
        ∷ codes "table"
        ∷ codes "kafka"
        ∷ [])
      []

session_room : HasRoom tables no_entries session.1
session_room =
    rw
      (operates busy info [] 385 310 1 0xff00_0000_0110 table_lines (codes "info") (codes "config")
        (codes "switch") (codes "1") (codes "7") (codes "1") (codes "table") (codes "kafka") []
        busy-IsReady (map (event_of wire) arrivals) (λ t r. refl) refl
        (ap (λ ms. arbitration_update 0 ∷ ms) (sym (messages-event_of wire mac_ctrl arrivals)))
        (events-IsEvent wire wire-IsRuntime arrivals arrivals-IsArrival))
      (updates_in-HasRoom
        (set_up
          ++ effects switch_con mac_ctrl (with_rows sink (rows table_lines))
              (map (event_of wire) arrivals))
        [] (omega arith))

int_main-delivers_example :
    (session.0 ≡ ok 0)
    × (map (read_message wire) (published session.1)
        ≡ told wire sink (packet 13 5) ∷ told wire sink (packet 13 5) ∷ [])
    × (forwards tables (after tables no_entries session.1) 0x0200_0000_00ff
        ≡ or_else
            (forwards tables (after tables no_entries set_up) 0x0200_0000_00ff)
            (Option.map forward_to (first_port ((0x0200_0000_00ff, 3) ∷ []) 0x0200_0000_00ff)))
int_main-delivers_example =
    int_main-delivers busy info [] 385 310 1 0xff00_0000_0110 table_lines (codes "info")
      (codes "config") (codes "switch") (codes "1") (codes "7") (codes "1") (codes "table")
      (codes "kafka") [] busy-IsReady wire wire-IsRuntime refl tables no_entries arrivals
      0x0200_0000_00ff (λ t r. refl) refl refl arrivals-IsArrival (omega arith) session_room
