-- ===== src/Main/Startup.antt =====
-- The INT program from its arguments to the installed tables.
use scion_int_p.Prelude.{
  ℕ, ◌≡◌, ◌≢◌, ◌<◌, ◌^◌, ap, List, [], ◌∷◌, ◌++◌, Bytes, codes, true, some, All, append_assoc,
  ne→==,
}
use scion_int_p.Outcome.{ok}
use scion_int_p.P4Runtime.{P4Info, arbitration_update, arbitration}
use scion_int_p.Exec.{Trace, stream_write}
use scion_int_p.Connection.{SwitchConnection, connect, send_master_arbitration_update}
use scion_int_p.P4Util.{load_p4_info, load_device_config}
use scion_int_p.MacLearn.{MacLearningCtrl, find_id, mac_learning_ctrl}
use scion_int_p.MacLearn.Installed.{mac_installed}
use scion_int_p.Address.Scion.{scion_notation}
use scion_int_p.IntTable.Entries.{TableLine, comment, row, IsTableLine, table_text, rows, IsRow}
use scion_int_p.Int.Setup.Installed.{with_rows, installed}
use scion_int_p.Int.Setup.Constructed.{fresh, int_controller-table}
use scion_int_p.ControlPlane.{new_control_plane, add_controller, read_loop, run}
use scion_int_p.ControlPlane.Election.{int_switch, pipeline_of, handle_message-elected}
use scion_int_p.Int.PacketIn.{IntController}
use scion_int_p.Main.{World, exit_code, control_plane, add_learning, add_int, run_int, int_main}

pub rows-IsRow : (table : List TableLine) → All IsTableLine table → All IsRow (rows table)
rows-IsRow [] h = tt
rows-IsRow (comment text ∷ others) h = rows-IsRow others h.1
rows-IsRow (row r ∷ others) h = (h.0, rows-IsRow others h.1)

module _ (world : World) (p4info : P4Info) (config : Bytes) (mac counter isd as_address : ℕ)
    (table : List TableLine)
    (p4info_file config_file address device election node table_file kafka
      p4info_text : Bytes) where
  abbrev connection : SwitchConnection
  connection = record { device_id = world.atoi device; election_id = world.atoll election }

  -- What the INT program needs: a switch that answers, a Kafka producer, readable files, a P4Info with the digest and the
  -- counter, an address in range and a table of rows in range.
  pub record IsReady : Type 0 where
    pub answers : world.connected address ≡ true
    pub p4info_read : world.files p4info_file ≡ some p4info_text
    pub p4info_parsed : world.parse_p4_info p4info_text ≡ some p4info
    pub config_read : world.files config_file ≡ some config
    pub digest_found : find_id (codes "macLearnMsg_t") p4info.digests ≡ some mac
    pub digest_id : mac ≢ 0
    pub counter_found : find_id (codes "txCounter") p4info.counters ≡ some counter
    pub counter_id : counter ≢ 0
    pub isd_u16 : isd < 2 ^ 16
    pub as_u48 : as_address < 2 ^ 48
    pub table_read : world.files table_file ≡ some (table_text table)
    pub table_lines : All IsTableLine table
    pub producer_made : world.env.producer_ok kafka ≡ true

  abbrev learning : MacLearningCtrl
  learning = record { mac_learn_digest_id = mac }

  abbrev sink : IntController
  sink = fresh counter (world.atoi node) isd as_address

  pub started :
      (t : Trace)
      → IsReady
      → run_int world p4info_file config_file address device election
          (scion_notation isd as_address)
          node
          table_file
          kafka
          []
          t
        ≡ run world.env world.serializer
            (int_switch connection p4info config learning (with_rows sink (rows table)))
            world.messages
            t
  unfolding run_int control_plane connect load_p4_info load_device_config add_learning
      mac_learning_ctrl add_int add_controller new_control_plane
  started t h = rw (
    h.answers,
    h.p4info_read,
    h.p4info_parsed,
    h.config_read,
    h.digest_found,
    ne→== _ _ h.digest_id,
    h.table_read,
    int_controller-table world.env world.make_address p4info counter isd as_address
        (world.atoi node) table kafka t h.producer_made h.counter_found h.counter_id h.isd_u16
        h.as_u48 h.table_lines,
  )

  -- The INT program, started with nine arguments for a world that is ready for it and elected by the only
  -- message of the stream, its request for mastership being written, exits with 0 after exactly these
  -- requests: for mastership, the pipeline, those of the learning switch and those of the INT sink.
  pub int_main-elected :
      (t : Trace)
      → IsReady
      → world.messages ≡ arbitration_update 0 ∷ []
      → world.env.stream_write_ok t (arbitration connection.device_id 0 connection.election_id)
        ≡ true
      → int_main world
          (p4info_file
            ∷ config_file
            ∷ address
            ∷ device
            ∷ election
            ∷ scion_notation isd as_address
            ∷ node
            ∷ table_file
            ∷ kafka
            ∷ [])
          t
        ≡ (
          ok 0,
          t
              ++ (stream_write (arbitration connection.device_id 0 connection.election_id)
                  ∷ pipeline_of connection p4info config
                  ∷ (mac_installed connection learning ++ installed connection sink (rows table))),
        )
  unfolding int_main exit_code run read_loop send_master_arbitration_update
  int_main-elected t h one sent =
      let message = arbitration connection.device_id 0 connection.election_id in
      rw
        (
          started t h,
          one,
          sent,
          handle_message-elected world.env world.serializer connection p4info config learning sink
              (rows table) (t ++ (stream_write message ∷ [])) (rows-IsRow table h.table_lines),
        )
        (ap (λ u. (ok 0, u)) (append_assoc t (stream_write message ∷ []) _))
