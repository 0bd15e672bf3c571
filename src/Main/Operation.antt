-- ===== src/Main/Operation.antt =====
-- The INT program from its arguments to the reports and the forwarding of a whole session.
use mathlib.Core.Option
use mathlib.Core.Option.{or_else}
use scion_int_p.Prelude.{
  inr, ℕ, ◌≡◌, ◌<◌, ◌^◌, refl, ap, ◌∙◌, List, [], ◌∷◌, ◌++◌, Bytes, true, All, append_assoc, map,
}
use scion_int_p.Outcome.{ok}
use scion_int_p.P4Runtime.{P4Info, arbitration_update, arbitration}
use scion_int_p.Exec.{Trace, stream_write}
use scion_int_p.Connection.{SwitchConnection, send_master_arbitration_update}
use scion_int_p.MacLearn.{MacLearningCtrl}
use scion_int_p.MacLearn.Installed.{mac_installed}
use scion_int_p.MacLearn.Learning.{forwards, forward_to, first_port}
use scion_int_p.P4Runtime.Switch.{HasRoom, HasRoom-append, Switch, after, after-append}
use scion_int_p.Address.Scion.{scion_notation}
use scion_int_p.IntTable.Entries.{TableLine, Row, rows}
use scion_int_p.Int.PacketIn.{IntController}
use scion_int_p.Int.Setup.Installed.{with_rows, row_effect, installed}
use scion_int_p.Int.Setup.Constructed.{fresh}
use scion_int_p.ControlPlane.{read_loop, run}
use scion_int_p.ControlPlane.Election.{pipeline_of, handle_message-elected}
use scion_int_p.ControlPlane.Learning.{all_seen}
use scion_int_p.ControlPlane.Reports.{published, kafka_message}
use scion_int_p.ControlPlane.Interleaving.{
  Event, IsEvent, message_of, packets_of, sightings_of, effects, published-effects,
  forwards-effects, read_loop-effects,
}
use scion_int_p.Main.{World, exit_code, int_main}
use scion_int_p.Main.Startup.{IsReady, started, rows-IsRow}

published-rows :
    (con : SwitchConnection) (int : IntController) (rs : List Row) (t : Trace)
    → published (map (row_effect con int) rs ++ t) ≡ published t
published-rows con int [] t = refl
published-rows con int (r ∷ rs) t = published-rows con int rs t

module _ (world : World) (p4info : P4Info) (config : Bytes) (mac counter isd as_address : ℕ)
    (table : List TableLine)
    (p4info_file config_file address device election node table_file kafka p4info_text : Bytes)
    (ready : IsReady world p4info config mac counter isd as_address table p4info_file config_file
      address device election node table_file kafka p4info_text) where
  abbrev pub connection : SwitchConnection
  connection = record { device_id = world.atoi device; election_id = world.atoll election }

  abbrev pub learning : MacLearningCtrl
  learning = record { mac_learn_digest_id = mac }

  abbrev pub sink : IntController
  sink = fresh counter (world.atoi node) isd as_address

  -- The requests up to the end of the election.
  abbrev pub set_up : Trace
  set_up =
      (stream_write (arbitration connection.device_id 0 connection.election_id) ∷ [])
      ++ (pipeline_of connection p4info config
          ∷ (mac_installed connection learning ++ installed connection sink (rows table)))

  pub operates :
      (events : List Event)
      → ((t : Trace) (report : Bytes) → world.env.produce_ok t report ≡ true)
      → world.env.stream_write_ok [] (arbitration connection.device_id 0 connection.election_id)
        ≡ true
      → world.messages ≡ arbitration_update 0 ∷ map (message_of learning) events
      → All (IsEvent world.serializer) events
      → int_main world
          (p4info_file
            ∷ config_file
            ∷ address
            ∷ device
            ∷ election
            ∷ scion_notation isd as_address
            ∷ node
            ∷ table_file
            ∷ kafka
            ∷ [])
          []
        ≡ (ok 0, set_up ++ effects connection learning (with_rows sink (rows table)) events)
  unfolding int_main exit_code run read_loop send_master_arbitration_update
  operates events queued asked stream h =
      let t = stream_write (arbitration connection.device_id 0 connection.election_id) ∷ [] in
      rw (
        started world p4info config mac counter isd as_address table p4info_file config_file address
            device election node table_file kafka p4info_text [] ready,
        stream,
        asked,
        handle_message-elected world.env world.serializer connection p4info config learning sink
            (rows table) t (rows-IsRow table ready.table_lines),
        read_loop-effects world.env world.serializer connection p4info config learning
            (with_rows sink (rows table)) queued (inr refl) events set_up h,
      )

  published-set_up : (t : Trace) → published (set_up ++ t) ≡ published t
  published-set_up t =
      ap published (append_assoc (map (row_effect connection sink) (rows table)) _ t)
      ∙ published-rows connection sink (rows table) _

  -- The INT program, started with nine arguments for a world that is ready for it, is elected by the first
  -- message of the stream, its request for mastership being written; then INT packets, digests and packets
  -- that are no INT packets come in any order. It exits with 0, if Kafka takes all messages. Kafka has got
  -- the reports of the INT packets in their order, and a switch that inserts as P4Runtime says, that all
  -- writes reach and that accepts their new entries, has for every host the forwarding that the set-up
  -- left, or else that to the first port on which a digest saw the host. The fields of the packets fit their
  -- widths, their hop lengths are positive and their shim lengths those of their hops, their keys and
  -- reports can be serialised, and the addresses and ports of the digests are in range.
  pub int_main-operates :
      {S : Type 0} (switch : Switch S) (s : S) (events : List Event) (host : ℕ)
      → ((t : Trace) (report : Bytes) → world.env.produce_ok t report ≡ true)
      → world.env.stream_write_ok [] (arbitration connection.device_id 0 connection.election_id)
        ≡ true
      → world.messages ≡ arbitration_update 0 ∷ map (message_of learning) events
      → All (IsEvent world.serializer) events
      → host < 2 ^ 48
      → HasRoom switch s
          (int_main world
            (p4info_file
              ∷ config_file
              ∷ address
              ∷ device
              ∷ election
              ∷ scion_notation isd as_address
              ∷ node
              ∷ table_file
              ∷ kafka
              ∷ [])
            []).1
      → let result =
          int_main world
            (p4info_file
              ∷ config_file
              ∷ address
              ∷ device
              ∷ election
              ∷ scion_notation isd as_address
              ∷ node
              ∷ table_file
              ∷ kafka
              ∷ [])
            [] in
        (result.0 ≡ ok 0)
        × (published result.1 ≡ map (kafka_message sink) (packets_of events))
        × (forwards switch (after switch s result.1) host
            ≡ or_else
                (forwards switch (after switch s set_up) host)
                (Option.map forward_to (first_port (all_seen (sightings_of events)) host)))
  int_main-operates switch s events host queued asked stream h small room =
      let int = with_rows sink (rows table) in
      let done = effects connection learning int events in
      let ran = operates events queued asked stream h in
      let room' = HasRoom-append switch s set_up done (rw ran at room) in
      rw
        (
          ran,
          published-set_up done,
          published-effects connection learning int events,
          after-append switch s set_up done,
        )
        (
          refl,
          refl,
          forwards-effects connection learning int world.serializer switch events
              (after switch s set_up) host h small room',
        )
