-- ===== src/Main/Delivered.antt =====
-- What the consumers read of a whole session of the INT program, when its messages are those of
-- report.pb.cc.
use mathlib.Core.Option
use mathlib.Core.Option.{or_else}
use scion_int_p.Prelude.{
  ℕ, ◌≡◌, ◌<◌, ◌^◌, sym, ap, subst⁻¹, ◌∙◌, List, [], ◌∷◌, Bytes, true, All, map,
}
use scion_int_p.Outcome.{ok}
use scion_int_p.P4Runtime.{P4Info, arbitration_update, arbitration}
use scion_int_p.Exec.{Trace}
use scion_int_p.Report.Wire.{Runtime, IsRuntime}
use scion_int_p.Report.Encode.{serializer}
use scion_int_p.Address.Scion.{scion_notation}
use scion_int_p.IntTable.Entries.{TableLine}
use scion_int_p.MacLearn.{MacLearningCtrl}
use scion_int_p.MacLearn.Learning.{forwards, forward_to, first_port}
use scion_int_p.P4Runtime.Switch.{HasRoom, Switch, after}
use scion_int_p.Int.PacketIn.{IntController}
use scion_int_p.Int.Setup.Constructed.{fresh}
use scion_int_p.ControlPlane.Learning.{all_seen}
use scion_int_p.ControlPlane.Reports.{published}
use scion_int_p.ControlPlane.Interleaving.{IsEvent}
use scion_int_p.ControlPlane.Delivered.{
  Arrival, arrival_message, IsArrival, int_packets, digests, read_message, event_of,
  messages-event_of, sightings-event_of, told, events-IsEvent, read_published,
}
use scion_int_p.Main.{World, int_main}
use scion_int_p.Main.Startup.{IsReady}
use scion_int_p.Main.Operation.{set_up, int_main-operates}

module _ (world : World) (p4info : P4Info) (config : Bytes) (mac counter isd as_address : ℕ)
    (table : List TableLine)
    (p4info_file config_file address device election node table_file kafka p4info_text : Bytes)
    (ready : IsReady world p4info config mac counter isd as_address table p4info_file config_file
      address device election node table_file kafka p4info_text)
    (rt : Runtime) (laws : IsRuntime rt) (serialised : world.serializer ≡ serializer rt) where
  abbrev sink : IntController
  sink = fresh counter (world.atoi node) isd as_address

  abbrev learning : MacLearningCtrl
  learning = record { mac_learn_digest_id = mac }

  -- The INT program with the serialisation of report.pb.cc, started with nine arguments, so without
  -- an address for TCP, for a world that is ready for it, is elected by the first message of the
  -- stream, its request for mastership being written; then INT packets, digests and packets that are
  -- no INT packets come in any order. It exits with 0, if Kafka takes all messages. The consumer of
  -- Kafka reads, for each INT packet in their order, the flow of the packet and its report, the hops
  -- that the switches recorded included, under the topic of its destination; and a switch that
  -- inserts as P4Runtime says, that all writes reach and that accepts their new entries, has for
  -- every host the forwarding that the set-up left, or else that to the first port on which a digest
  -- saw the host. The fields of the packets fit their widths, their hop lengths are positive and
  -- their shim lengths those of their hops, their reports are below the limit of a message, and the
  -- addresses and ports of the digests are in range.
  pub int_main-delivers :
      {S : Type 0} (switch : Switch S) (s : S) (arrivals : List Arrival) (host : ℕ)
      → ((t : Trace) (report : Bytes) → world.env.produce_ok t report ≡ true)
      → world.env.stream_write_ok [] (arbitration (world.atoi device) 0 (world.atoll election))
        ≡ true
      → world.messages ≡ arbitration_update 0 ∷ map (arrival_message learning) arrivals
      → All (IsArrival rt) arrivals
      → host < 2 ^ 48
      → HasRoom switch s
          (int_main world
            (p4info_file
              ∷ config_file
              ∷ address
              ∷ device
              ∷ election
              ∷ scion_notation isd as_address
              ∷ node
              ∷ table_file
              ∷ kafka
              ∷ [])
            []).1
      → let result =
          int_main world
            (p4info_file
              ∷ config_file
              ∷ address
              ∷ device
              ∷ election
              ∷ scion_notation isd as_address
              ∷ node
              ∷ table_file
              ∷ kafka
              ∷ [])
            [] in
        let installed =
          set_up world p4info config mac counter isd as_address table p4info_file config_file
            address device election node table_file kafka p4info_text ready in
        (result.0 ≡ ok 0)
        × (map (read_message rt) (published result.1) ≡ map (told rt sink) (int_packets arrivals))
        × (forwards switch (after switch s result.1) host
            ≡ or_else
                (forwards switch (after switch s installed) host)
                (Option.map forward_to (first_port (all_seen (digests arrivals)) host)))
  int_main-delivers switch s arrivals host queued asked stream h small room =
      let events = map (event_of rt) arrivals in
      let (ended, kafka_got, learned) =
        int_main-operates world p4info config mac counter isd as_address table p4info_file
          config_file address device election node table_file kafka p4info_text ready switch s
          events host queued asked
          (stream
            ∙ ap (λ ms. arbitration_update 0 ∷ ms) (sym (messages-event_of rt learning arrivals)))
          (subst⁻¹ (λ ser. All (IsEvent ser) events) serialised (events-IsEvent rt laws arrivals h))
          small room in
      (
        ended,
        ap (map (read_message rt)) kafka_got ∙ read_published rt laws sink arrivals h,
        rw⁻¹ (sightings-event_of rt arrivals) learned,
      )
