-- ===== src/ControlPlane/Interleaving.antt =====
-- A run of an INT switch over packets and digests in any order.
use mathlib.Core.Option
use mathlib.Core.Option.{or_else}
use scion_int_p.Prelude.{
  ℕ, ◌^◌, ◌<◌, ◌≡◌, refl, sym, ap, ◌∙◌, List, [], ◌∷◌, ◌++◌, Bytes, Bool, true, false, inl, inr,
  ◌⊎◌, All, map, length, append_assoc, append-nil,
}
use scion_int_p.Outcome.{ok}
use scion_int_p.Prelude.Words.{u32}
use scion_int_p.Prelude.Endian.{le_digits}
use scion_int_p.P4Runtime.{P4Info, StreamResponse, packet_in, arbitration, digest_ack}
use scion_int_p.Report.{Serializer}
use scion_int_p.Exec.{Trace, Env, stream_write, produce, write}
use scion_int_p.Connection.{SwitchConnection, create_write_request, send_master_arbitration_update}
use scion_int_p.TcpClient.Framing.{active, inactive, frame, frames, sent, deframe, deframe-frames}
use scion_int_p.MacLearn.{MacLearningCtrl}
use scion_int_p.MacLearn.Digest.{updates_for}
use scion_int_p.MacLearn.Learning.{
  forwards, known, first_port, forward_to, first_port-append, forwards-updates_for,
}
use scion_int_p.P4Runtime.Switch.{HasRoom, Switch, apply_all, after, arrive}
use scion_int_p.Int.PacketIn.{IntController}
use scion_int_p.Int.PacketIn.Handler.{IsForeign, handle_packet_in-sends, handle_packet_in_closed}
use scion_int_p.ControlPlane.{
  ControlPlane, pass, unhandled, dispatch, to_stack, on_packet, handle_message, read_loop, run,
}
use scion_int_p.ControlPlane.Election.{int_switch}
use scion_int_p.ControlPlane.Events.{handle_message-digest, handle_message_foreign}
use scion_int_p.ControlPlane.Learning.{Sighting, digest_message, all_seen, IsLearnableList}
use scion_int_p.ControlPlane.Reports.{
  Telemetry, IsTelemetry, published, topic_of, kafka_message, cloned, reports_short,
}

-- What the data plane sends: clones of INT packets, digests, and packets that are no INT packets.
pub data Event : Type 0 where
  telemetry : Telemetry → Event
  sighting : Sighting → Event
  stray : Bytes → Event

abbrev pub message_of : MacLearningCtrl → Event → StreamResponse
message_of mac (telemetry m) = cloned m
message_of mac (sighting l) = digest_message mac l
message_of mac (stray payload) = packet_in payload

abbrev pub IsEvent : Serializer → Event → Type 0
IsEvent ser (telemetry m) = IsTelemetry ser m
IsEvent ser (sighting l) = IsLearnableList l
IsEvent ser (stray payload) = IsForeign payload

-- The INT packets and the digests among the events, each in their order.
abbrev pub packets_of : List Event → List Telemetry
packets_of [] = []
packets_of (telemetry m ∷ events) = m ∷ packets_of events
packets_of (_ ∷ events) = packets_of events

abbrev pub sightings_of : List Event → List Sighting
sightings_of [] = []
sightings_of (sighting l ∷ events) = l ∷ sightings_of events
sightings_of (_ ∷ events) = sightings_of events

abbrev pub reports_of : List Event → List Bytes
reports_of events = map (λ m. m.report) (packets_of events)

-- The frame of a report, if the connection is open.
abbrev pub framed : Bool → Bytes → Trace
framed true report = frame report
framed false report = []

published-framed :
    (b : Bool) (report : Bytes) (t : Trace) → published (framed b report ++ t) ≡ published t
published-framed true report t = refl
published-framed false report t = refl

module _ {S : Type 0} (switch : Switch S) where
  after-framed :
      (b : Bool) (report : Bytes) (s : S) (t : Trace)
      → after switch s (framed b report ++ t) ≡ after switch s t
  unfolding after arrive
  after-framed true report s t = refl
  after-framed false report s t = refl

  HasRoom-framed :
      (b : Bool) (report : Bytes) (s : S) (t : Trace)
      → HasRoom switch s (framed b report ++ t)
      → HasRoom switch s t
  unfolding arrive
  HasRoom-framed true report s t h = h.1.1
  HasRoom-framed false report s t h = h

module _ (con : SwitchConnection) (mac : MacLearningCtrl) (int : IntController) where
  abbrev pub effects_of : Event → Trace
  effects_of (telemetry m) =
      produce (topic_of int m) m.key m.report ∷ framed int.tcp_socket.is_active m.report
  effects_of (sighting (list_id, seen)) =
      write (record (create_write_request con) { updates = updates_for seen })
      ∷ stream_write (digest_ack mac.mac_learn_digest_id list_id)
      ∷ []
  effects_of (stray payload) = []

  abbrev pub effects : List Event → Trace
  effects [] = []
  effects (e ∷ events) = effects_of e ++ effects events

  pub published-effects :
      (events : List Event)
      → published (effects events) ≡ map (kafka_message int) (packets_of events)
  published-effects [] = refl
  published-effects (telemetry m ∷ events) =
      ap (λ rest. kafka_message int m ∷ rest)
        (published-framed int.tcp_socket.is_active m.report (effects events)
          ∙ published-effects events)
  published-effects (sighting (list_id, seen) ∷ events) = published-effects events
  published-effects (stray payload ∷ events) = published-effects events

  pub sent-effects :
      (events : List Event)
      → int.tcp_socket ≡ active
      → sent (effects events) ≡ sent (frames (reports_of events))
  sent-effects [] opened = refl
  sent-effects (telemetry m ∷ events) opened = rw opened (
      ap (λ bytes. le_digits 4 (u32 (length m.report)) ++ (m.report ++ bytes))
        (sent-effects events opened))
  sent-effects (sighting (list_id, seen) ∷ events) opened = sent-effects events opened
  sent-effects (stray payload ∷ events) opened = sent-effects events opened

  pub packets-IsTelemetry :
      (ser : Serializer) (events : List Event)
      → All (IsEvent ser) events
      → All (IsTelemetry ser) (packets_of events)
  packets-IsTelemetry ser [] h = tt
  packets-IsTelemetry ser (telemetry m ∷ events) h = (h.0, packets-IsTelemetry ser events h.1)
  packets-IsTelemetry ser (sighting l ∷ events) h = packets-IsTelemetry ser events h.1
  packets-IsTelemetry ser (stray payload ∷ events) h = packets-IsTelemetry ser events h.1

  module _ (ser : Serializer) {S : Type 0} (switch : Switch S) where
    pub forwards-effects :
        (events : List Event) (s : S) (address : ℕ)
        → All (IsEvent ser) events
        → address < 2 ^ 48
        → HasRoom switch s (effects events)
        → forwards switch (after switch s (effects events)) address
          ≡ known forward_to (forwards switch s address) (all_seen (sightings_of events)) address
    unfolding after arrive
    forwards-effects [] s address h small room =
        forwards-updates_for switch [] s address tt small tt
    forwards-effects (telemetry m ∷ events) s address h small room =
        let b = int.tcp_socket.is_active in
        ap (λ s'. forwards switch s' address) (after-framed switch b m.report s (effects events))
        ∙ forwards-effects events s address h.1 small
            (HasRoom-framed switch b m.report s (effects events) room.1)
    forwards-effects (stray payload ∷ events) s address h small room =
        forwards-effects events s address h.1 small room
    forwards-effects (sighting (list_id, seen) ∷ events) s address h small room =
        forwards-effects events (apply_all switch s (updates_for seen)) address h.1 small room.1.1
        ∙ ap
            (λ o.
              or_else o
                (Option.map forward_to (first_port (all_seen (sightings_of events)) address)))
            (forwards-updates_for switch seen s address h.0 small room.0)
        ∙ first_port-append forward_to seen (all_seen (sightings_of events)) address
            (forwards switch s address)

-- The connection is open and takes all writes, or there is none.
abbrev pub IsSteady : Env → IntController → Type 0
IsSteady env int =
    ((int.tcp_socket ≡ active) × ((t : Trace) (bytes : Bytes) → env.tcp_write_ok t bytes ≡ true))
    ⊎ (int.tcp_socket ≡ inactive)

module _ (env : Env) (ser : Serializer) (con : SwitchConnection) (p4info : P4Info) (config : Bytes)
    (mac : MacLearningCtrl) (int : IntController)
    (queued : (t : Trace) (report : Bytes) → env.produce_ok t report ≡ true)
    (steady : IsSteady env int) where
  abbrev plane : ControlPlane
  plane = int_switch con p4info config mac int

  handle_event :
      (e : Event) (t : Trace)
      → IsEvent ser e
      → handle_message env ser plane (message_of mac e) t
        ≡ (ok plane.ctrls, t ++ effects_of con mac int e)
  handle_event (telemetry m) t h =
      unfold handle_message to_stack dispatch on_packet pass unhandled in
      elim steady [
        | inl (opened, ready) ↦ rw (
          handle_packet_in-sends env ser int m.packet h.fields m.key m.report h.positive h.exact
              h.key_bytes h.report_bytes t (queued t m.report) opened ready,
          opened,
        )
        | inr closed ↦ rw (
          handle_packet_in_closed env ser int m.packet h.fields m.key m.report h.positive h.exact
              h.key_bytes h.report_bytes t (queued t m.report) closed,
          closed,
        )
      ]
  handle_event (sighting (list_id, seen)) t h =
      handle_message-digest env ser con p4info config mac int seen list_id t h
  handle_event (stray payload) t h =
      handle_message_foreign env ser con p4info config mac int payload t h
      ∙ ap (λ u. (ok plane.ctrls, u)) (sym (append-nil t))

  pub read_loop-effects :
      (events : List Event) (t : Trace)
      → All (IsEvent ser) events
      → read_loop env ser plane (map (message_of mac) events) t
        ≡ (ok plane, t ++ effects con mac int events)
  unfolding read_loop
  read_loop-effects [] t h = ap (λ u. (ok plane, u)) (sym (append-nil t))
  read_loop-effects (e ∷ events) t h = rw (handle_event e t h.0) (
      read_loop-effects events _ h.1
      ∙ ap (λ u. (ok plane, u))
          (append_assoc t (effects_of con mac int e) (effects con mac int events)))

module _ (env : Env) (ser : Serializer) (con : SwitchConnection) (p4info : P4Info) (config : Bytes)
    (mac : MacLearningCtrl) (int : IntController) (opened : int.tcp_socket ≡ active)
    (queued : (t : Trace) (report : Bytes) → env.produce_ok t report ≡ true)
    (ready : (t : Trace) (bytes : Bytes) → env.tcp_write_ok t bytes ≡ true) where
  -- However INT packets, digests and packets that are no INT packets are mixed in the stream of an
  -- INT switch with an open TCP connection, the run, whose request for mastership is written, ends
  -- with the controllers as they were, if Kafka takes all messages and no TCP write fails. Kafka has
  -- got, in the order of the INT packets, each report with its key under the topic of its
  -- destination; a reader of the TCP connection gets the reports, whole and in that order; and a
  -- switch that inserts as P4Runtime says, that all writes reach and that accepts their new entries,
  -- has for every address the forwarding that it had, or else that to the first port on which a
  -- digest saw the address. The fields of the packets fit their widths, their hop lengths are
  -- positive and their shim lengths those of their hops, their keys and reports can be serialised, to
  -- reports shorter than 2^32 bytes, and the addresses and ports of the digests are in range.
  pub run-interleaved :
      {S : Type 0} (switch : Switch S) (events : List Event) (s : S) (address : ℕ)
      → env.stream_write_ok [] (arbitration con.device_id 0 con.election_id) ≡ true
      → All (IsEvent ser) events
      → address < 2 ^ 48
      → HasRoom switch s
          (run env ser (int_switch con p4info config mac int) (map (message_of mac) events) []).1
      → let result =
          run env ser (int_switch con p4info config mac int) (map (message_of mac) events) [] in
        (result.0 ≡ ok (int_switch con p4info config mac int))
        × (published result.1 ≡ map (kafka_message int) (packets_of events))
        × (deframe (length (reports_of events)) (sent result.1) ≡ reports_of events)
        × (forwards switch (after switch s result.1) address
            ≡ or_else
                (forwards switch s address)
                (Option.map forward_to (first_port (all_seen (sightings_of events)) address)))
  unfolding run send_master_arbitration_update after arrive
  run-interleaved switch events s address asked h small room =
      let first = stream_write (arbitration con.device_id 0 con.election_id) ∷ [] in
      let runs =
        read_loop-effects env ser con p4info config mac int queued (inl (opened, ready)) events
          first h in
      let room' : HasRoom switch s (first ++ effects con mac int events) =
        (rw (asked, runs) at room) in
      rw (asked, runs, published-effects con mac int events, sent-effects con mac int events opened)
        (
          refl,
          refl,
          deframe-frames (reports_of events) (
              reports_short ser (packets_of events) (packets-IsTelemetry con mac int ser events h)),
          forwards-effects con mac int ser switch events s address h small room'.1,
        )
