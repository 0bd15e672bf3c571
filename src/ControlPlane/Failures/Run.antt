-- ===== src/ControlPlane/Failures/Run.antt =====
-- Whole runs of an INT switch in which requests fail.
use mathlib.Core.Bool.{true≢false}
use scion_int_p.Prelude.{
  ℕ, ◌≡◌, ◌⊎◌, inl, inr, refl, sym, ap, ◌∙◌, subst, List, [], ◌∷◌, ◌++◌, Bytes, Bool, true, All,
  map, IsPrefix, IsPrefix-refl,
}
use scion_int_p.Outcome.{Outcome, ok, throw, library_error}
use scion_int_p.P4Runtime.{P4Info, arbitration}
use scion_int_p.Report.{Serializer}
use scion_int_p.Exec.{Trace, Env, stream_write}
use scion_int_p.Connection.{SwitchConnection, send_master_arbitration_update}
use scion_int_p.TcpClient.Framing.{frame, frames, sent, sent-append}
use scion_int_p.TcpClient.Partial.{Through, Carried-whole}
use scion_int_p.MacLearn.{MacLearningCtrl}
use scion_int_p.Int.PacketIn.{IntController}
use scion_int_p.ControlPlane.{ControlPlane, read_loop, run}
use scion_int_p.ControlPlane.Learning.{Sighting}
use scion_int_p.ControlPlane.Reports.{published, acknowledged, kafka_message}
use scion_int_p.ControlPlane.Interleaving.{
  Event, telemetry, sighting, stray, message_of, IsEvent, packets_of, sightings_of, reports_of,
}
use scion_int_p.ControlPlane.Failures.{
  plane_with, messages_for, acks_for, bytes_for, all_for, StopsAt, refused, unclosed,
}
use scion_int_p.ControlPlane.Failures.Loop.{loop_cases}

-- The acknowledgement of a digest list.
abbrev pub ack_of : MacLearningCtrl → Sighting → ℕ × ℕ
ack_of mac l = (mac.mac_learn_digest_id, l.0)

module _ (mac : MacLearningCtrl) (int : IntController) where
  messages-packets :
      (events : List Event)
      → all_for (messages_for mac int) events ≡ map (kafka_message int) (packets_of events)
  messages-packets [] = refl
  messages-packets (telemetry m ∷ events) =
      ap (λ ms. kafka_message int m ∷ ms) (messages-packets events)
  messages-packets (sighting l ∷ events) = messages-packets events
  messages-packets (stray payload ∷ events) = messages-packets events

  acks-sightings :
      (events : List Event)
      → all_for (acks_for mac int) events ≡ map (ack_of mac) (sightings_of events)
  acks-sightings [] = refl
  acks-sightings (telemetry m ∷ events) = acks-sightings events
  acks-sightings (sighting l ∷ events) = ap (λ ls. ack_of mac l ∷ ls) (acks-sightings events)
  acks-sightings (stray payload ∷ events) = acks-sightings events

  bytes-reports :
      (events : List Event) → all_for (bytes_for mac int) events ≡ sent (frames (reports_of events))
  bytes-reports [] = refl
  bytes-reports (telemetry m ∷ events) =
      ap (λ b. sent (frame m.report) ++ b) (bytes-reports events)
      ∙ sym (sent-append (frame m.report) (frames (reports_of events)))
  bytes-reports (sighting l ∷ events) = bytes-reports events
  bytes-reports (stray payload ∷ events) = bytes-reports events

module _ (con : SwitchConnection) (p4info : P4Info) (config : Bytes) (mac : MacLearningCtrl)
    (int : IntController) where
  -- The run has returned, and all messages and acknowledgements have been sent.
  abbrev pub IsServed : Outcome ControlPlane → Trace → List Event → Type 0
  IsServed r t events =
      (y : Bool) × (r ≡ ok (plane_with con p4info config mac int y))
      × (published t ≡ map (kafka_message int) (packets_of events))
      × (acknowledged t ≡ map (ack_of mac) (sightings_of events))

module _ (env : Env) (ser : Serializer) (con : SwitchConnection) (p4info : P4Info) (config : Bytes)
    (mac : MacLearningCtrl) (int : IntController) where
  -- A run whose request for mastership is written.
  pub run-read_loop :
      (x : Bool) (events : List Event)
      → env.stream_write_ok [] (arbitration con.device_id 0 con.election_id) ≡ true
      → run env ser (plane_with con p4info config mac int x) (map (message_of mac) events) []
        ≡ read_loop env ser
            (plane_with con p4info config mac int x)
            (map (message_of mac) events)
            (stream_write (arbitration con.device_id 0 con.election_id) ∷ [])
  unfolding run send_master_arbitration_update
  run-read_loop x events asked = rw asked refl

  -- Whatever fails in a run of an INT switch whose request for mastership is written, Kafka and the
  -- switch have been sent, in their order, messages for the first of the INT packets and
  -- acknowledgements of the first of the digest lists, and the TCP connection has carried bytes
  -- from the front of the reports' frames, or none if it was closed from the start. The run
  -- returns, and then all messages and acknowledgements have been sent, or it throws, and then its
  -- last request is a message that Kafka has not taken or a close of the TCP connection that has
  -- failed. The fields of the packets fit their widths, their hop lengths are positive and their
  -- shim lengths those of their hops, their keys and reports can be serialised, to reports shorter
  -- than 2^32 bytes, and the addresses and ports of the digests are in range.
  pub run-stops :
      (x : Bool) (events : List Event)
      → env.stream_write_ok [] (arbitration con.device_id 0 con.election_id) ≡ true
      → All (IsEvent ser) events
      → let result =
          run env ser (plane_with con p4info config mac int x) (map (message_of mac) events) [] in
        IsPrefix (published result.1) (map (kafka_message int) (packets_of events))
        × IsPrefix (acknowledged result.1) (map (ack_of mac) (sightings_of events))
        × Through x (sent result.1) (sent (frames (reports_of events)))
        × (IsServed con p4info config mac int result.0 result.1 events
            ⊎ ((result.0 ≡ throw library_error) × StopsAt env result.1))
  run-stops x events asked h =
      elim (loop_cases env ser con p4info config mac int x events
        (stream_write (arbitration con.device_id 0 con.election_id) ∷ []) h) [
          | inl (y, u, runs, told, acks, bytes) ↦
              let told' = told ∙ messages-packets mac int events in
              let acks' = acks ∙ acks-sightings mac int events in
              rw (run-read_loop x events asked, runs)
                (rw (told', acks')
                  (
                    IsPrefix-refl _,
                    IsPrefix-refl _,
                    subst (Through x (sent u)) (bytes-reports mac int events)
                        (Carried-whole (sent u) _ bytes),
                    inl (y, refl, refl, refl),
                  ))
          | inr (u, throws, told, acks, bytes, ahead, stop) ↦
              rw (run-read_loop x events asked, throws)
                (
                  subst (IsPrefix (published u)) (messages-packets mac int events) told,
                  subst (IsPrefix (acknowledged u)) (acks-sightings mac int events) acks,
                  subst (Through x (sent u)) (bytes-reports mac int events) bytes,
                  inr (refl, stop),
                )
        ]

  -- If Kafka takes all messages and no close of the TCP connection fails, then whatever else fails,
  -- a run of an INT switch over INT packets, digests and packets that are no INT packets, in any
  -- order, returns, if its request for mastership is written: TCP connection open or closed, Kafka
  -- has got each report with its key under the topic of its destination, in the order of the INT
  -- packets, and each digest list is acknowledged, in their order. The fields of the packets fit
  -- their widths, their hop lengths are positive and their shim lengths those of their hops, their
  -- keys and reports can be serialised, to reports shorter than 2^32 bytes, and the addresses and
  -- ports of the digests are in range.
  pub run-serves :
      (x : Bool) (events : List Event)
      → env.stream_write_ok [] (arbitration con.device_id 0 con.election_id) ≡ true
      → All (IsEvent ser) events
      → ((t : Trace) (report : Bytes) → env.produce_ok t report ≡ true)
      → ((t : Trace) → env.tcp_close_ok t ≡ true)
      → let result =
          run env ser (plane_with con p4info config mac int x) (map (message_of mac) events) [] in
        IsServed con p4info config mac int result.0 result.1 events
  run-serves x events asked h queued closes = elim (run-stops x events asked h).3 [
    | inl served ↦ served
    | inr (throws, refused t topic key report full last) ↦
        absurd (true≢false (sym (queued t report) ∙ full))
    | inr (throws, unclosed t stuck last) ↦ absurd (true≢false (sym (closes t) ∙ stuck))
  ]
