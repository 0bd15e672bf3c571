-- ===== src/ControlPlane/Failures/Received.antt =====
-- What a reader at the other end of the TCP connection gets from runs in which requests fail.
use scion_int_p.Prelude.{
  ℕ, ◌^◌, ◌<◌, ◌≡◌, ap, ◌∙◌, List, [], ◌++◌, Bytes, Bool, true, false, All, map, length, IsPrefix,
  subst, subst⁻¹, inl, inr, ◌∷◌, refl, IsPrefix-map, IsPrefix-trans, All-IsPrefix,
}
use scion_int_p.P4Runtime.{P4Info, arbitration}
use scion_int_p.Report.{Serializer}
use scion_int_p.Exec.{stream_write, Env}
use scion_int_p.Connection.{SwitchConnection}
use scion_int_p.TcpClient.Framing.{frames, sent}
use scion_int_p.TcpClient.Partial.{Through, Carried-whole}
use scion_int_p.TcpClient.Reader.{read_frames, read_frames-IsPrefix, read_frames-frames}
use scion_int_p.MacLearn.{MacLearningCtrl}
use scion_int_p.Int.PacketIn.{IntController}
use scion_int_p.ControlPlane.{run}
use scion_int_p.ControlPlane.Reports.{Telemetry, published, kafka_message, reports_short}
use scion_int_p.ControlPlane.Interleaving.{
  Event, message_of, IsEvent, packets_of, reports_of, packets-IsTelemetry,
}
use scion_int_p.ControlPlane.Failures.{plane_with}
use scion_int_p.ControlPlane.Failures.Run.{run-stops, run-read_loop}
use scion_int_p.ControlPlane.Failures.Loop.{loop_cases, copies, copies-messages}

-- What has gone through, of a closed connection nothing, stands in front of the whole.
Through-IsPrefix : (x : Bool) (bytes whole : Bytes) → Through x bytes whole → IsPrefix bytes whole
Through-IsPrefix true bytes whole h = h
Through-IsPrefix false bytes whole h = (whole, ap (λ b. b ++ whole) h)

reports-messages :
    (int : IntController) (ms : List Telemetry)
    → map (λ m. m.2) (map (kafka_message int) ms) ≡ map (λ m. m.report) ms
reports-messages int [] = refl
reports-messages int (m ∷ ms) = ap (λ rs. m.report ∷ rs) (reports-messages int ms)

module _ (env : Env) (ser : Serializer) (con : SwitchConnection) (p4info : P4Info) (config : Bytes)
    (mac : MacLearningCtrl) (int : IntController) where
  reports_small :
      (events : List Event)
      → All (IsEvent ser) events
      → All (λ r. length r < 2 ^ 32) (reports_of events)
  reports_small events h =
      reports_short ser (packets_of events) (packets-IsTelemetry con mac int ser events h)

  run-queued :
      (x : Bool) (events : List Event)
      → env.stream_write_ok [] (arbitration con.device_id 0 con.election_id) ≡ true
      → All (IsEvent ser) events
      → let result =
          run env ser (plane_with con p4info config mac int x) (map (message_of mac) events) [] in
        IsPrefix (map (λ m. m.2) (published result.1)) (reports_of events)
  run-queued x events asked h =
      subst (IsPrefix _) (reports-messages int (packets_of events)) (
        IsPrefix-map (λ m. m.2) _ _
          (run-stops env ser con p4info config mac int x events asked h).0)

  -- What has gone through the TCP connection stands in front of the frames of what Kafka was sent.
  run-copies :
      (x : Bool) (events : List Event)
      → env.stream_write_ok [] (arbitration con.device_id 0 con.election_id) ≡ true
      → All (IsEvent ser) events
      → let result =
          run env ser (plane_with con p4info config mac int x) (map (message_of mac) events) [] in
        Through x (sent result.1) (copies (published result.1))
  run-copies x events asked h =
      elim (loop_cases env ser con p4info config mac int x events
        (stream_write (arbitration con.device_id 0 con.election_id) ∷ []) h) [
          | inl (y, u, runs, told, acks, bytes) ↦
              rw (run-read_loop env ser con p4info config mac int x events asked, runs)
                (subst⁻¹ (Through x (sent u)) (ap copies told ∙ copies-messages mac int events)
                  (Carried-whole (sent u) _ bytes))
          | inr (u, throws, told, acks, bytes, ahead, stop) ↦
              rw (run-read_loop env ser con p4info config mac int x events asked, throws) ahead
        ]

  -- Whatever fails in a run of an INT switch whose request for mastership is written, Kafka is sent
  -- the first of the reports of the INT packets, in their order, and a reader of the TCP connection
  -- gets none that Kafka was not sent: however much from the front of the bytes that the run writes
  -- arrives, and after however many rounds, a reader that takes complete frames has the first of the
  -- reports that Kafka was sent, each whole, and nothing else. From the frames of all the reports it
  -- gets them all, a round for each. The fields of the packets fit their widths, their hop lengths
  -- are positive and their shim lengths those of their hops, their keys and reports can be
  -- serialised, to reports shorter than 2^32 bytes, and the addresses and ports of the digests are in
  -- range.
  pub run-reads :
      (x : Bool) (events : List Event)
      → env.stream_write_ok [] (arbitration con.device_id 0 con.election_id) ≡ true
      → All (IsEvent ser) events
      → let reports = reports_of events in
        let result =
          run env ser (plane_with con p4info config mac int x) (map (message_of mac) events) [] in
        (read_frames (length reports) (sent (frames reports)) ≡ reports)
        × IsPrefix (map (λ m. m.2) (published result.1)) reports
        × ((rounds : ℕ) (bytes : Bytes)
            → IsPrefix bytes (sent result.1)
            → IsPrefix (read_frames rounds bytes) (map (λ m. m.2) (published result.1)))
  run-reads x events asked h =
      let small = reports_small events h in
      let queued = run-queued x events asked h in
      (
        read_frames-frames (reports_of events) small,
        queued,
        λ rounds bytes arrived.
            read_frames-IsPrefix rounds bytes _ (All-IsPrefix _ _ _ queued small) (
              IsPrefix-trans bytes _ _ arrived
                (Through-IsPrefix x _ _ (run-copies x events asked h))),
      )
