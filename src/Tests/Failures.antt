-- ===== src/Tests/Failures.antt =====
-- Runs in which requests fail, at concrete inputs.
use scion_int_p.Prelude.{ℕ, Bytes, ◌≡◌, ◌⊎◌, refl, [], ◌∷◌, true, false, ltb, map, length, IsPrefix}
use scion_int_p.Outcome.{Outcome, throw, library_error}
use scion_int_p.Exec.{Trace, Env}
use scion_int_p.TcpClient.Framing.{sent, frames}
use scion_int_p.TcpClient.Partial.{Through}
use scion_int_p.ControlPlane.{ControlPlane, run}
use scion_int_p.ControlPlane.Reports.{published, acknowledged, kafka_message}
use scion_int_p.ControlPlane.Interleaving.{message_of}
use scion_int_p.ControlPlane.Failures.{plane_with, StopsAt}
use scion_int_p.ControlPlane.Failures.Run.{IsServed, run-serves, run-stops}
use scion_int_p.TcpClient.Reader.{read_frames}
use scion_int_p.ControlPlane.Failures.Received.{run-reads}
use scion_int_p.Tests.Data.{all_ok, switch_con, mac_ctrl, int_ctrl, info, plain}
use scion_int_p.Tests.Packets.{report}
use scion_int_p.Tests.Programs.{one, events, events-IsEvent}

-- Writes to the switch fail, and so does what goes to the TCP service behind the first request.
abbrev flaky : Env
flaky = record all_ok { write_ok = λ t m. false; tcp_write_ok = λ t m. ltb (length t) 3 }

-- Kafka takes nothing once a few requests have been made.
abbrev full : Env
full = record all_ok { produce_ok = λ t m. ltb (length t) 4 }

abbrev served : Outcome ControlPlane × Trace
served =
    run flaky plain (plane_with switch_con info [] mac_ctrl int_ctrl true)
      (map (message_of mac_ctrl) events) []

run-serves_example : IsServed switch_con info [] mac_ctrl int_ctrl served.0 served.1 events
run-serves_example =
    run-serves flaky plain switch_con info [] mac_ctrl int_ctrl true events refl events-IsEvent
      (λ t report. refl) (λ t. refl)

abbrev stopped : Outcome ControlPlane × Trace
stopped =
    run full plain (plane_with switch_con info [] mac_ctrl int_ctrl true)
      (map (message_of mac_ctrl) events) []

run-stops_example :
    IsPrefix (published stopped.1) (kafka_message int_ctrl one ∷ kafka_message int_ctrl one ∷ [])
    × IsPrefix (acknowledged stopped.1) ((385, 4) ∷ (385, 5) ∷ [])
    × Through true (sent stopped.1) (sent (frames (report ∷ report ∷ [])))
    × (IsServed switch_con info [] mac_ctrl int_ctrl stopped.0 stopped.1 events
        ⊎ ((stopped.0 ≡ throw library_error) × StopsAt full stopped.1))
run-stops_example =
    run-stops full plain switch_con info [] mac_ctrl int_ctrl true events refl events-IsEvent

run-reads_example :
    (read_frames 2 (sent (frames (report ∷ report ∷ []))) ≡ report ∷ report ∷ [])
    × IsPrefix (map (λ m. m.2) (published served.1)) (report ∷ report ∷ [])
    × ((rounds : ℕ) (bytes : Bytes)
        → IsPrefix bytes (sent served.1)
        → IsPrefix (read_frames rounds bytes) (map (λ m. m.2) (published served.1)))
run-reads_example =
    run-reads flaky plain switch_con info [] mac_ctrl int_ctrl true events refl events-IsEvent
