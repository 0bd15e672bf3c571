-- ===== src/ControlPlane/Protocol/Whole.antt =====
-- The TCP connection over a whole run of an INT switch.
use mathlib.Core.List.{reverse}
use scion_int_p.Prelude.{
  subst⁻¹, if◌then◌else◌, ◌≡◌, refl, ap, subst, List, [], ◌∷◌, Bytes, Bool, true, false, Bool-cases,
  inl, inr,
}
use scion_int_p.Outcome.{ok}
use scion_int_p.P4Runtime.{
  P4Info, StreamResponse, arbitration_update, packet_in, digest_list, idle_timeout, stream_error,
  unset, arbitration,
}
use scion_int_p.Report.{Serializer}
use scion_int_p.Exec.{Exec, Trace, Env, pure, stream_write}
use scion_int_p.Exec.Runs.{Runs, Runs-request, Runs-weaken}
use scion_int_p.Connection.{SwitchConnection, send_master_arbitration_update}
use scion_int_p.TcpClient.{TcpClient}
use scion_int_p.TcpClient.Session.{IsAside, Follows, Follows-none, Follows-aside, Follows-bind}
use scion_int_p.MacLearn.{MacLearningCtrl}
use scion_int_p.Int.PacketIn.{IntController, handle_packet_in}
use scion_int_p.ControlPlane.{
  Controller, default_controller, mac_learning, int_sink, ControlPlane, pass, unhandled, dispatch,
  to_stack, on_packet, on_notice, handle_message, read_loop, run,
}
use scion_int_p.ControlPlane.Election.{int_switch}
use scion_int_p.ControlPlane.Stack.{Any}
use scion_int_p.ControlPlane.Authority.{IsOwn}
use scion_int_p.ControlPlane.Authority.Run.{elected-Runs, digest-Runs}
use scion_int_p.ControlPlane.Protocol.{IsOwn-IsAside, Free, Sunk, handle_packet_in-Follows}

module _ (env : Env) (ser : Serializer) (con : SwitchConnection) (p4info : P4Info) (config : Bytes)
    (mac : MacLearningCtrl) where
  -- A stack of the switch, with a sink whose client is in the state of the connection.
  abbrev IsStack : List Controller → TcpClient → Type 0
  IsStack ctrls last =
      (int : IntController) × (ctrls ≡ (int_switch con p4info config mac int).ctrls)
      × (int.tcp_socket ≡ last)

  abbrev IsReversed : List Controller → TcpClient → Type 0
  IsReversed ctrls last =
      (int : IntController) × (ctrls ≡ int_sink int ∷ mac_learning mac ∷ default_controller ∷ [])
      × (int.tcp_socket ≡ last)

  abbrev IsSink : Controller × Bool → TcpClient → Type 0
  IsSink r last = (int : IntController) × (r.0 ≡ int_sink int) × (int.tcp_socket ≡ last)

  abbrev pub IsSwitch : ControlPlane → TcpClient → Type 0
  IsSwitch plane last =
      (int : IntController) × (plane ≡ int_switch con p4info config mac int)
      × (int.tcp_socket ≡ last)

  on_packet-Follows :
      (int : IntController) (payload : Bytes) (t : Trace)
      → Follows IsSink int.tcp_socket t (on_packet env ser con payload (int_sink int) t)
  unfolding on_packet
  on_packet-Follows int payload t =
      Follows-bind Sunk IsSink (handle_packet_in env ser int payload) _ int.tcp_socket t
        (handle_packet_in-Follows env ser int payload t)
        λ r last u h. Follows-none IsSink last u (ok (int_sink r.0, r.1)) (r.0, refl, h)

  abbrev others : List Controller
  others = mac_learning mac ∷ default_controller ∷ []

  -- Below the sink the default controller takes the packet and keeps its state.
  dispatch-Follows :
      (int : IntController) (payload : Bytes) (t : Trace)
      → Follows IsReversed int.tcp_socket t
          (dispatch (on_packet env ser con payload) (int_sink int ∷ others) t)
  unfolding dispatch pass unhandled
  dispatch-Follows int payload t =
      Follows-bind IsSink IsReversed (on_packet env ser con payload (int_sink int)) _ int.tcp_socket
        t (on_packet-Follows int payload t)
        λ r last u (int', e, h).
          let done =
            Follows-none IsReversed last u (ok (r.0 ∷ others)) (int', ap (λ c. c ∷ others) e, h) in
          elim (Bool-cases r.1) [
            | inl handled ↦ rw handled done
            | inr passed ↦ rw passed (unfold on_packet in done)
          ]

  packet-Follows :
      (int : IntController) (payload : Bytes) (t : Trace)
      → Follows IsStack int.tcp_socket t
          (handle_message env ser (int_switch con p4info config mac int) (packet_in payload) t)
  unfolding handle_message to_stack
  packet-Follows int payload t =
      Follows-bind IsReversed IsStack
        (dispatch (on_packet env ser con payload) (int_sink int ∷ others))
        (λ ctrls. pure (reverse ctrls)) int.tcp_socket t (dispatch-Follows int payload t)
        λ ctrls last u (int', e, h).
          Follows-none IsStack last u (ok (reverse ctrls)) (int', ap reverse e, h)

  kept-Follows :
      (int : IntController) (m : Exec (List Controller)) (t : Trace)
      → Runs (λ ctrls. ctrls ≡ (int_switch con p4info config mac int).ctrls) (IsOwn con) m
      → Follows IsStack int.tcp_socket t (m t)
  kept-Follows int m t h =
      Follows-aside IsStack (λ ctrls. ctrls ≡ (int_switch con p4info config mac int).ctrls)
        int.tcp_socket t (m t) (λ ctrls e. (int, e, refl))
        (Runs-weaken (IsOwn con) IsAside (IsOwn-IsAside con) _ m h t)

  handle_message-Follows :
      (int : IntController) (message : StreamResponse) (t : Trace)
      → Follows IsStack int.tcp_socket t
          (handle_message env ser (int_switch con p4info config mac int) message t)
  handle_message-Follows int (packet_in payload) t = packet-Follows int payload t
  handle_message-Follows int (arbitration_update status) t =
      kept-Follows int _ t (elected-Runs env ser (int_switch con p4info config mac int) status)
  handle_message-Follows int (digest_list digests) t =
      kept-Follows int _ t (digest-Runs env ser (int_switch con p4info config mac int) digests)
  handle_message-Follows int idle_timeout t =
      unfold handle_message to_stack dispatch on_notice pass unhandled in
      Follows-none IsStack int.tcp_socket t (ok _) (int, refl, refl)
  handle_message-Follows int stream_error t =
      unfold handle_message to_stack dispatch on_notice pass unhandled in
      Follows-none IsStack int.tcp_socket t (ok _) (int, refl, refl)
  handle_message-Follows int unset t =
      unfold handle_message in Follows-none IsStack int.tcp_socket t (ok _) (int, refl, refl)

  read_loop-Follows :
      (messages : List StreamResponse) (int : IntController) (t : Trace)
      → Follows IsSwitch int.tcp_socket t
          (read_loop env ser (int_switch con p4info config mac int) messages t)
  unfolding read_loop
  read_loop-Follows [] int t = Follows-none IsSwitch int.tcp_socket t (ok _) (int, refl, refl)
  read_loop-Follows (message ∷ messages) int t =
      Follows-bind IsStack IsSwitch
        (handle_message env ser (int_switch con p4info config mac int) message) _ int.tcp_socket t
        (handle_message-Follows int message t)
        λ ctrls last u (int', e, h).
          subst⁻¹
            (λ cs. Follows IsSwitch last u (
              read_loop env ser (record (int_switch con p4info config mac int) { ctrls = cs })
                messages u))
            e
            (subst
              (λ c.
                Follows IsSwitch c u
                  (read_loop env ser (int_switch con p4info config mac int') messages u))
              h (read_loop-Follows messages int' u))

  -- On any messages and whatever fails, the requests of a run of an INT switch follow the protocol of the
  -- TCP connection from the state that the sink's client is in: it is written to and closed only while it
  -- is open, and closing it is final. If the run returns, its stack is as before but for the client, which
  -- is in the last state of the connection.
  pub run-Follows :
      (messages : List StreamResponse) (int : IntController) (t : Trace)
      → Follows IsSwitch int.tcp_socket t
          (run env ser (int_switch con p4info config mac int) messages t)
  unfolding run send_master_arbitration_update
  run-Follows messages int t =
      let message = arbitration con.device_id 0 con.election_id in
      Follows-bind (Free int.tcp_socket) IsSwitch (send_master_arbitration_update env con) _
        int.tcp_socket t
        (Follows-aside (Free int.tcp_socket) Any int.tcp_socket t _ (λ a u. refl)
          (Runs-request Any IsAside (stream_write message) (λ u. env.stream_write_ok u message)
            (λ a. tt) tt t))
        λ sent client u same.
          subst⁻¹
            (λ c. Follows IsSwitch c u (
              (if sent
                  then read_loop env ser (int_switch con p4info config mac int) messages
                  else pure (int_switch con p4info config mac int))
                u))
            same (after sent u)
    where
      after :
          (sent : Bool) (u : Trace)
          → Follows IsSwitch int.tcp_socket u (
              (if sent
                  then read_loop env ser (int_switch con p4info config mac int) messages
                  else pure (int_switch con p4info config mac int))
                u)
      after true u = read_loop-Follows messages int u
      after false u = Follows-none IsSwitch int.tcp_socket u (ok _) (int, refl, refl)
