-- ===== src/ControlPlane/Invariants.antt =====
-- Invariants of the loop over the messages of the stream.
use scion_int_p.Prelude.{
  ℕ, ◌≡◌, ◌≢◌, refl, append_assoc, ◌∙◌, List, [], ◌∷◌, ◌++◌, Bytes, Bool, true, false, Bool-cases,
  inl, inr, All, map,
}
use scion_int_p.Outcome.{ok}
use scion_int_p.P4Runtime.{
  StreamResponse, arbitration_update, packet_in, digest_list, idle_timeout, stream_error, unset,
  arbitration,
}
use scion_int_p.Report.{Serializer}
use scion_int_p.Exec.{Trace, Env, stream_write}
use scion_int_p.Exec.Runs.{Holds, Runs, Run-none, Runs-pure, Runs-bind}
use scion_int_p.Int.PacketIn.{handle_packet_in}
use scion_int_p.Connection.{SwitchConnection, send_master_arbitration_update}
use scion_int_p.ControlPlane.{
  Controller, default_controller, mac_learning, int_sink, ControlPlane, pass, unhandled, on_packet,
  on_notice, handle_message, read_loop, run,
}
use scion_int_p.ControlPlane.Election.{handle_message_not_elected}
use scion_int_p.ControlPlane.Stack.{
  IsReporting, constant_part, SameControllers, SameStack, handle_packet_in-Runs, to_stack-Runs,
  read_loop-Runs,
}

abbrev pub Same : Controller → Controller × Bool → Type 0
Same ctrl r = constant_part r.0 ≡ constant_part ctrl

-- A message that asks for no change of the switch: anything but a won election and a digest.
pub data IsQuiet : StreamResponse → Type 0 where
  lost_election : (status : ℕ) → status ≢ 0 → IsQuiet (arbitration_update status)
  packet : (payload : Bytes) → IsQuiet (packet_in payload)
  timeout : IsQuiet idle_timeout
  error : IsQuiet stream_error
  nothing : IsQuiet unset

module _ (env : Env) (ser : Serializer) where
  pub on_packet-Runs :
      (con : SwitchConnection) (payload : Bytes) (c : Controller)
      → Runs (Same c) IsReporting (on_packet env ser con payload c)
  unfolding on_packet pass unhandled
  on_packet-Runs con payload default_controller =
      Runs-pure _ IsReporting (default_controller, true) refl
  on_packet-Runs con payload (mac_learning ctrl) =
      Runs-pure _ IsReporting (mac_learning ctrl, false) refl
  on_packet-Runs con payload (int_sink ctrl) =
      Runs-bind _ (Same (int_sink ctrl)) IsReporting (handle_packet_in env ser ctrl payload) _
        (handle_packet_in-Runs env ser ctrl payload)
        λ r same. Runs-pure _ IsReporting (int_sink r.0, r.1) same

  pub on_notice-Runs :
      (con : SwitchConnection) (c : Controller)
      → Runs (Same c) IsReporting (on_notice env ser con c)
  unfolding on_notice pass unhandled
  on_notice-Runs con default_controller = Runs-pure _ IsReporting (default_controller, true) refl
  on_notice-Runs con (mac_learning ctrl) = Runs-pure _ IsReporting (mac_learning ctrl, false) refl
  on_notice-Runs con (int_sink ctrl) = Runs-pure _ IsReporting (int_sink ctrl, false) refl

  pub handle_message_quiet :
      (plane : ControlPlane) (message : StreamResponse)
      → IsQuiet message
      → Runs (SameControllers plane.ctrls) IsReporting (handle_message env ser plane message)
  handle_message_quiet plane (arbitration_update _) (lost_election status h) = λ t.
      rw (handle_message_not_elected env ser plane status t h)
        (Run-none _ IsReporting t (ok plane.ctrls) refl)
  handle_message_quiet plane (packet_in _) (packet payload) =
      unfold handle_message in
      to_stack-Runs constant_part (on_packet env ser plane.con payload) IsReporting
        (on_packet-Runs plane.con payload) plane.ctrls
  handle_message_quiet plane (digest_list _) h = elim h [ ]
  handle_message_quiet plane idle_timeout timeout =
      unfold handle_message in
      to_stack-Runs constant_part (on_notice env ser plane.con) IsReporting
        (on_notice-Runs plane.con) plane.ctrls
  handle_message_quiet plane stream_error error =
      unfold handle_message in
      to_stack-Runs constant_part (on_notice env ser plane.con) IsReporting
        (on_notice-Runs plane.con) plane.ctrls
  handle_message_quiet plane unset nothing =
      unfold handle_message in Runs-pure _ IsReporting plane.ctrls refl

  read_loop_quiet :
      (plane : ControlPlane) (messages : List StreamResponse)
      → All IsQuiet messages
      → Runs (SameStack plane.ctrls) IsReporting (read_loop env ser plane messages)
  read_loop_quiet plane =
      read_loop-Runs env ser IsReporting IsQuiet plane
        (λ ctrls message h. handle_message_quiet (record plane { ctrls = ctrls }) message h)
        plane.ctrls

  -- While neither a won election nor a digest arrives, a run of any stack asks for mastership and makes
  -- no other request than those by which reports leave, so it writes nothing to the switch; if it returns,
  -- the controllers are as before but for the state of their TCP connections.
  pub run_quiet :
      (plane : ControlPlane) (messages : List StreamResponse) (t : Trace)
      → All IsQuiet messages
      → Holds
          (λ p. map constant_part p.ctrls ≡ map constant_part plane.ctrls)
          (run env ser plane messages t).0
        × ((requests : Trace) × ((run env ser plane messages t).1
              ≡ t
                ++ (stream_write (arbitration plane.con.device_id 0 plane.con.election_id)
                    ∷ requests))
            × All IsReporting requests)
  unfolding run send_master_arbitration_update
  run_quiet plane messages t h =
      let message = arbitration plane.con.device_id 0 plane.con.election_id in
      let t' = t ++ (stream_write message ∷ []) in
      let loop = read_loop_quiet plane messages h t' in
      elim (Bool-cases (env.stream_write_ok t message)) [
        | inl sent ↦ rw sent (
          loop.result,
          (
            loop.requests,
            loop.extends ∙ append_assoc t (stream_write message ∷ []) loop.requests,
            loop.each,
          ),
        )
        | inr refused ↦ rw refused (refl, ([], refl, tt))
      ]
