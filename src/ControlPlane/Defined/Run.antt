-- ===== src/ControlPlane/Defined/Run.antt =====
-- The stack, its messages and the whole run.
use mathlib.Core.List.{reverse}
use scion_int_p.Prelude.{ℕ, ◌==◌, List, [], ◌∷◌, Bytes, Bool, Bool-cases, inl, inr, All}
use scion_int_p.Prelude.Endian.{All-reverse}
use scion_int_p.P4Runtime.{
  DigestList, StreamResponse, arbitration_update, packet_in, digest_list, idle_timeout,
  stream_error, unset, arbitration,
}
use scion_int_p.Report.{Serializer}
use scion_int_p.Outcome.{Ends}
use scion_int_p.Exec.{Env, Trace, ◌>>◌, pure}
use scion_int_p.Exec.Always.{Always, Always-bind}
use scion_int_p.Connection.{SwitchConnection, send_master_arbitration_update, set_pipeline_config}
use scion_int_p.MacLearn.{handle_digest}
use scion_int_p.MacLearn.Defined.{handle_digest-Always, mac_handle_arbitration_update-Always}
use scion_int_p.Int.PacketIn.{handle_packet_in}
use scion_int_p.Int.Setup.Sound.{handle_arbitration_update-Always}
use scion_int_p.ControlPlane.{
  Controller, default_controller, mac_learning, int_sink, ControlPlane, Handler, pass, unhandled,
  dispatch, to_stack, on_packet, on_digest, on_notice, on_arbitration, arbitration_loop,
  handle_arbitration_update, handle_message, read_loop, run,
}
use scion_int_p.ControlPlane.Defined.{
  IsUnconnected, Any, IsSoundController, IsReadable, handle_packet_in-Always,
}

abbrev Kept : Controller × Bool → Type 0
Kept r = IsSoundController r.0

module _ (handler : Handler)
    (keeps : (c : Controller) → IsSoundController c → Always Kept (handler c)) where
  dispatch-Always :
      (ctrls : List Controller)
      → All IsSoundController ctrls
      → Always (All IsSoundController) (dispatch handler ctrls)
  unfolding dispatch
  dispatch-Always [] h = λ t. tt
  dispatch-Always (ctrl ∷ below) h = Always-bind Kept _ (handler ctrl) _ (keeps ctrl h.0) λ r kept.
      elim (Bool-cases r.1) [
        | inl handled ↦ rw handled (λ t. (kept, h.1))
        | inr passed ↦ rw passed (
            Always-bind (All IsSoundController) (All IsSoundController) (dispatch handler below)
              (λ below'. pure (r.0 ∷ below')) (dispatch-Always below h.1) λ below' h' t. (kept, h'))
      ]

  to_stack-Always :
      (ctrls : List Controller)
      → All IsSoundController ctrls
      → Always (All IsSoundController) (to_stack handler ctrls)
  unfolding to_stack
  to_stack-Always ctrls h =
      Always-bind (All IsSoundController) (All IsSoundController) (dispatch handler (reverse ctrls))
        (λ ctrls'. pure (reverse ctrls'))
        (dispatch-Always (reverse ctrls) (All-reverse IsSoundController ctrls h))
        λ ctrls' h' t. All-reverse IsSoundController ctrls' h'

module _ (env : Env) (ser : Serializer) where
  on_packet-Always :
      (con : SwitchConnection) (payload : Bytes)
      → IsReadable (packet_in payload)
      → (c : Controller) → IsSoundController c
      → Always Kept (on_packet env ser con payload c)
  unfolding on_packet pass unhandled
  on_packet-Always con payload readable default_controller h = λ t. tt
  on_packet-Always con payload readable (mac_learning ctrl) h = λ t. tt
  on_packet-Always con payload readable (int_sink ctrl) h =
      Always-bind (λ r. IsUnconnected r.0) Kept (handle_packet_in env ser ctrl payload)
        (λ r. pure (int_sink r.0, r.1)) (handle_packet_in-Always env ser ctrl payload readable h)
        λ r h' t. h'

  on_digest-Always :
      (con : SwitchConnection) (digests : DigestList) (c : Controller)
      → IsSoundController c
      → Always Kept (on_digest env ser con digests c)
  unfolding on_digest pass unhandled
  on_digest-Always con digests default_controller h = λ t. tt
  on_digest-Always con digests (mac_learning ctrl) h =
      Always-bind Any Kept (handle_digest env con ctrl digests)
        (λ handled. pure (mac_learning ctrl, handled)) (handle_digest-Always env con ctrl digests)
        λ handled u t. tt
  on_digest-Always con digests (int_sink ctrl) h = λ t. h

  on_notice-Always :
      (con : SwitchConnection) (c : Controller)
      → IsSoundController c
      → Always Kept (on_notice env ser con c)
  unfolding on_notice pass unhandled
  on_notice-Always con default_controller h = λ t. tt
  on_notice-Always con (mac_learning ctrl) h = λ t. tt
  on_notice-Always con (int_sink ctrl) h = λ t. h

  arbitration_loop-Always :
      (con : SwitchConnection) (status : ℕ) (ctrls : List Controller)
      → All IsSoundController ctrls
      → Always Any (arbitration_loop env ser con status ctrls)
  unfolding arbitration_loop on_arbitration
  arbitration_loop-Always con status [] h = λ t. tt
  arbitration_loop-Always con status (default_controller ∷ above) h =
      arbitration_loop-Always con status above h.1
  arbitration_loop-Always con status (mac_learning ctrl ∷ above) h =
      Always-bind Any Any _ (λ u. arbitration_loop env ser con status above)
        (mac_handle_arbitration_update-Always env con ctrl status)
        λ u v. arbitration_loop-Always con status above h.1
  arbitration_loop-Always con status (int_sink ctrl ∷ above) h =
      Always-bind Any Any _ (λ u. arbitration_loop env ser con status above)
        (handle_arbitration_update-Always env con ctrl status h.0.0)
        λ u v. arbitration_loop-Always con status above h.1

  pipeline-Always :
      (plane : ControlPlane) (status : ℕ)
      → Always Any (handle_arbitration_update env ser plane status)
  unfolding handle_arbitration_update set_pipeline_config
  pipeline-Always plane status t = elim (Bool-cases (status == 0)) [
    | inl elected ↦ rw elected tt
    | inr lost ↦ rw lost tt
  ]

  handle_message-Always :
      (plane : ControlPlane) (message : StreamResponse)
      → All IsSoundController plane.ctrls
      → IsReadable message
      → Always (All IsSoundController) (handle_message env ser plane message)
  handle_message-Always plane (arbitration_update status) h readable =
      unfold handle_message in
      Always-bind Any (All IsSoundController) (handle_arbitration_update env ser plane status)
        (λ u. arbitration_loop env ser plane.con status plane.ctrls >> pure plane.ctrls)
        (pipeline-Always plane status)
        λ u v.
          Always-bind Any (All IsSoundController)
            (arbitration_loop env ser plane.con status plane.ctrls) (λ u'. pure plane.ctrls)
            (arbitration_loop-Always plane.con status plane.ctrls h) λ u' v' t. h
  handle_message-Always plane (packet_in payload) h readable =
      unfold handle_message in
      to_stack-Always (on_packet env ser plane.con payload)
        (on_packet-Always plane.con payload readable) plane.ctrls h
  handle_message-Always plane (digest_list digests) h readable =
      unfold handle_message in
      to_stack-Always (on_digest env ser plane.con digests) (on_digest-Always plane.con digests)
        plane.ctrls h
  handle_message-Always plane idle_timeout h readable =
      unfold handle_message in
      to_stack-Always (on_notice env ser plane.con) (on_notice-Always plane.con) plane.ctrls h
  handle_message-Always plane stream_error h readable =
      unfold handle_message in
      to_stack-Always (on_notice env ser plane.con) (on_notice-Always plane.con) plane.ctrls h
  handle_message-Always plane unset h readable = unfold handle_message in λ t. h

  read_loop-Always :
      (plane : ControlPlane) (messages : List StreamResponse)
      → All IsSoundController plane.ctrls
      → All IsReadable messages
      → Always (λ p. All IsSoundController p.ctrls) (read_loop env ser plane messages)
  unfolding read_loop
  read_loop-Always plane [] h readable = λ t. h
  read_loop-Always plane (message ∷ messages) h readable =
      Always-bind (All IsSoundController) _ (handle_message env ser plane message) _
        (handle_message-Always plane message h readable.0)
        λ ctrls h'. read_loop-Always (record plane { ctrls = ctrls }) messages h' readable.1

  -- Over sound controllers without a TCP connection and readable packets a run of any stack on any
  -- messages returns or throws, whatever fails, and the controllers that it returns are sound and
  -- without a TCP connection.
  pub run-Always :
      (plane : ControlPlane) (messages : List StreamResponse)
      → All IsSoundController plane.ctrls
      → All IsReadable messages
      → (t : Trace) → Ends (λ p. All IsSoundController p.ctrls) (run env ser plane messages t).0
  unfolding run send_master_arbitration_update
  run-Always plane messages h readable t =
      let message = arbitration plane.con.device_id 0 plane.con.election_id in
      elim (Bool-cases (env.stream_write_ok t message)) [
        | inl sent ↦ rw sent (read_loop-Always plane messages h readable _)
        | inr refused ↦ rw refused h
      ]
