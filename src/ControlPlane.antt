-- ===== src/ControlPlane.antt =====
-- control_plane/controller.h, control_plane/control_plane.h, control_plane/control_plane.cpp and
-- control_plane/controllers/default.cpp: the stack of controllers and the loop that feeds it.
pub mod Election
pub mod Stack
pub mod Events
pub mod Invariants
pub mod Defined
pub mod Authority
pub mod Learning
pub mod Reports
pub mod Interleaving
pub mod Delivered
pub mod Failures
pub mod Reelection
pub mod Protocol
use mathlib.Core.List.{reverse}
use scion_int_p.Prelude.{ℕ, Bytes, Bool, true, false, List, [], ◌∷◌, ◌++◌, ◌==◌, if◌then◌else◌}
use scion_int_p.P4Runtime.{
  P4Info, DigestList, StreamResponse, arbitration_update, packet_in, digest_list, idle_timeout,
  stream_error, unset,
}
use scion_int_p.Report.{Serializer}
use scion_int_p.Exec.{Env, Exec, ◌>>=◌, ◌>>◌, pure}
use scion_int_p.Connection.{SwitchConnection, send_master_arbitration_update, set_pipeline_config}
use scion_int_p.MacLearn
use scion_int_p.MacLearn.{MacLearningCtrl, handle_digest}
use scion_int_p.Int.PacketIn.{IntController, handle_packet_in}
use scion_int_p.Int.Setup

-- The classes that implement `Controller`.
pub data Controller : Type 0 where
  default_controller : Controller
  mac_learning : MacLearningCtrl → Controller
  int_sink : IntController → Controller

pub record ControlPlane : Type 0 where
  pub con : SwitchConnection
  pub p4info : P4Info
  pub device_config : Bytes
  -- from the bottom of the stack to its top
  pub ctrls : List Controller

-- The constructor; `n_ctrls` is only the room that is reserved.
unfoldable pub new_control_plane : SwitchConnection → P4Info → Bytes → ℕ → ControlPlane
new_control_plane con p4info device_config n_ctrls = record {
  con = con;
  p4info = p4info;
  device_config = device_config;
  ctrls = [];
}

unfoldable pub add_controller : Controller → ControlPlane → ControlPlane
add_controller ctrl plane = record plane { ctrls = plane.ctrls ++ (ctrl ∷ []) }

abbrev pub Handler : Type 0
Handler = Controller → Exec (Controller × Bool)

-- A handler that is not overridden, and those of `DefaultController`.
unfoldable pub pass : Handler
pass ctrl = pure (ctrl, false)

unfoldable pub unhandled : Handler
unhandled ctrl = pure (ctrl, true)

-- `for (const auto &ctrl : reverse(ctrls)) if (ctrl->handle…(…)) break;`, top of the stack first.
unfoldable pub dispatch : Handler → List Controller → Exec (List Controller)
dispatch handler [] = pure []
dispatch handler (ctrl ∷ below) =
    let others = dispatch handler below in
    do
      (ctrl', handled) ← handler ctrl
      if handled then pure (ctrl' ∷ below) else (do below' ← others; pure (ctrl' ∷ below'))

unfoldable pub to_stack : Handler → List Controller → Exec (List Controller)
to_stack handler ctrls = do ctrls' ← dispatch handler (reverse ctrls); pure (reverse ctrls')

module _ (env : Env) (ser : Serializer) (con : SwitchConnection) where
  unfoldable pub on_packet : Bytes → Handler
  on_packet payload default_controller = unhandled default_controller
  on_packet payload (mac_learning ctrl) = pass (mac_learning ctrl)
  on_packet payload (int_sink ctrl) = do
    (ctrl', handled) ← handle_packet_in env ser ctrl payload
    pure (int_sink ctrl', handled)

  unfoldable pub on_digest : DigestList → Handler
  on_digest digests default_controller = unhandled default_controller
  on_digest digests (mac_learning ctrl) = do
    handled ← handle_digest env con ctrl digests
    pure (mac_learning ctrl, handled)
  on_digest digests (int_sink ctrl) = pass (int_sink ctrl)

  -- `handleIdleTimeout` and `handleError`
  unfoldable pub on_notice : Handler
  on_notice default_controller = unhandled default_controller
  on_notice (mac_learning ctrl) = pass (mac_learning ctrl)
  on_notice (int_sink ctrl) = pass (int_sink ctrl)

  unfoldable pub on_arbitration : ℕ → Controller → Exec (Unit {0})
  on_arbitration status default_controller = pure tt
  on_arbitration status (mac_learning ctrl) = MacLearn.handle_arbitration_update env con ctrl status
  on_arbitration status (int_sink ctrl) = Setup.handle_arbitration_update env con ctrl status

  -- Bottom of the stack first, and every controller.
  unfoldable pub arbitration_loop : ℕ → List Controller → Exec (Unit {0})
  arbitration_loop status [] = pure tt
  arbitration_loop status (ctrl ∷ above) = do
    on_arbitration status ctrl
    arbitration_loop status above

module _ (env : Env) (ser : Serializer) where
  -- `ControlPlane::handleArbitrationUpdate`; a pipeline that is refused is only reported.
  unfoldable pub handle_arbitration_update : ControlPlane → ℕ → Exec (Unit {0})
  handle_arbitration_update plane status =
      let elected : Exec (Unit {0}) = (do
        set_pipeline_config env plane.con plane.p4info plane.device_config
        pure tt) in
      if status == 0 then elected else pure tt

  -- The stack after one message.
  unfoldable pub handle_message : ControlPlane → StreamResponse → Exec (List Controller)
  handle_message plane (arbitration_update status) = do
    handle_arbitration_update plane status
    arbitration_loop env ser plane.con status plane.ctrls
    pure plane.ctrls
  handle_message plane (packet_in payload) =
      to_stack (on_packet env ser plane.con payload) plane.ctrls
  handle_message plane (digest_list digests) =
      to_stack (on_digest env ser plane.con digests) plane.ctrls
  handle_message plane idle_timeout = to_stack (on_notice env ser plane.con) plane.ctrls
  handle_message plane stream_error = to_stack (on_notice env ser plane.con) plane.ctrls
  handle_message plane unset = pure plane.ctrls

  -- `while (con->readStream(msg))`, over what the stream delivers until the switch closes it.
  unfoldable pub read_loop : ControlPlane → List StreamResponse → Exec ControlPlane
  read_loop plane [] = pure plane
  read_loop plane (message ∷ messages) = do
    ctrls ← handle_message plane message
    read_loop (record plane { ctrls = ctrls }) messages

  unfoldable pub run : ControlPlane → List StreamResponse → Exec ControlPlane
  run plane messages = do
    sent ← send_master_arbitration_update env plane.con
    if sent then read_loop plane messages else pure plane
