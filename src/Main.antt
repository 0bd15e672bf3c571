-- ===== src/Main.antt =====
-- int_switch/controller/main.cpp and l2_switch_grpc/controller/main.cpp: the two programs.
pub mod Startup
pub mod Exit
pub mod Operation
pub mod Delivered
use scion_int_p.Prelude.{ℕ, Bytes, Bool, true, false, List, [], ◌∷◌, Option, none, some}
use scion_int_p.Outcome.{Outcome, ok, throw, fault, Exception, Fault}
use scion_int_p.P4Runtime.{P4Info, StreamResponse}
use scion_int_p.Report.{Serializer}
use scion_int_p.Exec.{Env, Exec, Trace, ◌>>=◌, ◌>>◌, pure, lift}
use scion_int_p.Connection.{SwitchConnection, connect}
use scion_int_p.P4Util.{load_p4_info, load_device_config}
use scion_int_p.MacLearn.{mac_learning_ctrl}
use scion_int_p.Int.Setup.{int_controller}
use scion_int_p.ControlPlane.{
  ControlPlane, new_control_plane, default_controller, mac_learning, int_sink, add_controller, run,
}

-- What the programs find in the world: files, the switch and its messages, and the libraries' parsers.
pub record World : Type 0 where
  pub env : Env
  pub serializer : Serializer
  pub files : Bytes → Option Bytes
  pub parse_p4_info : Bytes → Option P4Info
  pub make_address : Bytes → Option Bytes
  pub atoi : Bytes → ℕ
  pub atoll : Bytes → ℕ
  pub connected : Bytes → Bool
  pub messages : List StreamResponse

-- The exit code; undefined behaviour has none.
unfoldable pub exit_code {ℓ} : {A : Type ℓ} → Outcome A × Trace → Outcome ℕ × Trace
exit_code (ok a, t) = (ok 0, t)
exit_code (throw e, t) = (ok 1, t)
exit_code (fault u, t) = (fault u, t)

module _ (world : World) where
  unfoldable pub control_plane : Bytes → Bytes → Bytes → Bytes → Bytes → Exec ControlPlane
  control_plane p4info_file config_file address device election = do
    con ← lift (connect (world.connected address) (world.atoi device) (world.atoll election))
    p4info ← lift (load_p4_info world.parse_p4_info (world.files p4info_file) 0).0
    config ← lift (load_device_config (world.files config_file))
    pure (new_control_plane con p4info config 0)

  unfoldable pub add_learning : ControlPlane → Exec ControlPlane
  add_learning plane = do
    mac ← lift (mac_learning_ctrl plane.p4info)
    pure (add_controller (mac_learning mac) (add_controller default_controller plane))

  unfoldable pub add_int : Bytes → Bytes → Bytes → Bytes → Bytes → ControlPlane → Exec ControlPlane
  add_int host node table kafka tcp plane = do
    int ←
        int_controller world.env world.make_address plane.p4info host (world.atoi node)
          (world.files table) kafka tcp
    pure (add_controller (int_sink int) plane)

  unfoldable pub run_int :
      Bytes
      → Bytes
      → Bytes
      → Bytes
      → Bytes
      → Bytes
      → Bytes
      → Bytes
      → Bytes
      → Bytes
      → Exec ControlPlane
  run_int p4info config address device election host node table kafka tcp = do
    plane ← control_plane p4info config address device election
    plane' ← add_learning plane
    plane'' ← add_int host node table kafka tcp plane'
    run world.env world.serializer plane'' world.messages

  unfoldable pub run_l2 : Bytes → Bytes → Bytes → Bytes → Bytes → Exec ControlPlane
  run_l2 p4info config address device election = do
    plane ← control_plane p4info config address device election
    plane' ← add_learning plane
    run world.env world.serializer plane' world.messages

  -- `argv` behind the name of the program; a wrong number of arguments prints the usage.
  unfoldable pub int_main : List Bytes → Trace → Outcome ℕ × Trace
  int_main (p4info ∷ config ∷ address ∷ device ∷ election ∷ host ∷ node ∷ table ∷ kafka ∷ []) t =
      exit_code (run_int p4info config address device election host node table kafka [] t)
  int_main (p4info ∷ config ∷ address ∷ device ∷ election ∷ host ∷ node ∷ table ∷ kafka ∷ tcp ∷ [])
        t =
      exit_code (run_int p4info config address device election host node table kafka tcp t)
  int_main _ t = (ok 0, t)

  unfoldable pub l2_main : List Bytes → Trace → Outcome ℕ × Trace
  l2_main (p4info ∷ config ∷ address ∷ device ∷ election ∷ []) t =
      exit_code (run_l2 p4info config address device election t)
  l2_main _ t = (ok 0, t)
