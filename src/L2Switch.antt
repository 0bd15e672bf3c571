-- ===== src/L2Switch.antt =====
-- l2_switch/controller/main.cpp: the stand-alone program that sets up flooding by the PI library.
pub mod Teardown
use mathlib.Core.Option
use scion_int_p.Prelude.{
  ℕ, Bytes, codes, Bool, true, false, List, [], ◌∷◌, ◌++◌, Option, if◌then◌else◌,
}

-- The calls of the library, with the arguments that the program passes. `wait_key` is `std::cin.get`.
pub data PiCall : Type 0 where
  pi_init : PiCall
  pi_add_config_from_file : Bytes → PiCall
  -- device and thrift port
  pi_assign_device : ℕ → Bytes → PiCall
  pi_mc_session_init : PiCall
  -- session, device, replication id and egress ports
  pi_mc_node_create : ℕ → ℕ → ℕ → List ℕ → PiCall
  -- session, device and group id
  pi_mc_grp_create : ℕ → ℕ → ℕ → PiCall
  -- session, device, group and node
  pi_mc_grp_attach_node : ℕ → ℕ → ℕ → ℕ → PiCall
  wait_key : PiCall
  pi_mc_grp_detach_node : ℕ → ℕ → ℕ → ℕ → PiCall
  pi_mc_grp_delete : ℕ → ℕ → ℕ → PiCall
  pi_mc_node_delete : ℕ → ℕ → ℕ → PiCall
  pi_mc_session_cleanup : ℕ → PiCall
  pi_remove_device : ℕ → PiCall
  pi_destroy_config : PiCall

-- The library, which is not part of the sources: whether a call succeeds and the handle that it writes,
-- if it writes one, which may depend on the calls before.
pub record Pi : Type 0 where
  pub succeeds : List PiCall → PiCall → Bool
  pub written : List PiCall → PiCall → Option ℕ

pub data ExitStatus : Type 0 where
  zero_exit minus_one : ExitStatus

abbrev pub Calls : Type 0
Calls = List PiCall

abbrev pub device_id : ℕ
device_id = 1

abbrev pub egress_ports : List ℕ
egress_ports = 0 ∷ 1 ∷ 2 ∷ []

module _ (pi : Pi) where
  -- A handle is `{}` before the call that writes it.
  unfoldable pub handle_of : Calls → PiCall → ℕ
  handle_of calls call = Option.get_or (pi.written calls call) 0

  unfoldable pub disconnect : Calls → ExitStatus × Calls
  disconnect calls =
      let removed = calls ++ (pi_remove_device device_id ∷ []) in
      if pi.succeeds calls (pi_remove_device device_id)
      then (zero_exit, removed ++ (pi_destroy_config ∷ []))
      else (minus_one, removed)

  -- From the key press on.
  unfoldable pub tear_down : ℕ → ℕ → ℕ → Calls → ExitStatus × Calls
  tear_down session node group calls = disconnect (
      calls
      ++ (wait_key
          ∷ pi_mc_grp_detach_node session device_id group node
          ∷ pi_mc_grp_delete session device_id 1
          ∷ pi_mc_node_delete session device_id node
          ∷ pi_mc_session_cleanup session
          ∷ []))

  -- The group with its node; a failure is only printed.
  unfoldable pub set_up_group : ℕ → Calls → ExitStatus × Calls
  set_up_group session calls =
      let create_node = pi_mc_node_create session device_id 1 egress_ports in
      let node = handle_of calls create_node in
      let calls' = calls ++ (create_node ∷ []) in
      let create_group = pi_mc_grp_create session device_id 1 in
      let group = handle_of calls' create_group in
      tear_down session node group
        (calls' ++ (create_group ∷ pi_mc_grp_attach_node session device_id group node ∷ []))

  unfoldable pub set_up : Calls → ExitStatus × Calls
  set_up calls =
      set_up_group (handle_of calls pi_mc_session_init) (calls ++ (pi_mc_session_init ∷ []))

  -- A call that the program gives up on when it fails.
  abbrev pub required : PiCall → (Calls → ExitStatus × Calls) → Calls → ExitStatus × Calls
  required call next calls =
      let calls' = calls ++ (call ∷ []) in
      if pi.succeeds calls call then next calls' else (minus_one, calls')

  unfoldable pub main : Calls → ExitStatus × Calls
  main = required pi_init (
      required (pi_add_config_from_file (codes "build/l2_switch.json"))
        (required (pi_assign_device device_id (codes "9090")) set_up))
