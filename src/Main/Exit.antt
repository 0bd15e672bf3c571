-- ===== src/Main/Exit.antt =====
-- How the programs end.
use scion_int_p.Prelude.{
  ◌≢◌, length, ℕ, ◌≡◌, refl, List, [], ◌∷◌, Bytes, codes, Bool, true, false, Option-cases, ◌⊎◌, inl,
  inr, Option, none, some, All, All-append,
}
use scion_int_p.Outcome.{Outcome, ok, throw, fault, Ends}
use scion_int_p.P4Runtime.{P4Info}
use scion_int_p.Exec.{Trace, lift}
use scion_int_p.Exec.Always.{Always, Always-bind}
use scion_int_p.Connection.{connect}
use scion_int_p.P4Util.{load_p4_info, load_device_config}
use scion_int_p.MacLearn.Defined.{mac_learning_ctrl_found}
use scion_int_p.MacLearn.{find_id, mac_learning_ctrl}
use scion_int_p.Int.Setup.{int_controller}
use scion_int_p.Int.Setup.Sound.{int_controller_unconnected}
use scion_int_p.ControlPlane.{
  default_controller, mac_learning, int_sink, ControlPlane, new_control_plane, add_controller,
}
use scion_int_p.ControlPlane.Defined.{IsUnconnected, IsSoundController, IsReadable}
use scion_int_p.ControlPlane.Defined.Run.{run-Always}
use scion_int_p.Main.{
  World, exit_code, control_plane, add_learning, add_int, run_int, run_l2, int_main, l2_main,
}

abbrev Any {ℓ} : {A : Type ℓ} → A → Type 0
Any a = Unit {0}

-- An exit with one of the codes of the programs.
abbrev pub IsExit : Outcome ℕ → Type 0
IsExit o = (o ≡ ok 0) ⊎ (o ≡ ok 1)

exit_code-Ends {ℓ} :
    {A : Type ℓ} (P : A → Type 0) (r : Outcome A × Trace) → Ends P r.0 → IsExit (exit_code r).0
unfolding exit_code
exit_code-Ends P (ok a, t) h = inl refl
exit_code-Ends P (throw e, t) h = inr refl
exit_code-Ends P (fault u, t) h = absurd h

-- A P4Info that describes the learning digest.
abbrev pub HasDigest : P4Info → Type 0
HasDigest p4info = (id : ℕ) × (find_id (codes "macLearnMsg_t") p4info.digests ≡ some id)

abbrev SoundStack : ControlPlane → Type 0
SoundStack plane = All IsSoundController plane.ctrls

abbrev SoundPlane : ControlPlane → Type 0
SoundPlane plane = HasDigest plane.p4info × All IsSoundController plane.ctrls

connect-Ends :
    (connected : Bool) (device election : ℕ) → Ends Any (connect connected device election)
unfolding connect
connect-Ends true device election = tt
connect-Ends false device election = tt

load_device_config-Ends : (file : Option Bytes) → Ends Any (load_device_config file)
unfolding load_device_config
load_device_config-Ends none = tt
load_device_config-Ends (some bytes) = tt

mac_learning_ctrl-Ends : (p4info : P4Info) → HasDigest p4info → Ends Any (mac_learning_ctrl p4info)
mac_learning_ctrl-Ends p4info (id, found) = mac_learning_ctrl_found p4info id found

module _ (world : World)
    (parsed : (text : Bytes) (p4info : P4Info)
      → world.parse_p4_info text ≡ some p4info
      → HasDigest p4info) where
  load_p4_info-Ends :
      (file : Option Bytes) → Ends HasDigest (load_p4_info world.parse_p4_info file 0).0
  unfolding load_p4_info
  load_p4_info-Ends none = tt
  load_p4_info-Ends (some text) = elim (Option-cases (world.parse_p4_info text)) [
    | inl garbled ↦ rw garbled tt
    | inr (p4info, found) ↦ rw found (parsed text p4info found)
  ]

  control_plane-Always :
      (p4info config address device election : Bytes)
      → Always SoundPlane (control_plane world p4info config address device election)
  unfolding control_plane new_control_plane connect load_device_config
  control_plane-Always p4info config address device election =
      Always-bind Any SoundPlane
        (lift (connect (world.connected address) (world.atoi device) (world.atoll election))) _
        (λ t. connect-Ends (world.connected address) (world.atoi device) (world.atoll election))
        λ con u.
          Always-bind HasDigest SoundPlane
            (lift (load_p4_info world.parse_p4_info (world.files p4info) 0).0) _
            (λ t. load_p4_info-Ends (world.files p4info))
            λ info digest.
              Always-bind Any SoundPlane (lift (load_device_config (world.files config))) _
                (λ t. load_device_config-Ends (world.files config)) λ bytes u' t. (digest, tt)

  add_learning-Always :
      (plane : ControlPlane) → SoundPlane plane → Always SoundPlane (add_learning world plane)
  unfolding add_learning add_controller
  add_learning-Always plane h =
      Always-bind Any SoundPlane (lift (mac_learning_ctrl plane.p4info)) _
        (λ t. mac_learning_ctrl-Ends plane.p4info h.0)
        λ mac u t. (
          h.0,
          All-append IsSoundController _ (mac_learning mac ∷ [])
              (All-append IsSoundController plane.ctrls (default_controller ∷ []) h.1 (tt, tt))
              (tt, tt),
        )

  add_int-Always :
      (host node table kafka : Bytes) (plane : ControlPlane)
      → SoundPlane plane
      → Always SoundPlane (add_int world host node table kafka [] plane)
  unfolding add_int add_controller
  add_int-Always host node table kafka plane h =
      Always-bind IsUnconnected SoundPlane
        (int_controller world.env world.make_address plane.p4info host (world.atoi node)
          (world.files table) kafka [])
        _
        (int_controller_unconnected world.env world.make_address plane.p4info host (world.atoi node)
          (world.files table) kafka)
        λ int sound t.
          (h.0, All-append IsSoundController plane.ctrls (int_sink int ∷ []) h.1 (sound, tt))

  module _ (readable : All IsReadable world.messages) where
    run_int-Always :
        (p4info config address device election host node table kafka : Bytes)
        → Always SoundStack
            (run_int world p4info config address device election host node table kafka [])
    unfolding run_int
    run_int-Always p4info config address device election host node table kafka =
        Always-bind SoundPlane SoundStack
          (control_plane world p4info config address device election) _
          (control_plane-Always p4info config address device election)
          λ plane h.
            Always-bind SoundPlane SoundStack (add_learning world plane) _
              (add_learning-Always plane h)
              λ plane' h'.
                Always-bind SoundPlane SoundStack (add_int world host node table kafka [] plane') _
                  (add_int-Always host node table kafka plane' h')
                  λ plane'' h''.
                    run-Always world.env world.serializer plane'' world.messages h''.1 readable

    run_l2-Always :
        (p4info config address device election : Bytes)
        → Always SoundStack (run_l2 world p4info config address device election)
    unfolding run_l2
    run_l2-Always p4info config address device election =
        Always-bind SoundPlane SoundStack
          (control_plane world p4info config address device election) _
          (control_plane-Always p4info config address device election)
          λ plane h.
            Always-bind SoundPlane SoundStack (add_learning world plane) _
              (add_learning-Always plane h)
              λ plane' h'. run-Always world.env world.serializer plane' world.messages h'.1 readable

    -- On any arguments but ten, so without an address for TCP, and on any files, messages and answers
    -- of its environment, the INT program exits with 0 or 1, if the numbers among the arguments are
    -- such that atoi and atoll give them, every P4Info that can be parsed has the learning digest and
    -- every packet either is no INT packet or has headers of at least 20 bytes, a hop length other
    -- than 0 and the hops that its shim length announces, in a payload below 2^32 bytes.
    pub int_main-IsExit :
        (args : List Bytes) (t : Trace) → length args ≢ 10 → IsExit (int_main world args t).0
    unfolding int_main
    int_main-IsExit [] t free = inl refl
    int_main-IsExit (a1 ∷ []) t free = inl refl
    int_main-IsExit (a1 ∷ a2 ∷ []) t free = inl refl
    int_main-IsExit (a1 ∷ a2 ∷ a3 ∷ []) t free = inl refl
    int_main-IsExit (a1 ∷ a2 ∷ a3 ∷ a4 ∷ []) t free = inl refl
    int_main-IsExit (a1 ∷ a2 ∷ a3 ∷ a4 ∷ a5 ∷ []) t free = inl refl
    int_main-IsExit (a1 ∷ a2 ∷ a3 ∷ a4 ∷ a5 ∷ a6 ∷ []) t free = inl refl
    int_main-IsExit (a1 ∷ a2 ∷ a3 ∷ a4 ∷ a5 ∷ a6 ∷ a7 ∷ []) t free = inl refl
    int_main-IsExit (a1 ∷ a2 ∷ a3 ∷ a4 ∷ a5 ∷ a6 ∷ a7 ∷ a8 ∷ []) t free = inl refl
    int_main-IsExit (a1 ∷ a2 ∷ a3 ∷ a4 ∷ a5 ∷ a6 ∷ a7 ∷ a8 ∷ a9 ∷ []) t free =
        exit_code-Ends SoundStack _ (run_int-Always a1 a2 a3 a4 a5 a6 a7 a8 a9 t)
    int_main-IsExit (a1 ∷ a2 ∷ a3 ∷ a4 ∷ a5 ∷ a6 ∷ a7 ∷ a8 ∷ a9 ∷ b ∷ []) t free =
        absurd (free refl)
    int_main-IsExit (a1 ∷ a2 ∷ a3 ∷ a4 ∷ a5 ∷ a6 ∷ a7 ∷ a8 ∷ a9 ∷ b ∷ c ∷ more) t free = inl refl

    -- So does the program without INT.
    pub l2_main-IsExit : (args : List Bytes) (t : Trace) → IsExit (l2_main world args t).0
    unfolding l2_main
    l2_main-IsExit [] t = inl refl
    l2_main-IsExit (a ∷ []) t = inl refl
    l2_main-IsExit (a ∷ b ∷ []) t = inl refl
    l2_main-IsExit (a ∷ b ∷ c ∷ []) t = inl refl
    l2_main-IsExit (a ∷ b ∷ c ∷ d ∷ []) t = inl refl
    l2_main-IsExit (a ∷ b ∷ c ∷ d ∷ e ∷ []) t =
        exit_code-Ends SoundStack _ (run_l2-Always a b c d e t)
    l2_main-IsExit (a ∷ b ∷ c ∷ d ∷ e ∷ f ∷ more) t = inl refl
