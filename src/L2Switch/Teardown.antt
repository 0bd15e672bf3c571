-- ===== src/L2Switch/Teardown.antt =====
-- What the program leaves behind, whatever the library answers.
use scion_int_p.Prelude.{
  Option-cases, some, none, true, false, ℕ, ◌≡◌, refl, Bool-cases, [], ◌∷◌, ◌++◌, ◌⊎◌, inl, inr,
  codes,
}
use scion_int_p.L2Switch.{
  PiCall, pi_init, pi_add_config_from_file, pi_assign_device, pi_mc_session_init, pi_mc_node_create,
  pi_mc_grp_create, pi_mc_grp_attach_node, wait_key, pi_mc_grp_detach_node, pi_mc_grp_delete,
  pi_mc_node_delete, pi_mc_session_cleanup, pi_remove_device, pi_destroy_config, Pi, Calls,
  ExitStatus, zero_exit, minus_one, egress_ports, handle_of, disconnect, tear_down, set_up_group,
  set_up, main,
}

abbrev pub load_config : PiCall
load_config = pi_add_config_from_file (codes "build/l2_switch.json")

abbrev pub attach_device : PiCall
attach_device = pi_assign_device 1 (codes "9090")

-- The calls from the session on: each release mirrors, in the reverse order, the call that it undoes,
-- with its handle.
abbrev pub session_calls : ℕ → ℕ → ℕ → Calls
session_calls session node group =
    pi_mc_session_init
    ∷ pi_mc_node_create session 1 1 egress_ports
    ∷ pi_mc_grp_create session 1 1
    ∷ pi_mc_grp_attach_node session 1 group node
    ∷ wait_key
    ∷ pi_mc_grp_detach_node session 1 group node
    ∷ pi_mc_grp_delete session 1 1
    ∷ pi_mc_node_delete session 1 node
    ∷ pi_mc_session_cleanup session
    ∷ []

abbrev pub attached : Calls
attached = pi_init ∷ load_config ∷ attach_device ∷ []

module _ (pi : Pi) where
  -- The library has written the handle, or it is still 0.
  abbrev pub IsHandle : Calls → PiCall → ℕ → Type 0
  IsHandle calls call handle =
      (pi.written calls call ≡ some handle) ⊎ ((pi.written calls call ≡ none) × (handle ≡ 0))

  -- The calls so far have succeeded, the next one has failed, and the program has given up.
  abbrev pub GivesUp : Calls → PiCall → ExitStatus × Calls → Type 0
  GivesUp calls call run =
      (pi.succeeds calls call ≡ false) × (run ≡ (minus_one, calls ++ (call ∷ [])))

  abbrev pub IsAttached : Type 0
  IsAttached =
      (pi.succeeds [] pi_init ≡ true)
      × (pi.succeeds (pi_init ∷ []) load_config ≡ true)
      × (pi.succeeds (pi_init ∷ load_config ∷ []) attach_device ≡ true)

  abbrev pub HasHandles : ℕ → ℕ → ℕ → Type 0
  HasHandles session node group =
      let create_node = pi_mc_node_create session 1 1 egress_ports in
      IsHandle attached pi_mc_session_init session
      × IsHandle (attached ++ (pi_mc_session_init ∷ [])) create_node node
      × IsHandle (attached ++ (pi_mc_session_init ∷ create_node ∷ []))
          (pi_mc_grp_create session 1 1) group

  -- The ways to end once the device is attached, by whether it can be removed.
  abbrev pub EndsWith : ℕ → ℕ → ℕ → ExitStatus × Calls → Type 0
  EndsWith session node group run =
      let calls = attached ++ session_calls session node group in
      GivesUp calls (pi_remove_device 1) run
      ⊎ ((pi.succeeds calls (pi_remove_device 1) ≡ true)
          × (run ≡ (zero_exit, calls ++ (pi_remove_device 1 ∷ pi_destroy_config ∷ []))))

  handle_of-IsHandle :
      (calls : Calls) (call : PiCall) → IsHandle calls call (handle_of pi calls call)
  unfolding handle_of
  handle_of-IsHandle calls call = elim (Option-cases (pi.written calls call)) [
    | inl unwritten ↦ rw unwritten (inr (refl, refl))
    | inr (handle, written) ↦ rw written (inl refl)
  ]

  remove_cases :
      (session node group : ℕ)
      → EndsWith session node group (disconnect pi (attached ++ session_calls session node group))
  unfolding disconnect
  remove_cases session node group =
      let calls = attached ++ session_calls session node group in
      elim (Bool-cases (pi.succeeds calls (pi_remove_device 1))) [
        | inl removed ↦ rw removed (inr (refl, refl))
        | inr stays ↦ rw stays (inl (refl, refl))
      ]

  attached_ends :
      (session : ℕ) × (node : ℕ) × (group : ℕ) × (HasHandles session node group)
      × (EndsWith session node group (set_up pi attached))
  unfolding set_up set_up_group tear_down
  attached_ends = (
    handle_of pi attached pi_mc_session_init,
    handle_of pi _ _,
    handle_of pi _ _,
    (handle_of-IsHandle _ _, handle_of-IsHandle _ _, handle_of-IsHandle _ _),
    remove_cases (handle_of pi attached pi_mc_session_init) (handle_of pi _ _) (handle_of pi _ _),
  )

  -- Whatever the library answers, the program ends. It gives up with -1 behind the first call that
  -- fails of the initialisation, the configuration and the device. Otherwise it makes the calls of
  -- the session, those of the release with the handles that the library has written in the set-up,
  -- or 0 for one that it has not written; then it exits with 0 behind the release of the
  -- configuration if the device can be removed, and with -1 without that release if it cannot.
  pub main-ends :
      GivesUp [] pi_init (main pi [])
      ⊎ ((pi.succeeds [] pi_init ≡ true) × GivesUp (pi_init ∷ []) load_config (main pi []))
      ⊎ ((pi.succeeds [] pi_init ≡ true)
          × (pi.succeeds (pi_init ∷ []) load_config ≡ true)
          × GivesUp (pi_init ∷ load_config ∷ []) attach_device (main pi []))
      ⊎ (IsAttached
          × ((session : ℕ) × (node : ℕ) × (group : ℕ) × (HasHandles session node group)
              × (EndsWith session node group (main pi []))))
  unfolding main
  main-ends = elim (Bool-cases (pi.succeeds [] pi_init)) [
    | inr no_init ↦ rw no_init (inl (refl, refl))
    | inl init ↦ elim (Bool-cases (pi.succeeds (pi_init ∷ []) load_config)) [
      | inr no_config ↦ rw (init, no_config) (inr (inl (refl, (refl, refl))))
      | inl config ↦ elim (Bool-cases (pi.succeeds (pi_init ∷ load_config ∷ []) attach_device)) [
        | inr no_device ↦ rw (init, config, no_device) (inr (inr (inl (refl, refl, (refl, refl)))))
        | inl device ↦
            rw (init, config, device) (inr (inr (inr ((refl, refl, refl), attached_ends))))
      ]
    ]
  ]
