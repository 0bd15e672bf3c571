-- ===== src/ControlPlane/Authority/Run.antt =====
-- The messages of the stream and the whole run.
use mathlib.Core.List.{map-id}
use scion_int_p.Prelude.{
  ℕ, if◌then◌else◌, refl, List, [], ◌∷◌, Bool, true, false, Bool-cases, inl, inr, All, ◌==◌, ◌≡◌,
  ap, sym, ◌∙◌, map,
}
use scion_int_p.P4Runtime.{
  DigestList, StreamResponse, arbitration_update, packet_in, digest_list, idle_timeout,
  stream_error, unset, arbitration,
}
use scion_int_p.Report.{Serializer}
use scion_int_p.Exec.{Exec, Trace, Env, pure, stream_write}
use scion_int_p.Exec.Runs.{Run, Runs, Runs-pure, Runs-bind, Runs-request, Runs-weaken, Runs-imply}
use scion_int_p.Connection.{SwitchConnection, send_master_arbitration_update, set_pipeline_config}
use scion_int_p.MacLearn.{handle_digest}
use scion_int_p.ControlPlane.{
  Controller, default_controller, mac_learning, int_sink, ControlPlane, pass, unhandled, on_digest,
  on_arbitration, arbitration_loop, handle_arbitration_update, handle_message, read_loop, run,
}
use scion_int_p.ControlPlane.Stack.{
  Any, IsReporting, constant_part, SameControllers, SameStack, to_stack-Runs, read_loop-Runs,
}
use scion_int_p.ControlPlane.Invariants.{
  IsQuiet, packet, timeout, error, nothing, handle_message_quiet,
}
use scion_int_p.ControlPlane.Authority.{
  IsOwn, IsAllowed, own_pipeline, own_election, Runs-then, done, handle_digest-Runs,
  mac_handle_arbitration_update-Runs, int_handle_arbitration_update-Runs,
}

module _ (env : Env) (ser : Serializer) (con : SwitchConnection) where
  own : {A : Type 0} (P : A → Type 0) (m : Exec A) → Runs P (IsOwn con) m → Runs P (IsAllowed con) m
  own P m h = Runs-weaken (IsOwn con) (IsAllowed con) (λ e h. inl h) P m h

  reporting :
      {A : Type 0} (P : A → Type 0) (m : Exec A) → Runs P IsReporting m → Runs P (IsAllowed con) m
  reporting P m h = Runs-weaken IsReporting (IsAllowed con) (λ e h. inr h) P m h

  on_digest-Runs :
      (digests : DigestList) (c : Controller)
      → Runs (λ r. r.0 ≡ c) (IsOwn con) (on_digest env ser con digests c)
  unfolding on_digest pass unhandled
  on_digest-Runs digests default_controller =
      Runs-pure _ (IsOwn con) (default_controller, true) refl
  on_digest-Runs digests (mac_learning ctrl) =
      Runs-bind Any (λ r. r.0 ≡ mac_learning ctrl) (IsOwn con) (handle_digest env con ctrl digests)
        _ (handle_digest-Runs con env ctrl digests)
        λ handled u. Runs-pure _ (IsOwn con) (mac_learning ctrl, handled) refl
  on_digest-Runs digests (int_sink ctrl) = Runs-pure _ (IsOwn con) (int_sink ctrl, false) refl

  arbitration_loop-Runs :
      (status : ℕ) (ctrls : List Controller)
      → Runs Any (IsOwn con) (arbitration_loop env ser con status ctrls)
  unfolding arbitration_loop on_arbitration
  arbitration_loop-Runs status [] = done con tt
  arbitration_loop-Runs status (default_controller ∷ above) = arbitration_loop-Runs status above
  arbitration_loop-Runs status (mac_learning ctrl ∷ above) =
      Runs-then con _ (arbitration_loop env ser con status above)
        (mac_handle_arbitration_update-Runs con env ctrl status)
        (arbitration_loop-Runs status above)
  arbitration_loop-Runs status (int_sink ctrl ∷ above) =
      Runs-then con _ (arbitration_loop env ser con status above)
        (int_handle_arbitration_update-Runs con env ctrl status)
        (arbitration_loop-Runs status above)

module _ (env : Env) (ser : Serializer) where
  pipeline-Runs :
      (plane : ControlPlane) (status : ℕ)
      → Runs Any (IsOwn plane.con) (handle_arbitration_update env ser plane status)
  unfolding handle_arbitration_update set_pipeline_config
  pipeline-Runs plane status = elim (Bool-cases (status == 0)) [
    | inl elected ↦
        rw elected
          (Runs-request Any (IsOwn plane.con) _ (λ t. tt) (λ a. tt) (own_pipeline _ refl refl refl))
    | inr lost ↦ rw lost (done plane.con tt)
  ]

  pub elected-Runs :
      (plane : ControlPlane) (status : ℕ)
      → Runs
          (λ ctrls. ctrls ≡ plane.ctrls)
          (IsOwn plane.con)
          (handle_message env ser plane (arbitration_update status))
  unfolding handle_message
  elected-Runs plane status =
      Runs-bind Any _ (IsOwn plane.con) (handle_arbitration_update env ser plane status) _
        (pipeline-Runs plane status)
        λ u v.
          Runs-bind Any _ (IsOwn plane.con) (arbitration_loop env ser plane.con status plane.ctrls)
            _ (arbitration_loop-Runs env ser plane.con status plane.ctrls)
            λ u' v'. Runs-pure (λ ctrls. ctrls ≡ plane.ctrls) (IsOwn plane.con) plane.ctrls refl

  pub digest-Runs :
      (plane : ControlPlane) (digests : DigestList)
      → Runs
          (λ ctrls. ctrls ≡ plane.ctrls)
          (IsOwn plane.con)
          (handle_message env ser plane (digest_list digests))
  unfolding handle_message
  digest-Runs plane digests =
      Runs-imply (λ ctrls. map (λ c. c) ctrls ≡ map (λ c. c) plane.ctrls) _ (IsOwn plane.con)
        (λ ctrls same. sym (map-id ctrls) ∙ same ∙ map-id plane.ctrls) _
        (to_stack-Runs (λ c. c) (on_digest env ser plane.con digests) (IsOwn plane.con)
          (on_digest-Runs env ser plane.con digests) plane.ctrls)

  quiet-Runs :
      (plane : ControlPlane) (message : StreamResponse)
      → IsQuiet message
      → Runs
          (SameControllers plane.ctrls)
          (IsAllowed plane.con)
          (handle_message env ser plane message)
  quiet-Runs plane message quiet =
      reporting env ser plane.con (SameControllers plane.ctrls) _
        (handle_message_quiet env ser plane message quiet)

  same_controllers :
      (plane : ControlPlane) (m : Exec (List Controller))
      → Runs (λ ctrls. ctrls ≡ plane.ctrls) (IsOwn plane.con) m
      → Runs (SameControllers plane.ctrls) (IsAllowed plane.con) m
  same_controllers plane m h = own env ser plane.con (SameControllers plane.ctrls) m (
      Runs-imply (λ ctrls. ctrls ≡ plane.ctrls) (SameControllers plane.ctrls) (IsOwn plane.con)
        (λ ctrls same. ap (map constant_part) same) m h)

  handle_message-Runs :
      (plane : ControlPlane) (message : StreamResponse)
      → Runs
          (SameControllers plane.ctrls)
          (IsAllowed plane.con)
          (handle_message env ser plane message)
  handle_message-Runs plane (arbitration_update status) =
      same_controllers plane _ (elected-Runs plane status)
  handle_message-Runs plane (digest_list digests) =
      same_controllers plane _ (digest-Runs plane digests)
  handle_message-Runs plane (packet_in payload) = quiet-Runs plane _ (packet payload)
  handle_message-Runs plane idle_timeout = quiet-Runs plane _ timeout
  handle_message-Runs plane stream_error = quiet-Runs plane _ error
  handle_message-Runs plane unset = quiet-Runs plane _ nothing

  All-Any : (messages : List StreamResponse) → All Any messages
  All-Any [] = tt
  All-Any (message ∷ messages) = (tt, All-Any messages)

  -- From any stack and on any messages, won elections and digests included, each request of a run either
  -- sends a report away or is the connection's own: writes and pipelines go to its device under its
  -- election id, and writes only insert. If the run returns, the controllers are as before but for the state of their TCP connections.
  pub run-IsAllowed :
      (plane : ControlPlane) (messages : List StreamResponse) (t : Trace)
      → Run (SameStack plane.ctrls) (IsAllowed plane.con) t (run env ser plane messages t)
  unfolding run send_master_arbitration_update
  run-IsAllowed plane messages =
      let message = arbitration plane.con.device_id 0 plane.con.election_id in
      Runs-bind Any (SameStack plane.ctrls) (IsAllowed plane.con)
        (send_master_arbitration_update env plane.con) _
        (Runs-request Any (IsAllowed plane.con) (stream_write message)
          (λ t. env.stream_write_ok t message) (λ a. tt) (inl own_election))
        λ sent u. after sent
    where
      after :
          (sent : Bool)
          → Runs
              (SameStack plane.ctrls)
              (IsAllowed plane.con)
              (if sent then read_loop env ser plane messages else pure plane)
      after true =
          read_loop-Runs env ser (IsAllowed plane.con) Any plane
            (λ ctrls m h. handle_message-Runs (record plane { ctrls = ctrls }) m) plane.ctrls
            messages (All-Any messages)
      after false = Runs-pure _ (IsAllowed plane.con) plane refl
