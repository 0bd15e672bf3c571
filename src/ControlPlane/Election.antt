-- ===== src/ControlPlane/Election.antt =====
-- What happens when the controller is elected, or is not.
use scion_int_p.Prelude.{
  ℕ, ◌≡◌, ◌≢◌, refl, ap, ◌∙◌, List, [], ◌∷◌, ◌++◌, Bytes, false, All, append_assoc, ne→==,
}
use scion_int_p.Outcome.{ok}
use scion_int_p.P4Runtime.{
  P4Info, StreamResponse, arbitration_update, arbitration, verify_and_commit,
}
use scion_int_p.Report.{Serializer}
use scion_int_p.Exec.{Effect, Trace, Env, stream_write, set_pipeline}
use scion_int_p.Connection.{SwitchConnection, send_master_arbitration_update, set_pipeline_config}
use scion_int_p.MacLearn.{MacLearningCtrl}
use scion_int_p.MacLearn.Installed.{
  mac_installed, mac_handle_arbitration_update-installed, mac_handle_arbitration_update_other,
}
use scion_int_p.Int.PacketIn.{IntController}
use scion_int_p.IntTable.Entries.{Row, IsRow}
use scion_int_p.Int.Setup.Installed.{
  with_rows, installed, handle_arbitration_update-installed, handle_arbitration_update_other,
}
use scion_int_p.ControlPlane.{
  Controller, default_controller, mac_learning, int_sink, ControlPlane, on_arbitration,
  arbitration_loop, handle_arbitration_update, handle_message, run,
}

-- The stack of the INT switch, as its `main` puts it together.
abbrev pub int_switch :
    SwitchConnection → P4Info → Bytes → MacLearningCtrl → IntController → ControlPlane
int_switch con p4info config mac int = record {
  con = con;
  p4info = p4info;
  device_config = config;
  ctrls = default_controller ∷ mac_learning mac ∷ int_sink int ∷ [];
}

abbrev pub pipeline_of : SwitchConnection → P4Info → Bytes → Effect
pipeline_of con p4info config = set_pipeline (record {
  device_id = con.device_id;
  election_high = 0;
  election_low = con.election_id;
  action = verify_and_commit;
  p4info = p4info;
  device_config = config;
})

module _ (env : Env) (ser : Serializer) where
  -- Elected, the control plane of an INT switch first sets the pipeline, then sends the requests of the
  -- learning switch and then those of the INT sink for the rows of its table, in this order and no
  -- others; that a request fails changes nothing of it.
  pub handle_message-elected :
      (con : SwitchConnection) (p4info : P4Info) (config : Bytes) (mac : MacLearningCtrl)
      (int : IntController) (rows : List Row) (t : Trace)
      → All IsRow rows
      → handle_message env ser
          (int_switch con p4info config mac (with_rows int rows))
          (arbitration_update 0)
          t
        ≡ (
          ok (int_switch con p4info config mac (with_rows int rows)).ctrls,
          t ++ (pipeline_of con p4info config ∷ (mac_installed con mac ++ installed con int rows)),
        )
  unfolding handle_message handle_arbitration_update set_pipeline_config arbitration_loop
      on_arbitration
  handle_message-elected con p4info config mac int rows t h =
      let t' = t ++ (pipeline_of con p4info config ∷ []) in
      rw
        (
          mac_handle_arbitration_update-installed env con mac t',
          handle_arbitration_update-installed env con int rows (t' ++ mac_installed con mac) h,
        )
        (ap (λ u. (ok (int_switch con p4info config mac (with_rows int rows)).ctrls, u))
          (append_assoc t' (mac_installed con mac) (installed con int rows)
            ∙ append_assoc t (pipeline_of con p4info config ∷ [])
                (mac_installed con mac ++ installed con int rows)))

  on_arbitration_other :
      (con : SwitchConnection) (status : ℕ) (ctrl : Controller) (t : Trace)
      → status ≢ 0
      → on_arbitration env ser con status ctrl t ≡ (ok tt, t)
  unfolding on_arbitration
  on_arbitration_other con status default_controller t h = refl
  on_arbitration_other con status (mac_learning ctrl) t h =
      mac_handle_arbitration_update_other env con ctrl status t h
  on_arbitration_other con status (int_sink ctrl) t h =
      handle_arbitration_update_other env con ctrl status t h

  arbitration_loop_other :
      (con : SwitchConnection) (status : ℕ) (ctrls : List Controller) (t : Trace)
      → status ≢ 0
      → arbitration_loop env ser con status ctrls t ≡ (ok tt, t)
  unfolding arbitration_loop
  arbitration_loop_other con status [] t h = refl
  arbitration_loop_other con status (ctrl ∷ above) t h =
      rw (on_arbitration_other con status ctrl t h) (arbitration_loop_other con status above t h)

  -- A control plane with any stack that is not elected does nothing.
  pub handle_message_not_elected :
      (plane : ControlPlane) (status : ℕ) (t : Trace)
      → status ≢ 0
      → handle_message env ser plane (arbitration_update status) t ≡ (ok plane.ctrls, t)
  unfolding handle_message handle_arbitration_update
  handle_message_not_elected plane status t h =
      rw (ne→== _ _ h, arbitration_loop_other plane.con status plane.ctrls t h)

  -- A control plane whose request for mastership cannot be written reads no message.
  pub run_refused :
      (plane : ControlPlane) (messages : List StreamResponse) (t : Trace)
      → env.stream_write_ok t (arbitration plane.con.device_id 0 plane.con.election_id) ≡ false
      → run env ser plane messages t ≡ (
        ok plane,
        t ++ (stream_write (arbitration plane.con.device_id 0 plane.con.election_id) ∷ []),
      )
  unfolding run send_master_arbitration_update
  run_refused plane messages t h = rw h
