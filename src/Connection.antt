-- ===== src/Connection.antt =====
-- control_plane/connection.h and connection.cpp: write requests, and the connection to a switch.
use scion_int_p.Prelude.{ℕ, Bytes, Bool, [], ◌∷◌, ◌++◌, if◌then◌else◌}
use scion_int_p.Outcome.{Outcome, ok, throw, runtime_error}
use scion_int_p.P4Runtime.{
  Entity, UpdateType, WriteMessage, continue_on_error, arbitration, digest_ack, P4Info,
  PipelineRequest, verify_and_commit,
}
use scion_int_p.Exec.{Env, Exec, request, stream_write, set_pipeline, write}

-- The members of `SwitchConnection` that stay constant; the channel is the trace.
pub record SwitchConnection : Type 0 where
  pub device_id : ℕ
  pub election_id : ℕ

-- The constructor. `connected` is the answer of `WaitForConnected` within ten seconds.
unfoldable pub connect : Bool → ℕ → ℕ → Outcome SwitchConnection
connect connected device_id election_id =
    if connected
    then ok (record { device_id = device_id; election_id = election_id })
    else throw (runtime_error "Not connected")

unfoldable pub create_write_request : SwitchConnection → WriteMessage
create_write_request con = record {
  device_id = con.device_id;
  election_high = 0;
  election_low = con.election_id;
  atomicity = continue_on_error;
  updates = [];
}

unfoldable pub add_update : UpdateType → Entity → WriteMessage → WriteMessage
add_update kind entity r = record r {
  updates = r.updates ++ (record { kind = kind; entity = entity } ∷ []);
}

module _ (env : Env) where
  unfoldable pub send_master_arbitration_update : SwitchConnection → Exec Bool
  send_master_arbitration_update con =
      let message = arbitration con.device_id 0 con.election_id in
      request (stream_write message) (λ t. env.stream_write_ok t message)

  unfoldable pub set_pipeline_config : SwitchConnection → P4Info → Bytes → Exec Bool
  set_pipeline_config con p4info device_config =
      let message : PipelineRequest = record {
        device_id = con.device_id;
        election_high = 0;
        election_low = con.election_id;
        action = verify_and_commit;
        p4info = p4info;
        device_config = device_config;
      } in
      request (set_pipeline message) (λ t. env.set_pipeline_ok t message)

  unfoldable pub send_write_request : WriteMessage → Exec Bool
  send_write_request message = request (write message) (λ t. env.write_ok t message)

  unfoldable pub ack_digest_list : ℕ → ℕ → Exec Bool
  ack_digest_list digest_id list_id =
      let message = digest_ack digest_id list_id in
      request (stream_write message) (λ t. env.stream_write_ok t message)
