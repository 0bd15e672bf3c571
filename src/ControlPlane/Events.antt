-- ===== src/ControlPlane/Events.antt =====
-- How the controllers of an INT switch share the messages.
use scion_int_p.Prelude.{ℕ, ◌≡◌, ◌≢◌, List, [], ◌∷◌, ◌++◌, Bytes, All, map}
use scion_int_p.Outcome.{ok, throw, runtime_error}
use scion_int_p.P4Runtime.{
  P4Info, DigestData, struct, StreamResponse, packet_in, digest_list, digest_ack,
}
use scion_int_p.Report.{Serializer}
use scion_int_p.Exec.{Trace, Env, stream_write, write}
use scion_int_p.Connection.{SwitchConnection, create_write_request}
use scion_int_p.MacLearn.{MacLearningCtrl}
use scion_int_p.MacLearn.Digest.{
  digest_of, IsLearnable, updates_for, handle_digest-updates, handle_digest_invalid,
}
use scion_int_p.Int.PacketIn.{IntController}
use scion_int_p.Int.PacketIn.Handler.{IsForeign, handle_packet_in_foreign}
use scion_int_p.ControlPlane.{
  pass, unhandled, dispatch, to_stack, on_packet, on_digest, handle_message, read_loop,
}
use scion_int_p.ControlPlane.Election.{int_switch}

module _ (env : Env) (ser : Serializer) (con : SwitchConnection) (p4info : P4Info) (config : Bytes)
    (mac : MacLearningCtrl) (int : IntController) where
  -- On an INT switch a digest list of the learning digest, with MAC addresses and ports in range, passes
  -- by the INT sink at the top and is answered by the learning switch: one write request with the
  -- updates for its entries, then the acknowledgement. The stack stays as it is.
  pub handle_message-digest :
      (seen : List (ℕ × ℕ)) (list_id : ℕ) (t : Trace)
      → All IsLearnable seen
      → handle_message env ser
          (int_switch con p4info config mac int)
          (digest_list (record {
            digest_id = mac.mac_learn_digest_id;
            list_id = list_id;
            entries = map digest_of seen;
          }))
          t
        ≡ (
          ok (int_switch con p4info config mac int).ctrls,
          t
              ++ (write (record (create_write_request con) { updates = updates_for seen })
                  ∷ stream_write (digest_ack mac.mac_learn_digest_id list_id)
                  ∷ []),
        )
  unfolding handle_message to_stack dispatch on_digest pass
  handle_message-digest seen list_id t h = rw (handle_digest-updates env con mac seen list_id t h)

  -- On an INT switch a packet that is no INT packet changes nothing and makes no request.
  pub handle_message_foreign :
      (payload : Bytes) (t : Trace)
      → IsForeign payload
      → handle_message env ser (int_switch con p4info config mac int) (packet_in payload) t
        ≡ (ok (int_switch con p4info config mac int).ctrls, t)
  unfolding handle_message to_stack dispatch on_packet pass unhandled
  handle_message_foreign payload t h = rw (handle_packet_in_foreign env ser int payload t h)

  -- One entry of another form in a digest list of the learning digest ends the loop of an INT switch
  -- with an exception: no later message is read.
  pub read_loop_invalid_digest :
      (seen : List (ℕ × ℕ)) (bad : DigestData) (rest : List DigestData) (list_id : ℕ)
      (messages : List StreamResponse) (t : Trace)
      → All IsLearnable seen
      → ((mac port : Bytes) → bad ≢ struct (mac ∷ port ∷ []))
      → read_loop env ser
          (int_switch con p4info config mac int)
          (digest_list (record {
            digest_id = mac.mac_learn_digest_id;
            list_id = list_id;
            entries = map digest_of seen ++ (bad ∷ rest);
          })
            ∷ messages)
          t
        ≡ (throw (runtime_error "Invalid digest format"), t)
  unfolding read_loop handle_message to_stack dispatch on_digest pass
  read_loop_invalid_digest seen bad rest list_id messages t h wrong =
      rw (handle_digest_invalid env con mac seen bad rest list_id t h wrong)
