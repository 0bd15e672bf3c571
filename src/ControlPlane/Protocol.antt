-- ===== src/ControlPlane/Protocol.antt =====
-- The TCP connection while the INT sink handles a packet.
pub mod Whole
use mathlib.Core.List.{reverse}
use scion_int_p.Prelude.{
  subst⁻¹, if◌then◌else◌, ◌≡◌, refl, sym, ap, subst, List, [], ◌∷◌, Bytes, Bool, true, false,
  Bool-cases, inl, inr, Option, none, some,
}
use scion_int_p.Outcome.{Outcome, ok, throw, fault}
use scion_int_p.P4Runtime.{
  P4Info, StreamResponse, arbitration_update, packet_in, digest_list, idle_timeout, stream_error,
  unset, arbitration,
}
use scion_int_p.Report.{Serializer}
use scion_int_p.Exec.{
  Exec, Effect, Trace, Env, lift, pure, ◌>>=◌, produce, stream_write, set_pipeline, write,
  tcp_connect, tcp_write, tcp_close,
}
use scion_int_p.Exec.Runs.{Runs, Runs-request, Runs-weaken}
use scion_int_p.Connection.{SwitchConnection, send_master_arbitration_update}
use scion_int_p.KafkaProducer.{kafka_send}
use scion_int_p.TcpClient.{TcpClient, send}
use scion_int_p.TcpClient.Session.{
  IsAside, Follows, Follows-none, Follows-aside, Follows-bind, IsState, send-Follows,
}
use scion_int_p.MacLearn.{MacLearningCtrl}
use scion_int_p.Int.PacketIn.{
  IntController, Message, read_packet, topic_name, deliver, handle_packet_in,
}
use scion_int_p.ControlPlane.{
  Controller, default_controller, mac_learning, int_sink, ControlPlane, pass, unhandled, dispatch,
  to_stack, on_packet, on_notice, handle_message, read_loop, run,
}
use scion_int_p.ControlPlane.Election.{int_switch}
use scion_int_p.ControlPlane.Stack.{Any}
use scion_int_p.ControlPlane.Authority.{IsOwn, own_write, own_pipeline}
use scion_int_p.ControlPlane.Authority.Run.{elected-Runs, digest-Runs}

pub IsOwn-IsAside : (con : SwitchConnection) (e : Effect) → IsOwn con e → IsAside e
IsOwn-IsAside con (write _) (own_write m h) = tt
IsOwn-IsAside con (set_pipeline _) (own_pipeline r d h l) = tt
IsOwn-IsAside con (stream_write _) own = tt
IsOwn-IsAside con (produce _ _ _) own = tt
IsOwn-IsAside con (tcp_connect _ _) own = elim own [ ]
IsOwn-IsAside con (tcp_write _) own = elim own [ ]
IsOwn-IsAside con tcp_close own = elim own [ ]

abbrev pub Free {ℓ} : {A : Type ℓ} → TcpClient → A → TcpClient → Type 0
Free client a last = last ≡ client

abbrev pub Sunk : IntController × Bool → TcpClient → Type 0
Sunk r last = r.0.tcp_socket ≡ last

module _ (env : Env) where
  kafka_send-Follows :
      (topic key report : Bytes) (client : TcpClient) (t : Trace)
      → Follows (Free client) client t (kafka_send env topic key report t)
  unfolding kafka_send
  kafka_send-Follows topic key report client t = elim (Bool-cases (env.produce_ok t report)) [
    | inl queued ↦ rw queued (
        Follows-aside (Free client) Any client t _ (λ a u. refl)
          (record { result = tt; requests = _; extends = refl; each = (tt, tt) }))
    | inr refused ↦ rw refused (
        Follows-aside (Free client) Any client t _ (λ a u. refl)
          (record { result = tt; requests = _; extends = refl; each = (tt, tt) }))
  ]

  deliver-Follows :
      (ctrl : IntController) (message : Option Message) (t : Trace)
      → Follows Sunk ctrl.tcp_socket t (deliver env ctrl message t)
  unfolding deliver
  deliver-Follows ctrl none t = Follows-none Sunk ctrl.tcp_socket t (ok (ctrl, false)) refl
  deliver-Follows ctrl (some m) t =
      Follows-bind (Free ctrl.tcp_socket) Sunk
        (kafka_send env (topic_name m.as_addr ctrl.node_id) m.key m.report) _ ctrl.tcp_socket t
        (kafka_send-Follows _ m.key m.report ctrl.tcp_socket t)
        λ queued client u same.
          Follows-bind IsState Sunk (send env ctrl.tcp_socket m.report) _ client u
            (subst (λ c. Follows IsState c u (send env ctrl.tcp_socket m.report u)) (sym same)
              (send-Follows env m.report u ctrl.tcp_socket))
            λ sent last v state.
              Follows-none Sunk last v (ok (record ctrl { tcp_socket = sent.0 }, true)) state

  pub handle_packet_in-Follows :
      (ser : Serializer) (ctrl : IntController) (payload : Bytes) (t : Trace)
      → Follows Sunk ctrl.tcp_socket t (handle_packet_in env ser ctrl payload t)
  unfolding handle_packet_in
  handle_packet_in-Follows ser ctrl payload t = by_outcome (read_packet ser payload)
    where
      by_outcome :
          (o : Outcome (Option Message))
          → Follows Sunk ctrl.tcp_socket t ((lift o >>= λ m. deliver env ctrl m) t)
      by_outcome (ok m) = deliver-Follows ctrl m t
      by_outcome (throw e) = Follows-none Sunk ctrl.tcp_socket t (throw e) tt
      by_outcome (fault u) = Follows-none Sunk ctrl.tcp_socket t (fault u) tt
