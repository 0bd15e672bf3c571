-- ===== src/ControlPlane/Stack.antt =====
-- What messages leave as it is, and what the controllers may ask for.
use mathlib.Core.List.{reverse, reverse-reverse}
use scion_int_p.Prelude.{
  ◌++◌, ◌≡◌, refl, ap, ap₂, ◌∙◌, subst, subst⁻¹, All, List, [], ◌∷◌, Bytes, Bool, true, false,
  Bool-cases, inl, inr, Option, none, some, map,
}
use scion_int_p.Prelude.Endian.{map-reverse}
use scion_int_p.Outcome.{Outcome, ok, throw, fault}
use scion_int_p.P4Runtime.{StreamResponse}
use scion_int_p.Report.{Serializer}
use scion_int_p.Exec.{Trace, Effect, Env, lift, produce, tcp_write, tcp_close}
use scion_int_p.Exec.Runs.{Holds, Run, Runs, Run-none, Runs-pure, Runs-bind}
use scion_int_p.KafkaProducer.{kafka_send}
use scion_int_p.TcpClient.{TcpClient, send}
use scion_int_p.TcpClient.Framing.{active, inactive, lost, send_cases, send-inactive}
use scion_int_p.Int.PacketIn.{
  IntController, Message, read_packet, topic_name, deliver, handle_packet_in,
}
use scion_int_p.ControlPlane.{
  Controller, default_controller, mac_learning, int_sink, Handler, dispatch, to_stack, ControlPlane,
  handle_message, read_loop,
}

-- The requests by which a report leaves the controller.
pub data IsReporting : Effect → Type 0 where
  publishes : (topic key report : Bytes) → IsReporting (produce topic key report)
  streams : (bytes : Bytes) → IsReporting (tcp_write bytes)
  closes : IsReporting tcp_close

abbrev pub Any {ℓ} : {A : Type ℓ} → A → Type 0
Any a = Unit {0}

pub Holds-Any {ℓ} : {A : Type ℓ} (o : Outcome A) → Holds Any o
Holds-Any (ok a) = tt
Holds-Any (throw e) = tt
Holds-Any (fault u) = tt

-- A controller without the state of its TCP connection.
abbrev pub constant_part : Controller → Controller
constant_part default_controller = default_controller
constant_part (mac_learning ctrl) = mac_learning ctrl
constant_part (int_sink ctrl) = int_sink (record ctrl { tcp_socket = inactive })

abbrev client_of : Bool → TcpClient
client_of b = record { is_active = b }

module _ (env : Env) where
  kafka_send-Runs :
      (topic key report : Bytes) → Runs Any IsReporting (kafka_send env topic key report)
  unfolding kafka_send
  kafka_send-Runs topic key report t = elim (Bool-cases (env.produce_ok t report)) [
    | inl queued ↦ rw queued (record {
      result = tt;
      requests = _;
      extends = refl;
      each = (publishes topic key report, tt);
    })
    | inr refused ↦ rw refused (record {
      result = tt;
      requests = _;
      extends = refl;
      each = (publishes topic key report, tt);
    })
  ]

  open_send-Runs : (report : Bytes) → Runs Any IsReporting (send env active report)
  open_send-Runs report t = elim (send_cases env report t) [
    | inl whole ↦ rw whole (record {
      result = tt;
      requests = _;
      extends = refl;
      each = (streams _, (streams report, tt));
    })
    | inr (inl unsized) ↦ rw unsized (closed_behind _ _ (streams _, (closes, tt)))
    | inr (inr cut) ↦ rw cut (closed_behind _ _ (streams _, (streams report, (closes, tt))))
  ]
    where
      closed_behind :
          (b : Bool) (u : Trace) → All IsReporting u → Run Any IsReporting t (lost b, t ++ u)
      closed_behind true u h = record { result = tt; requests = u; extends = refl; each = h }
      closed_behind false u h = record { result = tt; requests = u; extends = refl; each = h }

  closed_send-Runs : (report : Bytes) → Runs Any IsReporting (send env inactive report)
  closed_send-Runs report t =
      rw (send-inactive env report t) (Run-none Any IsReporting t (ok (inactive, false)) tt)

  send-Runs : (client : TcpClient) (report : Bytes) → Runs Any IsReporting (send env client report)
  send-Runs client report = elim (Bool-cases client.is_active) [
    | inl opened ↦
        subst⁻¹ (λ c. Runs Any IsReporting (send env c report)) (ap client_of opened)
          (open_send-Runs report)
    | inr closed ↦
        subst⁻¹ (λ c. Runs Any IsReporting (send env c report)) (ap client_of closed)
          (closed_send-Runs report)
  ]

  deliver-Runs :
      (ctrl : IntController) (message : Option Message)
      → Runs
          (λ r. constant_part (int_sink r.0) ≡ constant_part (int_sink ctrl))
          IsReporting
          (deliver env ctrl message)
  unfolding deliver
  deliver-Runs ctrl none = Runs-pure _ IsReporting (ctrl, false) refl
  deliver-Runs ctrl (some m) =
      Runs-bind Any _ IsReporting
        (kafka_send env (topic_name m.as_addr ctrl.node_id) m.key m.report) _
        (kafka_send-Runs _ m.key m.report)
        λ queued h.
          Runs-bind Any _ IsReporting (send env ctrl.tcp_socket m.report) _
            (send-Runs ctrl.tcp_socket m.report)
            λ sent h'. Runs-pure _ IsReporting (record ctrl { tcp_socket = sent.0 }, true) refl

  -- On any payload the INT sink makes no request but those by which a report leaves, and changes nothing
  -- of itself but the state of its TCP connection.
  pub handle_packet_in-Runs :
      (ser : Serializer) (ctrl : IntController) (payload : Bytes)
      → Runs
          (λ r. constant_part (int_sink r.0) ≡ constant_part (int_sink ctrl))
          IsReporting
          (handle_packet_in env ser ctrl payload)
  unfolding handle_packet_in
  handle_packet_in-Runs ser ctrl payload =
      Runs-bind Any _ IsReporting (lift (read_packet ser payload)) _
        (λ t.
          Run-none Any IsReporting t (read_packet ser payload)
            (Holds-Any (read_packet ser payload)))
        λ m h. deliver-Runs ctrl m

module _ (view : Controller → Controller) (handler : Handler) (Q : Effect → Type 0)
    (h : (c : Controller) → Runs (λ r. view r.0 ≡ view c) Q (handler c)) where
  dispatch-Runs :
      (ctrls : List Controller)
      → Runs (λ ctrls'. map view ctrls' ≡ map view ctrls) Q (dispatch handler ctrls)
  unfolding dispatch
  dispatch-Runs [] = Runs-pure _ Q [] refl
  dispatch-Runs (ctrl ∷ below) = Runs-bind _ _ Q (handler ctrl) _ (h ctrl) λ r same.
      elim (Bool-cases r.1) [
        | inl handled ↦ rw handled (Runs-pure _ Q (r.0 ∷ below) (ap (λ c. c ∷ map view below) same))
        | inr passed ↦ rw passed (
            Runs-bind _ _ Q (dispatch handler below) _ (dispatch-Runs below)
              λ below' e. Runs-pure _ Q (r.0 ∷ below') (ap₂ (λ c cs. c ∷ cs) same e))
      ]

  pub to_stack-Runs :
      (ctrls : List Controller)
      → Runs (λ ctrls'. map view ctrls' ≡ map view ctrls) Q (to_stack handler ctrls)
  unfolding to_stack
  to_stack-Runs ctrls =
      Runs-bind _ _ Q (dispatch handler (reverse ctrls)) _ (dispatch-Runs (reverse ctrls))
        λ ctrls' e. Runs-pure _ Q (reverse ctrls') (
          map-reverse view ctrls'
          ∙ ap reverse (e ∙ map-reverse view ctrls)
          ∙ reverse-reverse (map view ctrls))

abbrev pub SameControllers : List Controller → List Controller → Type 0
SameControllers ctrls ctrls' = map constant_part ctrls' ≡ map constant_part ctrls

abbrev pub SameStack : List Controller → ControlPlane → Type 0
SameStack ctrls plane = SameControllers ctrls plane.ctrls

module _ (env : Env) (ser : Serializer) (Q : Effect → Type 0) (Allowed : StreamResponse → Type 0)
    (base : ControlPlane)
    (step : (ctrls : List Controller) (message : StreamResponse)
      → Allowed message
      → Runs
          (SameControllers ctrls)
          Q
          (handle_message env ser (record base { ctrls = ctrls }) message)) where
  -- What each message keeps and asks, the loop keeps and asks.
  pub read_loop-Runs :
      (ctrls : List Controller) (messages : List StreamResponse)
      → All Allowed messages
      → Runs (SameStack ctrls) Q (read_loop env ser (record base { ctrls = ctrls }) messages)
  unfolding read_loop
  read_loop-Runs ctrls [] h = Runs-pure _ Q (record base { ctrls = ctrls }) refl
  read_loop-Runs ctrls (message ∷ messages) h =
      Runs-bind (SameControllers ctrls) _ Q
        (handle_message env ser (record base { ctrls = ctrls }) message) _ (step ctrls message h.0)
        λ ctrls' same t.
          subst
            (λ cs.
              Run (λ p. map constant_part p.ctrls ≡ cs) Q t
                (read_loop env ser (record base { ctrls = ctrls' }) messages t))
            same (read_loop-Runs ctrls' messages h.1 t)
