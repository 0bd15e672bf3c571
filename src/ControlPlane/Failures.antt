-- ===== src/ControlPlane/Failures.antt =====
-- A run of an INT switch in which requests fail: TCP writes, writes to the switch, Kafka messages.
pub mod Loop
pub mod Received
pub mod Run
use scion_int_p.Prelude.{
  ℕ, ◌≡◌, ◌≢◌, ◌⊎◌, inl, inr, refl, sym, ap, ap₂, ◌∙◌, subst⁻¹, List, [], ◌∷◌, ◌++◌, Bytes, Bool,
  true, false, All, map, length, IsPrefix, IsPrefix-refl, IsPrefix-left, append_assoc, append-nil,
  Bool-cases,
}
use scion_int_p.Prelude.Words.{u32}
use scion_int_p.Prelude.Endian.{le_digits}
use scion_int_p.Outcome.{Outcome, ok, throw, library_error}
use scion_int_p.P4Runtime.{P4Info, packet_in, arbitration, digest_ack}
use scion_int_p.Report.{Serializer}
use scion_int_p.Exec.{
  Effect, Trace, Env, stream_write, produce, write, tcp_write, tcp_close, tcp_connect, set_pipeline,
}
use scion_int_p.Connection.{SwitchConnection, create_write_request, send_master_arbitration_update}
use scion_int_p.TcpClient.{TcpClient, send}
use scion_int_p.TcpClient.Framing.{frame, frames, sent, sent-append, active, lost, send_cases}
use scion_int_p.TcpClient.Partial
use scion_int_p.TcpClient.Partial.{
  Carried, Carried-append, Through, Carried-Through, Carried-whole, Through-nil,
}
use scion_int_p.MacLearn.{MacLearningCtrl}
use scion_int_p.MacLearn.Digest.{updates_for}
use scion_int_p.Int.PacketIn.{IntController, handle_packet_in}
use scion_int_p.Int.PacketIn.Layout.{packet_bytes}
use scion_int_p.Int.PacketIn.Handler.{
  handle_packet_in_sent, handle_packet_in_closed, handle_packet_in_refused, handle_packet_in_thrown,
}
use scion_int_p.ControlPlane.{
  ControlPlane, pass, unhandled, dispatch, to_stack, on_packet, handle_message, read_loop, run,
}
use scion_int_p.ControlPlane.Election.{int_switch}
use scion_int_p.ControlPlane.Events.{handle_message-digest, handle_message_foreign}
use scion_int_p.ControlPlane.Learning.{Sighting}
use scion_int_p.ControlPlane.Reports.{
  Telemetry, IsTelemetry, published, published-append, acknowledged, acknowledged-append, topic_of,
  kafka_message,
}
use scion_int_p.ControlPlane.Interleaving.{
  Event, telemetry, sighting, stray, message_of, IsEvent, packets_of, sightings_of, reports_of,
}

pub nothing : (x : Bool) → Carried [] [] x x
nothing true = Carried.kept refl
nothing false = Carried.shut refl

-- What a run stops at: its last request is a message that Kafka does not take, or a close of the TCP
-- connection that fails.
pub data StopsAt (env : Env) (t : Trace) : Type 0 where
  refused :
      (u : Trace) (topic key report : Bytes)
      → env.produce_ok u report ≡ false
      → t ≡ u ++ (produce topic key report ∷ [])
      → StopsAt env t
  unclosed : (u : Trace) → env.tcp_close_ok u ≡ false → t ≡ u ++ (tcp_close ∷ []) → StopsAt env t

abbrev pub all_for {ℓ} : {A : Type ℓ} → (Event → List A) → List Event → List A
all_for f [] = []
all_for f (e ∷ events) = f e ++ all_for f events

module _ (con : SwitchConnection) (p4info : P4Info) (config : Bytes) (mac : MacLearningCtrl)
    (int : IntController) where
  -- The sink by whether its TCP connection is open, and the stack around it.
  abbrev pub int_with : Bool → IntController
  int_with open_now = record int { tcp_socket = record { is_active = open_now } }

  abbrev pub plane_with : Bool → ControlPlane
  plane_with open_now = int_switch con p4info config mac (int_with open_now)

module _ (mac : MacLearningCtrl) (int : IntController) where
  -- What an event is to bring: Kafka messages, acknowledgements and bytes for the TCP connection.
  abbrev pub messages_for : Event → List (Bytes × Bytes × Bytes)
  messages_for (telemetry m) = kafka_message int m ∷ []
  messages_for (sighting l) = []
  messages_for (stray payload) = []

  abbrev pub acks_for : Event → List (ℕ × ℕ)
  acks_for (telemetry m) = []
  acks_for (sighting l) = (mac.mac_learn_digest_id, l.0) ∷ []
  acks_for (stray payload) = []

  abbrev pub bytes_for : Event → Bytes
  bytes_for (telemetry m) = sent (frame m.report)
  bytes_for (sighting l) = []
  bytes_for (stray payload) = []

module _ (env : Env) (ser : Serializer) (con : SwitchConnection) (p4info : P4Info) (config : Bytes)
    (mac : MacLearningCtrl) (int : IntController) where
  abbrev pub sink : Bool → IntController
  sink = int_with con p4info config mac int

  abbrev pub plane : Bool → ControlPlane
  plane = plane_with con p4info config mac int

  -- The message is handled, and the connection is open or not behind it.
  abbrev pub Handled : Bool → Event → Trace → Type 0
  Handled x e t =
      (y : Bool) × (u : Trace) × (handle_message env ser (plane x) (message_of mac e) t
        ≡ (ok (plane y).ctrls, t ++ u))
      × (published u ≡ messages_for mac int e)
      × (acknowledged u ≡ acks_for mac int e)
      × Carried (sent u) (bytes_for mac int e) x y

  -- The handler throws at a request of the message.
  abbrev pub Broken : Bool → Event → Trace → Type 0
  Broken x e t =
      (u : Trace) × (handle_message env ser (plane x) (message_of mac e) t
        ≡ (throw library_error, t ++ u))
      × (published u ≡ messages_for mac int e)
      × (acknowledged u ≡ [])
      × Carried (sent u) (bytes_for mac int e) x false
      × StopsAt env (t ++ u)

  stack_handles :
      (x y : Bool) (payload : Bytes) (t v : Trace)
      → handle_packet_in env ser (sink x) payload t ≡ (ok (sink y, true), v)
      → handle_message env ser (plane x) (packet_in payload) t ≡ (ok (plane y).ctrls, v)
  unfolding handle_message to_stack dispatch on_packet pass unhandled
  stack_handles x y payload t v e = rw e refl

  stack_throws :
      (x : Bool) (payload : Bytes) (t v : Trace)
      → handle_packet_in env ser (sink x) payload t ≡ (throw library_error, v)
      → handle_message env ser (plane x) (packet_in payload) t ≡ (throw library_error, v)
  unfolding handle_message to_stack dispatch on_packet pass unhandled
  stack_throws x payload t v e = rw e refl

  module _ (m : Telemetry) (t : Trace) (h : IsTelemetry ser m) where
    abbrev message : Effect
    message = produce (topic_of int m) m.key m.report

    -- Behind the message to Kafka, the answer of `send` decides.
    handled :
        (y d : Bool) (u : Trace)
        → env.produce_ok t m.report ≡ true
        → send env active m.report (t ++ (message ∷ []))
          ≡ (ok (record { is_active = y }, d), (t ++ (message ∷ [])) ++ u)
        → handle_message env ser (plane true) (message_of mac (telemetry m)) t
          ≡ (ok (plane y).ctrls, t ++ (message ∷ u))
    handled y d u queued e =
        stack_handles true y (packet_bytes m.packet) t _ (
          handle_packet_in_sent env ser (sink true) m.packet h.fields m.key m.report h.positive
            h.exact h.key_bytes h.report_bytes t (record { is_active = y }) d _ queued e)
        ∙ ap (λ v. (ok (plane y).ctrls, v)) (append_assoc t (message ∷ []) u)

    thrown :
        (u : Trace)
        → env.produce_ok t m.report ≡ true
        → send env active m.report (t ++ (message ∷ []))
          ≡ (throw library_error, (t ++ (message ∷ [])) ++ u)
        → handle_message env ser (plane true) (message_of mac (telemetry m)) t
          ≡ (throw library_error, t ++ (message ∷ u))
    thrown u queued e =
        stack_throws true (packet_bytes m.packet) t _ (
          handle_packet_in_thrown env ser (sink true) m.packet h.fields m.key m.report h.positive
            h.exact h.key_bytes h.report_bytes t _ queued e)
        ∙ ap (λ v. (throw library_error, v)) (append_assoc t (message ∷ []) u)

    -- A write has failed behind the requests `u`, and the connection is closed or not.
    closed_behind :
        (u : Trace)
        → env.produce_ok t m.report ≡ true
        → published u ≡ []
        → acknowledged u ≡ []
        → IsPrefix (sent u) (bytes_for mac int (telemetry m))
        → send env active m.report (t ++ (message ∷ [])) ≡ (
          lost (env.tcp_close_ok ((t ++ (message ∷ [])) ++ u)),
          (t ++ (message ∷ [])) ++ (u ++ (tcp_close ∷ [])),
        )
        → Handled true (telemetry m) t ⊎ Broken true (telemetry m) t
    closed_behind u queued quiet silent front e =
        let told =
          ap (λ ms. kafka_message int m ∷ ms)
            (published-append u (tcp_close ∷ []) ∙ append-nil _ ∙ quiet) in
        let acks = acknowledged-append u (tcp_close ∷ []) ∙ append-nil _ ∙ silent in
        let bytes =
          subst⁻¹ (λ b. IsPrefix b (bytes_for mac int (telemetry m)))
            (sent-append u (tcp_close ∷ []) ∙ append-nil _) front in
        elim (Bool-cases (env.tcp_close_ok ((t ++ (message ∷ [])) ++ u))) [
          | inl shut ↦ inl (
            false,
            message ∷ (u ++ (tcp_close ∷ [])),
            handled false _ _ queued (rw shut at e),
            told,
            acks,
            Carried.broken bytes,
          )
          | inr stuck ↦ inr (
            message ∷ (u ++ (tcp_close ∷ [])),
            thrown _ queued (rw stuck at e),
            told,
            acks,
            Carried.broken bytes,
            unclosed ((t ++ (message ∷ [])) ++ u) stuck (
                sym (append_assoc t (message ∷ []) (u ++ (tcp_close ∷ [])))
                ∙ sym (append_assoc (t ++ (message ∷ [])) u (tcp_close ∷ []))),
          )
        ]

    -- Kafka has the report, and the open connection whole, cut, or not at all.
    handle_published :
        env.produce_ok t m.report ≡ true
        → Handled true (telemetry m) t ⊎ Broken true (telemetry m) t
    handle_published queued =
        let size = le_digits 4 (u32 (length m.report)) in
        elim (send_cases env m.report (t ++ (message ∷ []))) [
          | inl whole ↦ inl (
            true,
            message ∷ frame m.report,
            handled true _ _ queued whole,
            refl,
            refl,
            Carried.kept refl,
          )
          | inr (inl unsized) ↦
              closed_behind (tcp_write size ∷ []) queued refl refl (m.report ++ [], refl) unsized
          | inr (inr cut) ↦
              closed_behind (tcp_write size ∷ tcp_write m.report ∷ []) queued refl refl
                ([], append-nil _) cut
        ]

    handle_unconnected : env.produce_ok t m.report ≡ true → Handled false (telemetry m) t
    handle_unconnected queued = (
      false,
      message ∷ [],
      stack_handles false false (packet_bytes m.packet) t _ (
          handle_packet_in_closed env ser (sink false) m.packet h.fields m.key m.report h.positive
            h.exact h.key_bytes h.report_bytes t queued refl),
      refl,
      refl,
      Carried.shut refl,
    )

    none_carried : (x : Bool) → Carried [] (bytes_for mac int (telemetry m)) x false
    none_carried true = Carried.broken (bytes_for mac int (telemetry m), refl)
    none_carried false = Carried.shut refl

    handle_telemetry : (x : Bool) → Handled x (telemetry m) t ⊎ Broken x (telemetry m) t
    handle_telemetry x = elim (Bool-cases (env.produce_ok t m.report)) [
      | inl queued ↦ published_by x queued
      | inr full ↦ inr (
        message ∷ [],
        stack_throws x (packet_bytes m.packet) t _ (
            handle_packet_in_refused env ser (sink x) m.packet h.fields m.key m.report h.positive
              h.exact h.key_bytes h.report_bytes t full),
        refl,
        refl,
        none_carried x,
        refused t (topic_of int m) m.key m.report full refl,
      )
    ]
      where
        published_by :
            (x : Bool)
            → env.produce_ok t m.report ≡ true
            → Handled x (telemetry m) t ⊎ Broken x (telemetry m) t
        published_by true queued = handle_published queued
        published_by false queued = inl (handle_unconnected queued)

  pub handle_event :
      (x : Bool) (e : Event) (t : Trace) → IsEvent ser e → Handled x e t ⊎ Broken x e t
  handle_event x (telemetry m) t h = handle_telemetry m t h x
  handle_event x (sighting (list_id, seen)) t h = inl (
    x,
    write (record (create_write_request con) { updates = updates_for seen })
        ∷ stream_write (digest_ack mac.mac_learn_digest_id list_id)
        ∷ [],
    handle_message-digest env ser con p4info config mac (sink x) seen list_id t h,
    refl,
    refl,
    nothing x,
  )
  handle_event x (stray payload) t h = inl (
    x,
    [],
    handle_message_foreign env ser con p4info config mac (sink x) payload t h
        ∙ ap (λ u. (ok (plane x).ctrls, u)) (sym (append-nil t)),
    refl,
    refl,
    nothing x,
  )
