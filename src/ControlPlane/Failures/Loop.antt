-- ===== src/ControlPlane/Failures/Loop.antt =====
-- The loop of an INT switch over events, requests of which fail.
use scion_int_p.Prelude.{
  ◌≡◌, ◌⊎◌, inl, inr, refl, sym, ap, ap₂, ◌∙◌, subst, subst⁻¹, List, [], ◌∷◌, ◌++◌, Bytes, Bool,
  All, map, IsPrefix, IsPrefix-left, append_assoc, append-nil,
}
use scion_int_p.Outcome.{ok, throw, library_error}
use scion_int_p.P4Runtime.{P4Info}
use scion_int_p.Report.{Serializer}
use scion_int_p.Exec.{Trace, Env}
use scion_int_p.Connection.{SwitchConnection}
use scion_int_p.TcpClient.Framing.{frame, frames, sent, sent-append}
use scion_int_p.TcpClient.Partial.{Carried, Carried-append, Through, Carried-Through, Carried-whole}
use scion_int_p.MacLearn.{MacLearningCtrl}
use scion_int_p.Int.PacketIn.{IntController}
use scion_int_p.ControlPlane.{ControlPlane, read_loop}
use scion_int_p.ControlPlane.Reports.{
  published, published-append, acknowledged, acknowledged-append,
}
use scion_int_p.ControlPlane.Interleaving.{Event, telemetry, sighting, stray, message_of, IsEvent}
use scion_int_p.ControlPlane.Failures.{
  nothing, plane_with, messages_for, acks_for, bytes_for, all_for, StopsAt, Handled, Broken,
  handle_event,
}

-- The frames of the reports among Kafka messages.
abbrev pub copies : List (Bytes × Bytes × Bytes) → Bytes
copies ms = sent (frames (map (λ m. m.2) ms))

copies-append : (ms ns : List (Bytes × Bytes × Bytes)) → copies (ms ++ ns) ≡ copies ms ++ copies ns
copies-append [] ns = refl
copies-append ((topic, key, report) ∷ ms) ns =
    sent-append (frame report) (frames (map (λ m. m.2) (ms ++ ns)))
    ∙ ap (λ b. sent (frame report) ++ b) (copies-append ms ns)
    ∙ sym (append_assoc (sent (frame report)) (copies ms) (copies ns))
    ∙ ap (λ b. b ++ copies ns) (sym (sent-append (frame report) (frames (map (λ m. m.2) ms))))

module _ (mac : MacLearningCtrl) (int : IntController) where
  copies-messages_for : (e : Event) → copies (messages_for mac int e) ≡ bytes_for mac int e
  copies-messages_for (telemetry m) = refl
  copies-messages_for (sighting l) = refl
  copies-messages_for (stray payload) = refl

  pub copies-messages :
      (events : List Event)
      → copies (all_for (messages_for mac int) events) ≡ all_for (bytes_for mac int) events
  copies-messages [] = refl
  copies-messages (e ∷ events) =
      copies-append (messages_for mac int e) (all_for (messages_for mac int) events)
      ∙ ap₂ (λ a b. a ++ b) (copies-messages_for e) (copies-messages events)

module _ (env : Env) (ser : Serializer) (con : SwitchConnection) (p4info : P4Info) (config : Bytes)
    (mac : MacLearningCtrl) (int : IntController) where
  abbrev plane : Bool → ControlPlane
  plane = plane_with con p4info config mac int

  -- The loop has read all events.
  abbrev pub Ended : Bool → List Event → Trace → Type 0
  Ended x events t =
      (y : Bool) × (u : Trace) × (read_loop env ser (plane x) (map (message_of mac) events) t
        ≡ (ok (plane y), t ++ u))
      × (published u ≡ all_for (messages_for mac int) events)
      × (acknowledged u ≡ all_for (acks_for mac int) events)
      × Carried (sent u) (all_for (bytes_for mac int) events) x y

  -- The loop has thrown at its last request.
  abbrev pub Stopped : Bool → List Event → Trace → Type 0
  Stopped x events t =
      (u : Trace) × (read_loop env ser (plane x) (map (message_of mac) events) t
        ≡ (throw library_error, t ++ u))
      × IsPrefix (published u) (all_for (messages_for mac int) events)
      × IsPrefix (acknowledged u) (all_for (acks_for mac int) events)
      × Through x (sent u) (all_for (bytes_for mac int) events)
      × Through x (sent u) (copies (published u))
      × StopsAt env (t ++ u)

  go_on :
      (x : Bool) (e : Event) (events : List Event) (t : Trace)
      → (h : Handled env ser con p4info config mac int x e t) → Ended h.0 events (t ++ h.1)
      → Ended x (e ∷ events) t
  unfolding read_loop
  go_on x e events t (y, u, runs, told, acks, bytes) (z, v, runs', told', acks', bytes') = (
    z,
    u ++ v,
    rw (runs, runs') (ap (λ w. (ok (plane z), w)) (append_assoc t u v)),
    published-append u v ∙ ap₂ (λ a b. a ++ b) told told',
    acknowledged-append u v ∙ ap₂ (λ a b. a ++ b) acks acks',
    subst⁻¹ (λ b. Carried b (bytes_for mac int e ++ all_for (bytes_for mac int) events) x z)
        (sent-append u v)
        (Carried-append (sent u) (bytes_for mac int e) (sent v) (all_for (bytes_for mac int) events)
          bytes bytes'),
  )

  -- Kafka stays ahead of the connection from one event to the next.
  later :
      (x : Bool) (e : Event) (u v : Trace) (y : Bool)
      → published u ≡ messages_for mac int e
      → Carried (sent u) (bytes_for mac int e) x y
      → Through y (sent v) (copies (published v))
      → Through x (sent (u ++ v)) (copies (published (u ++ v)))
  later x e u v y told bytes ahead =
      let same : copies (published (u ++ v)) ≡ bytes_for mac int e ++ copies (published v) =
        ap copies (published-append u v)
        ∙ copies-append (published u) (published v)
        ∙ ap (λ b. b ++ copies (published v)) (ap copies told ∙ copies-messages_for mac int e) in
      subst⁻¹ (λ b. Through x b (copies (published (u ++ v)))) (sent-append u v)
        (subst⁻¹ (λ b. Through x (sent u ++ sent v) b) same
          (Carried-Through (sent u) (bytes_for mac int e) (sent v) (copies (published v)) bytes
            ahead))

  fail_later :
      (x : Bool) (e : Event) (events : List Event) (t : Trace)
      → (h : Handled env ser con p4info config mac int x e t) → Stopped h.0 events (t ++ h.1)
      → Stopped x (e ∷ events) t
  unfolding read_loop
  fail_later x e events t (y, u, runs, told, acks, bytes)
        (v, runs', told', acks', bytes', ahead, stop) =
      (
        u ++ v,
        rw (runs, runs') (ap (λ w. (throw library_error, w)) (append_assoc t u v)),
        subst⁻¹ (λ a. IsPrefix a (messages_for mac int e ++ all_for (messages_for mac int) events))
            (published-append u v ∙ ap (λ a. a ++ published v) told)
            (IsPrefix-left (messages_for mac int e) (published v)
              (all_for (messages_for mac int) events) told'),
        subst⁻¹ (λ a. IsPrefix a (acks_for mac int e ++ all_for (acks_for mac int) events))
            (acknowledged-append u v ∙ ap (λ a. a ++ acknowledged v) acks)
            (IsPrefix-left (acks_for mac int e) (acknowledged v) (all_for (acks_for mac int) events)
              acks'),
        subst⁻¹ (λ b. Through x b (bytes_for mac int e ++ all_for (bytes_for mac int) events))
            (sent-append u v)
            (Carried-Through (sent u) (bytes_for mac int e) (sent v)
              (all_for (bytes_for mac int) events) bytes bytes'),
        later x e u v y told bytes ahead,
        subst (StopsAt env) (append_assoc t u v) stop,
      )

  fail_now :
      (x : Bool) (e : Event) (events : List Event) (t : Trace)
      → Broken env ser con p4info config mac int x e t
      → Stopped x (e ∷ events) t
  unfolding read_loop
  fail_now x e events t (u, throws, told, acks, bytes, stop) =
      let more = all_for (bytes_for mac int) events in
      (
        u,
        rw throws refl,
        (
          all_for (messages_for mac int) events,
          ap (λ a. a ++ all_for (messages_for mac int) events) told,
        ),
        (
          acks_for mac int e ++ all_for (acks_for mac int) events,
          ap (λ a. a ++ (acks_for mac int e ++ all_for (acks_for mac int) events)) acks,
        ),
        subst (λ b. Through x b (bytes_for mac int e ++ more)) (append-nil (sent u))
            (Carried-Through (sent u) (bytes_for mac int e) [] more bytes refl),
        subst⁻¹ (Through x (sent u)) (ap copies told ∙ copies-messages_for mac int e)
            (Carried-whole (sent u) (bytes_for mac int e) bytes),
        stop,
      )

  pub loop_cases :
      (x : Bool) (events : List Event) (t : Trace)
      → All (IsEvent ser) events
      → Ended x events t ⊎ Stopped x events t
  unfolding read_loop
  loop_cases x [] t h =
      inl (x, [], ap (λ u. (ok (plane x), u)) (sym (append-nil t)), refl, refl, nothing x)
  loop_cases x (e ∷ events) t h = elim (handle_event env ser con p4info config mac int x e t h.0) [
    | inl handled ↦ elim (loop_cases handled.0 events (t ++ handled.1) h.1) [
      | inl ended ↦ inl (go_on x e events t handled ended)
      | inr stopped ↦ inr (fail_later x e events t handled stopped)
    ]
    | inr broken ↦ inr (fail_now x e events t broken)
  ]
