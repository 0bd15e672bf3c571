-- ===== src/TcpClient/Session.antt =====
-- The protocol of the TCP connection, as a step relation on its state, and actions that follow it.
use scion_int_p.Prelude.{
  ◌≡◌, refl, sym, ap, ◌∙◌, subst⁻¹, [], ◌∷◌, ◌++◌, Bytes, Bool, true, false, Bool-cases, inl, inr,
  All, append_assoc, append-nil,
}
use scion_int_p.Outcome.{Outcome, ok, throw, fault}
use scion_int_p.Exec.{Effect, Trace, Env, Exec, ◌>>=◌, continue, tcp_connect, tcp_write, tcp_close}
use scion_int_p.Exec.Runs.{Holds, Run}
use scion_int_p.TcpClient.{TcpClient, send}
use scion_int_p.TcpClient.Framing.{active, inactive, lost, send_cases, send-inactive}

-- A request that has nothing to do with the connection.
abbrev pub IsAside : Effect → Type 0
IsAside (tcp_connect address port) = ⊥
IsAside (tcp_write bytes) = ⊥
IsAside tcp_close = ⊥
IsAside _ = Unit {0}

-- Only an open connection is written to or closed, and closing it is final.
pub data Step : TcpClient → Effect → TcpClient → Type 0 where
  written : (bytes : Bytes) → Step active (tcp_write bytes) active
  shut : Step active tcp_close inactive
  aside : (client : TcpClient) (e : Effect) → IsAside e → Step client e client

pub data Session : TcpClient → Trace → TcpClient → Type 0 where
  rest : (client : TcpClient) → Session client [] client
  step :
      (before between after : TcpClient) (e : Effect) (t : Trace)
      → Step before e between
      → Session between t after
      → Session before (e ∷ t) after

Session-append :
    (before between after : TcpClient) (t t' : Trace)
    → Session before t between
    → Session between t' after
    → Session before (t ++ t') after
Session-append before between after [] t' (rest _) h' = h'
Session-append before between after (_ ∷ _) t' (step _ middle _ e t s h) h' =
    step before middle after e (t ++ t') s (Session-append middle between after t t' h h')

Session-aside : (client : TcpClient) (t : Trace) → All IsAside t → Session client t client
Session-aside client [] h = rest client
Session-aside client (e ∷ t) h =
    step client client client e t (aside client e h.0) (Session-aside client t h.1)

-- From the connection in a state and a trace on, the requests follow the protocol, and the result and
-- the last state of the connection satisfy `P`, if there is a result.
pub record Follows {ℓ} {A : Type ℓ} (P : A → TcpClient → Type 0) (client : TcpClient) (t : Trace)
    (r : Outcome A × Trace) : Type ℓ where
  pub last : TcpClient
  pub result : Holds (λ a. P a last) r.0
  pub requests : Trace
  pub extends : r.1 ≡ t ++ requests
  pub session : Session client requests last

module _ {ℓ} {A : Type ℓ} (P : A → TcpClient → Type 0) where
  pub Follows-none :
      (client : TcpClient) (t : Trace) (o : Outcome A)
      → Holds (λ a. P a client) o
      → Follows P client t (o, t)
  Follows-none client t o h = record {
    last = client;
    result = h;
    requests = [];
    extends = sym (append-nil t);
    session = rest client;
  }

  pub Follows-aside :
      (Q : A → Type 0) (client : TcpClient) (t : Trace) (r : Outcome A × Trace)
      → ((a : A) → Q a → P a client)
      → Run Q IsAside t r
      → Follows P client t r
  Follows-aside Q client t (o, t') imply run = record {
    last = client;
    result = holds o run.result;
    requests = run.requests;
    extends = run.extends;
    session = Session-aside client run.requests run.each;
  }
    where
      holds : (o : Outcome A) → Holds Q o → Holds (λ a. P a client) o
      holds (ok a) h = imply a h
      holds (throw e) h = tt
      holds (fault u) h = tt

module _ {ℓ κ} {A : Type ℓ} {B : Type κ} (P : A → TcpClient → Type 0)
    (R : B → TcpClient → Type 0) where
  Follows-continue :
      (client : TcpClient) (t : Trace) (o : Outcome A) (t' : Trace) (f : A → Exec B)
      → Follows P client t (o, t')
      → ((a : A) (client' : TcpClient) (u : Trace) → P a client' → Follows R client' u (f a u))
      → Follows R client t (continue o f t')
  Follows-continue client t (throw e) t' f h k = record {
    last = h.last;
    result = tt;
    requests = h.requests;
    extends = h.extends;
    session = h.session;
  }
  Follows-continue client t (fault u) t' f h k = record {
    last = h.last;
    result = tt;
    requests = h.requests;
    extends = h.extends;
    session = h.session;
  }
  Follows-continue client t (ok a) t' f h k =
      let next = k a h.last t' h.result in
      record {
        last = next.last;
        result = next.result;
        requests = h.requests ++ next.requests;
        extends =
            next.extends
            ∙ ap (λ u. u ++ next.requests) h.extends
            ∙ append_assoc t h.requests next.requests;
        session =
            Session-append client h.last next.last h.requests next.requests h.session next.session;
      }

  pub Follows-bind :
      (m : Exec A) (f : A → Exec B) (client : TcpClient) (t : Trace)
      → Follows P client t (m t)
      → ((a : A) (client' : TcpClient) (u : Trace) → P a client' → Follows R client' u (f a u))
      → Follows R client t ((m >>= f) t)
  Follows-bind m f client t h k = Follows-continue client t (m t).0 (m t).1 f h k

-- The client that `send` returns is in the state of the connection.
abbrev pub IsState : TcpClient × Bool → TcpClient → Type 0
IsState r client = r.0 ≡ client

write_then :
    (bytes : Bytes) (t : Trace) (after : TcpClient)
    → Session active t after
    → Session active (tcp_write bytes ∷ t) after
write_then bytes t after h = step active active after (tcp_write bytes) t (written bytes) h

close_last : Session active (tcp_close ∷ []) inactive
close_last = step active inactive inactive tcp_close [] shut (rest inactive)

module _ (env : Env) (report : Bytes) (t : Trace) where
  open_send-Follows : Follows IsState active t (send env active report t)
  open_send-Follows = elim (send_cases env report t) [
    | inl whole ↦ rw whole (record {
      last = active;
      result = refl;
      requests = _;
      extends = refl;
      session = write_then _ _ active (write_then report [] active (rest active));
    })
    | inr (inl unsized) ↦ rw unsized (closed_behind _ _ (write_then _ _ inactive close_last))
    | inr (inr cut) ↦
        rw cut
          (closed_behind _ _ (write_then _ _ inactive (write_then report _ inactive close_last)))
  ]
    where
      closed_behind :
          (b : Bool) (u : Trace)
          → Session active u inactive
          → Follows IsState active t (lost b, t ++ u)
      closed_behind true u h = record {
        last = inactive;
        result = refl;
        requests = u;
        extends = refl;
        session = h;
      }
      closed_behind false u h = record {
        last = inactive;
        result = tt;
        requests = u;
        extends = refl;
        session = h;
      }

  -- `send` follows the protocol, whatever writes fail.
  pub send-Follows : (client : TcpClient) → Follows IsState client t (send env client report t)
  send-Follows client = elim (Bool-cases client.is_active) [
    | inl opened ↦ subst⁻¹ at_state (ap client_of opened) open_send-Follows
    | inr closed ↦ subst⁻¹ at_state (ap client_of closed) (
        rw (send-inactive env report t)
          (Follows-none IsState inactive t (ok (inactive, false)) refl))
  ]
    where
      client_of : Bool → TcpClient
      client_of b = record { is_active = b }

      at_state : TcpClient → Type 0
      at_state c = Follows IsState c t (send env c report t)
