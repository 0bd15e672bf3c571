-- ===== src/TcpClient/Framing.antt =====
-- What a reader at the other end of the TCP connection gets.
use scion_int_p.Prelude.{
  Bool, ℕ, zero, suc, ◌^◌, ◌<◌, ◌≡◌, refl, sym, ap, ap₂, ◌∙◌, List, [], ◌∷◌, ◌++◌, Bytes, true,
  false, arith, All, take, drop, length, take-append, drop-append, append_assoc, append-nil, ◌⊎◌,
  inl, inr, Bool-cases,
}
use scion_int_p.Prelude.Words.{u32}
use scion_int_p.Prelude.Endian.{le, le_digits}
use scion_int_p.Outcome.{Outcome, ok, throw, library_error}
use scion_int_p.Exec.{
  stream_write, set_pipeline, write, produce, tcp_connect, tcp_write, tcp_close, Trace, Env, Exec,
  ◌>>=◌, pure,
}
use scion_int_p.TcpClient.{TcpClient, write_bytes, send}

abbrev pub frame : Bytes → Trace
frame report = tcp_write (le_digits 4 (u32 (length report))) ∷ tcp_write report ∷ []

-- The bytes that a trace has put on the connection.
abbrev pub sent : Trace → Bytes
sent [] = []
sent (tcp_write bytes ∷ t) = bytes ++ sent t
sent (_ ∷ t) = sent t

pub sent-append : (t u : Trace) → sent (t ++ u) ≡ sent t ++ sent u
sent-append [] u = refl
sent-append (produce topic key report ∷ t) u = sent-append t u
sent-append (stream_write m ∷ t) u = sent-append t u
sent-append (set_pipeline m ∷ t) u = sent-append t u
sent-append (write m ∷ t) u = sent-append t u
sent-append (tcp_connect ip port ∷ t) u = sent-append t u
sent-append (tcp_write bytes ∷ t) u =
    ap (λ b. bytes ++ b) (sent-append t u) ∙ sym (append_assoc bytes (sent t) (sent u))
sent-append (tcp_close ∷ t) u = sent-append t u

-- A reader that takes a length of four bytes, least significant first, and then so many bytes.
pub deframe : ℕ → Bytes → List Bytes
deframe zero bytes = []
deframe (suc rounds) bytes =
    let size = le (take 4 bytes) in
    take size (drop 4 bytes) ∷ deframe rounds (drop size (drop 4 bytes))

abbrev pub send_all : Env → TcpClient → List Bytes → Exec TcpClient
send_all env client [] = pure client
send_all env client (report ∷ reports) = send env client report >>= λ r. send_all env r.0 reports

abbrev pub frames : List Bytes → Trace
frames [] = []
frames (report ∷ reports) = frame report ++ frames reports

abbrev pub active : TcpClient
active = record { is_active = true }

abbrev pub inactive : TcpClient
inactive = record { is_active = false }

write_bytes_ok :
    (env : Env) (bytes : Bytes) (t : Trace)
    → env.tcp_write_ok t bytes ≡ true
    → write_bytes env active bytes t ≡ (ok active, t ++ (tcp_write bytes ∷ []))
unfolding write_bytes
write_bytes_ok env bytes t e = rw e

-- The client behind a close, which throws when it fails.
abbrev pub closing : Bool → Outcome TcpClient
closing true = ok inactive
closing false = throw library_error

abbrev pub lost : Bool → Outcome (TcpClient × Bool)
lost true = ok (inactive, false)
lost false = throw library_error

write_bytes_fails :
    (env : Env) (bytes : Bytes) (t : Trace)
    → env.tcp_write_ok t bytes ≡ false
    → write_bytes env active bytes t ≡ (
      closing (env.tcp_close_ok (t ++ (tcp_write bytes ∷ []))),
      t ++ (tcp_write bytes ∷ tcp_close ∷ []),
    )
unfolding write_bytes
write_bytes_fails env bytes t e =
    let u = append_assoc t (tcp_write bytes ∷ []) (tcp_close ∷ []) in
    elim (Bool-cases (env.tcp_close_ok (t ++ (tcp_write bytes ∷ [])))) [
      | inl shut ↦ rw (e, shut) (ap (λ v. (ok inactive, v)) u)
      | inr stuck ↦ rw (e, stuck) (ap (λ v. (throw library_error, v)) u)
    ]

write_bytes-inactive :
    (env : Env) (bytes : Bytes) (t : Trace) → write_bytes env inactive bytes t ≡ (ok inactive, t)
unfolding write_bytes
write_bytes-inactive env bytes t = refl

-- `send` on an open connection either writes the length and the report and stays open, or it closes
-- the connection right behind the write that failed, and throws if that fails; a failed length is not
-- followed by the report.
pub send_cases :
    (env : Env) (report : Bytes) (t : Trace)
    → let size = tcp_write (le_digits 4 (u32 (length report))) in
      (send env active report t ≡ (ok (active, true), t ++ frame report))
      ⊎ (send env active report t
          ≡ (lost (env.tcp_close_ok (t ++ (size ∷ []))), t ++ (size ∷ tcp_close ∷ [])))
      ⊎ (send env active report t ≡ (
        lost (env.tcp_close_ok (t ++ (size ∷ tcp_write report ∷ []))),
        t ++ (size ∷ tcp_write report ∷ tcp_close ∷ []),
      ))
unfolding send
send_cases env report t =
    let size = le_digits 4 (u32 (length report)) in
    let t' = t ++ (tcp_write size ∷ []) in
    let together = append_assoc t (tcp_write size ∷ []) in
    elim (Bool-cases (env.tcp_write_ok t size)) [
      | inl sized ↦ elim (Bool-cases (env.tcp_write_ok t' report)) [
        | inl whole ↦ inl (
            rw (write_bytes_ok env size t sized, write_bytes_ok env report t' whole)
              (ap (λ u. (ok (active, true), u)) (together _)))
        | inr cut ↦
            let before = together (tcp_write report ∷ []) in
            inr (
              inr (elim (Bool-cases (env.tcp_close_ok (t' ++ (tcp_write report ∷ [])))) [
                | inl shut ↦
                    rw
                      (
                        write_bytes_ok env size t sized,
                        write_bytes_fails env report t' cut,
                        shut,
                        ap env.tcp_close_ok (sym before) ∙ shut,
                      )
                      (ap (λ u. (ok (inactive, false), u)) (together _))
                | inr stuck ↦
                    rw
                      (
                        write_bytes_ok env size t sized,
                        write_bytes_fails env report t' cut,
                        stuck,
                        ap env.tcp_close_ok (sym before) ∙ stuck,
                      )
                      (ap (λ u. (throw library_error, u)) (together _))
              ]))
      ]
      | inr unsized ↦ inr (
          inl (elim (Bool-cases (env.tcp_close_ok t')) [
            | inl shut ↦
                rw (write_bytes_fails env size t unsized, shut, write_bytes-inactive env report _)
            | inr stuck ↦ rw (write_bytes_fails env size t unsized, stuck)
          ]))
    ]

-- A closed connection is never written to again.
pub send-inactive :
    (env : Env) (report : Bytes) (t : Trace)
    → send env inactive report t ≡ (ok (inactive, false), t)
unfolding send
send-inactive env report t = refl

pub send_ok :
    (env : Env) (report : Bytes) (t : Trace)
    → ((u : Trace) (bytes : Bytes) → env.tcp_write_ok u bytes ≡ true)
    → send env active report t ≡ (ok (active, true), t ++ frame report)
unfolding send
send_ok env report t h =
    let size = le_digits 4 (u32 (length report)) in
    rw
      (
        write_bytes_ok env size t (h t size),
        write_bytes_ok env report (t ++ (tcp_write size ∷ [])) (h _ report),
      )
      (ap (λ u. (ok (active, true), u)) (append_assoc t (tcp_write size ∷ []) _))

send_all-frames :
    (env : Env) (reports : List Bytes) (t : Trace)
    → ((u : Trace) (bytes : Bytes) → env.tcp_write_ok u bytes ≡ true)
    → send_all env active reports t ≡ (ok active, t ++ frames reports)
send_all-frames env [] t h = ap (λ u. (ok active, u)) (sym (append-nil t))
send_all-frames env (report ∷ reports) t h = rw (send_ok env report t h) (
    send_all-frames env reports (t ++ frame report) h
    ∙ ap (λ u. (ok active, u)) (append_assoc t (frame report) (frames reports)))

pub deframe-frames :
    (reports : List Bytes)
    → All (λ r. length r < 2 ^ 32) reports
    → deframe (length reports) (sent (frames reports)) ≡ reports
unfolding deframe
deframe-frames [] h = refl
deframe-frames (report ∷ reports) h =
    let e : le (le_digits 4 (u32 (length report))) ≡ length report = omega arith in
    rw e (
      ap₂ (λ r rs. r ∷ rs) (take-append (length report) report _ refl)
        (ap (deframe (length reports)) (drop-append (length report) report _ refl)
          ∙ deframe-frames reports h.1))

-- While no write fails, the reader gets the reports, whole and in order, if each is shorter than
-- 2^32 bytes.
pub deframe-send_all :
    (env : Env) (reports : List Bytes)
    → ((u : Trace) (bytes : Bytes) → env.tcp_write_ok u bytes ≡ true)
    → All (λ r. length r < 2 ^ 32) reports
    → ((send_all env active reports []).0 ≡ ok active)
      × (deframe (length reports) (sent (send_all env active reports []).1) ≡ reports)
deframe-send_all env reports h small =
    rw (send_all-frames env reports [] h) (refl, deframe-frames reports small)
