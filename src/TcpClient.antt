-- ===== src/TcpClient.antt =====
-- control_plane/controllers/int/tcpClient.h and tcpClient.cpp: reports over a TCP connection.
pub mod Framing
pub mod Partial
pub mod Reader
pub mod Session
use scion_int_p.Prelude.{ℕ, Bytes, Bool, true, false, List, [], ◌∷◌, ◌++◌, if◌then◌else◌, length}
use scion_int_p.Prelude.Words.{u32}
use scion_int_p.Prelude.Endian.{le_digits}
use scion_int_p.Outcome.{throw, library_error}
use scion_int_p.Exec.{Env, Exec, ◌>>=◌, pure, lift, request, tcp_connect, tcp_write, tcp_close}

-- The socket is that of the last `createClient`.
pub record TcpClient : Type 0 where
  pub is_active : Bool

abbrev pub tcp_client : TcpClient
tcp_client = record { is_active = false }

unfoldable pub get_is_active : TcpClient → Bool
get_is_active client = client.is_active

module _ (env : Env) where
  -- A failed connection leaves `isActive` as it was. The `io_context` of the socket ends with the function:
  -- what follows supposes that the socket is still usable, which the language does not promise.
  unfoldable pub create_client : TcpClient → Bytes → ℕ → Exec (TcpClient × Bool)
  create_client client ip port = do
    connected ← request (tcp_connect ip port) (λ t. env.tcp_connect_ok t)
    let client' = (if connected then record client { is_active = true } else client)
    pure (client', client'.is_active)

  -- `close()` throws when it fails, and `isActive` stays.
  mark_closed : TcpClient → Bool → Exec TcpClient
  mark_closed client true = pure (record client { is_active = false })
  mark_closed client false = lift (throw library_error)

  close_on_error : TcpClient → Bool → Exec TcpClient
  unfolding mark_closed
  close_on_error client true = pure client
  close_on_error client false = do
    closed ← request tcp_close (λ t. env.tcp_close_ok t)
    mark_closed client closed

  unfoldable pub write_bytes : TcpClient → Bytes → Exec TcpClient
  unfolding close_on_error mark_closed
  write_bytes client bytes =
      let attempt = (do
        written ← request (tcp_write bytes) (λ t. env.tcp_write_ok t bytes)
        close_on_error client written) in
      if client.is_active then attempt else pure client

  -- The length goes first, as the four bytes of a uint32_t of the little-endian host.
  unfoldable pub send : TcpClient → Bytes → Exec (TcpClient × Bool)
  send client report =
      let attempt = (do
        client' ← write_bytes client (le_digits 4 (u32 (length report)))
        client'' ← write_bytes client' report
        pure (client'', client''.is_active)) in
      if client.is_active then attempt else pure (client, false)
