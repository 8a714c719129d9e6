-- ===== src/Proxy/Polling.antt =====
-- src/ProxyX11Server.cpp: `_processPolledSockets`, and `_openConnection`, over the poll table. What the
-- sockets answer is an argument.
pub mod Sides
pub mod Passes
pub mod Opening
use xtracepp.Base.{
  ℕ, ◌∷◌, ◌&&◌, ◌||◌, Bool, true, false, not, List, [], ltb, ◌==◌, if◌then◌else◌, Option, none,
  some, Outcome, ok, aborted, exited, require, ◌>>=◌, ◌>>◌, emplace,
}
use xtracepp.Buffer.{
  SocketBuffer, SocketError, Received, Sent, read, write, bytes_to_read, is_empty, write_ready,
  new_buffer,
}
use xtracepp.Session.{
  Connection, new_connection, close_client_side, client_side_closed, server_side_closed,
}
use xtracepp.Parser.Messages.{MessageParsers}
use xtracepp.Parser.Framing.{Logged, log_client_messages, log_server_messages}
use xtracepp.Proxy.{
  ProxyX11Server, Proxied, PollError, pollnone, socket_read_ready, socket_write_ready,
  socket_poll_error, add_socket_to_poll, close_connections,
}

-- `recv` and `send` on a descriptor, with the number of bytes asked for; `close`; and what
-- `_acceptClient` and `_connectToServer` answer.
pub record Sockets : Type 0 where
  pub recv : ℕ → ℕ → Received
  pub send : ℕ → ℕ → Sent
  pub closes : ℕ → Bool
  pub accepted : Option ℕ
  pub connected : Option ℕ

-- What the pass over one side answers: the parser, the connection, and whether to close it.
abbrev pub SideOutcome : Type 0 → Type 0
SideOutcome P = Outcome (P × Proxied × Bool)

-- A loop of the parser that ran out of fuel; by `log_client_messages_lem` it never does.
abbrev pub ended {ℓ} : {A : Type ℓ} → Option (Outcome A) → Outcome A
ended none = aborted
ended (some r) = r

abbrev pub is_some {ℓ} : {A : Type ℓ} → Option A → Bool
is_some none = false
is_some (some a) = true

abbrev pub LogMessages : Type 0 → Type 0
LogMessages P = P → Connection → SocketBuffer → Option (Outcome (Logged P))

module _ {P : Type 0} where
  -- What is read from a side: an error and the end of the stream close the connection.
  unfoldable pub after_read :
      LogMessages P
      → (SocketBuffer → Proxied → Proxied)
      → P
      → Proxied
      → SocketBuffer × ℕ × Option SocketError
      → SideOutcome P
  unfolding is_empty
  after_read log put p c (b, bytes_read, error) =
      if is_some error
      then ok (p, put b c, true)
      else if bytes_read == 0
      then ok (p, put b c, true)
      else (do
        require (not (is_empty b))
        logged ← ended (log p c.conn b)
        let parsed = put logged.final.buffer (record c { conn = logged.final.conn })
        ok (logged.final.parser, parsed, logged.error))

  unfoldable pub after_write :
      (SocketBuffer → Proxied → Proxied)
      → P
      → Proxied
      → SocketBuffer × ℕ × Option SocketError
      → SideOutcome P
  after_write put p c (b, bytes_written, error) =
      if is_some error
      then ok (p, put b c, true)
      else (do require (ltb 0 bytes_written); ok (p, put b c, false))

  -- One side of a connection: its socket, its own buffer, and the buffer of the other side.
  unfoldable pub process_side :
      Sockets
      → LogMessages P
      → ProxyX11Server
      → P
      → Proxied
      → ℕ
      → (Proxied → SocketBuffer)
      → (SocketBuffer → Proxied → Proxied)
      → (Proxied → SocketBuffer)
      → (SocketBuffer → Proxied → Proxied)
      → SideOutcome P
  unfolding after_read after_write read write bytes_to_read write_ready socket_read_ready
      socket_write_ready socket_poll_error
  process_side sockets log s p c fd own put_own other put_other = do
    readable ← socket_read_ready s fd
    writable ← socket_write_ready s fd
    poll_error ← socket_poll_error s fd
    if readable
        then (read (own c) (sockets.recv fd (bytes_to_read (own c))) >>= after_read log put_own p c)
        else if writable && write_ready (other c)
        then (write (other c) (sockets.send fd (other c).bytes_parsed)
            >>= after_write put_other p c)
        else ok (p, c, is_some poll_error)

abbrev pub put_client : SocketBuffer → Proxied → Proxied
put_client b c = record c { client_buffer = b }

abbrev pub put_server : SocketBuffer → Proxied → Proxied
put_server b c = record c { server_buffer = b }

abbrev pub client_of : Proxied → SocketBuffer
client_of c = c.client_buffer

abbrev pub server_of : Proxied → SocketBuffer
server_of c = c.server_buffer

abbrev pub fd_or_abort : Option ℕ → Outcome ℕ
fd_or_abort none = aborted
fd_or_abort (some fd) = ok fd

-- A connection with both sides open, and empty buffers.
abbrev pub opened : Connection → ℕ → Proxied
opened conn server_fd = record {
  conn = record conn { server_fd = some server_fd };
  client_buffer = new_buffer;
  server_buffer = new_buffer;
}

module _ (sockets : Sockets) where
  -- `_openConnection`: the server and the next id.
  unfoldable pub open_connection : ProxyX11Server → ℕ → Outcome (ProxyX11Server × ℕ)
  unfolding new_connection close_client_side add_socket_to_poll emplace
  open_connection s id = elim sockets.accepted [
    | none ↦ ok (s, (new_connection id).1)
    | some client_fd ↦ do
      require (ltb s.listener_fd client_fd)
      let conn = record (new_connection id).0 { client_fd = some client_fd }
      elim sockets.connected [
        | none ↦ do
          closed ← close_client_side conn (sockets.closes client_fd)
          ok (s, (new_connection id).1)
        | some server_fd ↦ do
          require (ltb s.listener_fd server_fd)
          t ←
              add_socket_to_poll
                (record s { connections = emplace id (opened conn server_fd) s.connections })
                client_fd pollnone
          u ← add_socket_to_poll t server_fd pollnone
          ok (u, (new_connection id).1)
      ]
  ]

module _ {P : Type 0} (parsers : MessageParsers P) (little_endian : Bool) (sockets : Sockets) where
  unfoldable pub process_client_side : ProxyX11Server → P → Proxied → ℕ → SideOutcome P
  unfolding process_side log_client_messages
  process_client_side s p c fd =
      process_side sockets (log_client_messages parsers little_endian) s p c fd client_of put_client
        server_of put_server

  unfoldable pub process_server_side : ProxyX11Server → P → Proxied → ℕ → SideOutcome P
  unfolding process_side log_server_messages
  process_server_side s p c fd =
      process_side sockets (log_server_messages parsers little_endian) s p c fd server_of put_server
        client_of put_client

  -- The body of the loop over the connections: the client first, and then the server.
  unfoldable pub process_connection : ProxyX11Server → P → Proxied → SideOutcome P
  unfolding process_client_side process_server_side
  process_connection s p c = do
    client_fd ← fd_or_abort c.conn.client_fd
    server_fd ← fd_or_abort c.conn.server_fd
    (q, d, closing) ← process_client_side s p c client_fd
    if closing then ok (q, d, true) else process_server_side s q d server_fd

  abbrev pub noted : Bool → ℕ → List ℕ → List ℕ
  noted true id ids = id ∷ ids
  noted false id ids = ids

  -- The connections after the pass, and the ids of those to close.
  unfoldable pub process_connections :
      ProxyX11Server → P → List (ℕ × Proxied) → Outcome (P × List (ℕ × Proxied) × List ℕ)
  unfolding process_connection
  process_connections s p [] = ok (p, [], [])
  process_connections s p ((id, c) ∷ cs) = do
    (q, d, closing) ← process_connection s p c
    (r, ds, ids) ← process_connections s q cs
    ok (r, (id, d) ∷ ds, noted closing id ids)

  unfoldable pub process_polled_sockets : ProxyX11Server → ℕ → P → Outcome (ProxyX11Server × ℕ × P)
  unfolding process_connections close_connections socket_read_ready socket_poll_error
      open_connection
  process_polled_sockets s id p = do
    (q, cs, ids) ← process_connections s p s.connections
    t ← close_connections sockets.closes (record s { connections = cs }) ids
    readable ← socket_read_ready t t.listener_fd
    poll_error ← socket_poll_error t t.listener_fd
    (u, next_id) ← if readable then open_connection sockets t id else ok (t, id)
    ok (u, next_id, q)
