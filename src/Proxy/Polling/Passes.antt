-- ===== src/Proxy/Polling/Passes.antt =====
-- src/ProxyX11Server.cpp: a pass of `_processPolledSockets` over a connection.
use xtracepp.Base.{
  ℕ, ◌≡◌, refl, Bool, true, false, ◌&&◌, if◌then◌else◌, Option, Outcome, ok, aborted, exited, ◌>>=◌,
}
use xtracepp.Buffer.{SocketBuffer, SocketError, read, write, bytes_to_read, write_ready}
use xtracepp.Parser.Messages.{MessageParsers}
use xtracepp.Parser.Framing.{log_client_messages, log_server_messages}
use xtracepp.Parser.Framing.Loops.{log_client_messages_lem, log_server_messages_lem}
use xtracepp.Proxy.{
  ProxyX11Server, Proxied, PollError, socket_read_ready, socket_write_ready, socket_poll_error,
}
use xtracepp.Proxy.Polling.{
  Sockets, SideOutcome, LogMessages, after_read, after_write, is_some, process_side,
  process_client_side, process_server_side, client_of, put_client, server_of, put_server,
}
use xtracepp.Proxy.Polling.Sides.{
  IsKept, CanRead, Obeys, BothKept, PutKeeps, LogKeeps, ReadResult, WriteResult, SideResult,
  read-ReadResult, write-WriteResult, after_read-SideResult, after_write-SideResult,
}

SideResult-bind :
    {A P : Type 0} (m : Outcome A) (k : A → SideOutcome P)
    → ((a : A) → m ≡ ok a → SideResult (k a))
    → SideResult (m >>= k)
SideResult-bind (ok a) k h = h a refl
SideResult-bind aborted k h = tt
SideResult-bind exited k h = tt

module _ {P : Type 0} (sockets : Sockets) (log : LogMessages P) (logs : LogKeeps log) where
  read_side :
      (put : SocketBuffer → Proxied → Proxied) (p : P) (c : Proxied)
      → PutKeeps put
      → (m : Outcome (SocketBuffer × ℕ × Option SocketError)) → ReadResult m
      → BothKept c
      → SideResult (m >>= after_read log put p c)
  read_side put p c keeps (ok r) (v, h) both =
      after_read-SideResult put keeps log p c r logs v h both
  read_side put p c keeps aborted h both = absurd h
  read_side put p c keeps exited h both = absurd h

  write_side :
      (put : SocketBuffer → Proxied → Proxied) (p : P) (c : Proxied)
      → PutKeeps put
      → (m : Outcome (SocketBuffer × ℕ × Option SocketError)) → WriteResult m
      → BothKept c
      → SideResult (m >>= after_write put p c)
  write_side put p c keeps (ok r) k both = after_write-SideResult put keeps p c r k both
  write_side put p c keeps aborted h both = tt
  write_side put p c keeps exited h both = tt

  process_side-SideResult :
      (s : ProxyX11Server) (p : P) (c : Proxied) (fd : ℕ) (own : Proxied → SocketBuffer)
      (put_own : SocketBuffer → Proxied → Proxied) (other : Proxied → SocketBuffer)
      (put_other : SocketBuffer → Proxied → Proxied)
      → PutKeeps put_own
      → PutKeeps put_other
      → IsKept (own c)
      → IsKept (other c)
      → BothKept c
      → CanRead (own c)
      → Obeys (sockets.recv fd (bytes_to_read (own c))) (bytes_to_read (own c))
      → SideResult (process_side sockets log s p c fd own put_own other put_other)
  unfolding process_side
  process_side-SideResult s p c fd own put_own other put_other keeps keeps' k k' both can obeys =
      SideResult-bind (socket_read_ready s fd) _ (λ readable _.
        SideResult-bind (socket_write_ready s fd) _ (λ writable _.
          SideResult-bind (socket_poll_error s fd) _
            (λ poll_error _. pass readable (writable && write_ready (other c)) poll_error)))
    where
      pass :
          (readable writes : Bool) (poll_error : Option PollError)
          → SideResult (
              if readable
              then (read (own c) (sockets.recv fd (bytes_to_read (own c)))
                  >>= after_read log put_own p c)
              else if writes
              then (write (other c) (sockets.send fd (other c).bytes_parsed)
                  >>= after_write put_other p c)
              else ok (p, c, is_some poll_error))
      pass true writes e =
          read_side put_own p c keeps (read (own c) (sockets.recv fd (bytes_to_read (own c))))
            (read-ReadResult (own c) (sockets.recv fd (bytes_to_read (own c))) k can obeys) both
      pass false true e =
          write_side put_other p c keeps' (write (other c) (sockets.send fd (other c).bytes_parsed))
            (write-WriteResult (other c) (sockets.send fd (other c).bytes_parsed) k') both
      pass false false e = λ _. both

put_client-keeps : PutKeeps put_client
put_client-keeps b c conn k (k', k'') = (k, k'')

put_server-keeps : PutKeeps put_server
put_server-keeps b c conn k (k', k'') = (k', k)

module _ {P : Type 0} (parsers : MessageParsers P) (little_endian : Bool) (sockets : Sockets) where
  -- Where both buffers are valid and settled, the message that the client buffer waits for is not
  -- shorter than what it holds, its vector has room for the next read, and `recv` stores no more
  -- than it is asked for: a pass over the side of the client keeps both buffers valid and settled,
  -- unless it ends with the connection closed or with a failed assert.
  pub process_client_side-BothKept :
      (s : ProxyX11Server) (p : P) (c : Proxied) (fd : ℕ)
      → BothKept c
      → CanRead c.client_buffer
      → Obeys (sockets.recv fd (bytes_to_read c.client_buffer)) (bytes_to_read c.client_buffer)
      → SideResult (process_client_side parsers little_endian sockets s p c fd)
  unfolding process_client_side
  process_client_side-BothKept s p c fd (k, k') can obeys =
      process_side-SideResult sockets (log_client_messages parsers little_endian)
        (log_client_messages_lem parsers little_endian) s p c fd client_of put_client server_of
        put_server put_client-keeps put_server-keeps k k' (k, k') can obeys

  -- Under the same conditions on the server buffer, a pass over the side of the server keeps both
  -- buffers valid and settled, unless it ends with the connection closed or with a failed assert.
  pub process_server_side-BothKept :
      (s : ProxyX11Server) (p : P) (c : Proxied) (fd : ℕ)
      → BothKept c
      → CanRead c.server_buffer
      → Obeys (sockets.recv fd (bytes_to_read c.server_buffer)) (bytes_to_read c.server_buffer)
      → SideResult (process_server_side parsers little_endian sockets s p c fd)
  unfolding process_server_side
  process_server_side-BothKept s p c fd (k, k') can obeys =
      process_side-SideResult sockets (log_server_messages parsers little_endian)
        (log_server_messages_lem parsers little_endian) s p c fd server_of put_server client_of
        put_client put_server-keeps put_client-keeps k' k (k, k') can obeys
