-- ===== src/Parser/Framing.antt =====
-- src/X11ProtocolParser.cpp: `logClientMessages` and `logServerMessages`. Each round of the loop finds
-- the size of the next message, waits if it is incomplete, and else logs it and marks it as parsed.
-- `data` is the offset into the vector that the pointer stands at.
pub mod Rounds
pub mod Sizes
pub mod Loops
pub mod Requests
pub mod Whole
pub mod Streams
pub mod Reentry
unfoldable pub use xtracepp.Parser.Sizing.{
  Sizing, bytes_from, size_initiation, size_request, size_client, size_init_response, size_response,
  size_server,
}
use xtracepp.Base.{
  ℕ, zero, suc, ◌+◌, ◌-◌, ◌*◌, ◌≤◌, ◌<◌, ◌≡◌, refl, Bool, true, false, not, ◌&&◌, ◌||◌, List, [],
  ◌∷◌, ◌++◌, ltb, leb, ◌==◌, if◌then◌else◌, drop, take, length, Option, none, some, Outcome, ok,
  aborted, exited, require, ◌>>=◌, ◌>>◌,
}
use xtracepp.Buffer.{
  SocketBuffer, size, message_size_set, set_message_size, incomplete_message, mark_message_parsed,
  blit,
}
use xtracepp.Wire.Alignment.{pad, aligned_size}
use xtracepp.Wire.ByteOrder.{byte_at, field16, byteswap_for}
use xtracepp.Session.{Connection, Status, unestablished, open_, closed, failed, authentication}
use xtracepp.Parser.Fields.{Order, u8, u16, u32}
use xtracepp.Parser.Setup.{known_order, log_initiation, log_init_response}
use xtracepp.Parser.Messages.{
  MessageParsers, order_of, log_request, log_reply, log_event, log_error,
}

pub record Framed (P : Type 0) : Type 0 where
  pub parser : P
  pub conn : Connection
  pub buffer : SocketBuffer
  pub data_ : ℕ
  pub total : ℕ

-- A round ends the loop, ends it with an error, or goes on.
pub data Round (P : Type 0) : Type 0 where
  stops : Framed P → Round P
  refuses : Framed P → Round P
  goes_on : Framed P → Round P

-- The loop's result: where it stopped, and whether it answers an error.
pub record Logged (P : Type 0) : Type 0 where
  pub final : Framed P
  pub error : Bool

module _ {P : Type 0} where
  -- `while ( buffer.parsed() < buffer.size() )`. `none`: no fuel left.
  unfoldable pub frame_loop :
      (Framed P → Outcome (Round P)) → ℕ → Framed P → Option (Outcome (Logged P))
  unfolding size
  frame_loop round zero s = none
  frame_loop round (suc fuel) s = elim (ltb s.buffer.bytes_parsed (size s.buffer)) [
    | false ↦ some (ok (record { final = s; error = false }))
    | true ↦ elim (round s) [
      | ok r ↦ elim r [
        | stops t ↦ some (ok (record { final = t; error = false }))
        | refuses t ↦ some (ok (record { final = t; error = true }))
        | goes_on t ↦ frame_loop round fuel t
      ]
      | aborted ↦ some aborted
      | exited ↦ some exited
    ]
  ]

abbrev pub is_open : Status → Bool
is_open open_ = true
is_open _ = false

module _ {P : Type 0} (parsers : MessageParsers P) (little_endian : Bool) where
  -- What logging a message answers: the state, the message, and the bytes parsed.
  abbrev pub Message : Type 0
  Message = Outcome (P × Connection × List ℕ × ℕ)

  unfoldable pub log_client : Status → P → Connection → List ℕ → ℕ → Message
  unfolding log_initiation log_request
  log_client unestablished p conn d sz = do
    bytes_parsed ← log_initiation (order_of little_endian conn) d sz
    ok (p, conn, d, bytes_parsed)
  log_client open_ p conn d sz = do
    (q, after, bytes_parsed) ← log_request parsers little_endian p conn d sz
    ok (q, after, d, bytes_parsed)
  log_client authentication p conn d sz = aborted
  log_client closed p conn d sz = ok (p, conn, d, 0)
  log_client failed p conn d sz = ok (p, conn, d, 0)

  unfoldable pub log_response : P → Connection → List ℕ → ℕ → Message
  unfolding u8 log_error log_reply log_event
  log_response p conn d sz =
      let prefix = u8 (order_of little_endian conn) d 0 in
      if prefix == 0
      then (do
        (after, bytes_parsed) ← log_error parsers little_endian p conn d sz
        ok (p, after, d, bytes_parsed))
      else if prefix == 1
      then log_reply parsers little_endian p conn d sz
      else (do
        bytes_parsed ← log_event parsers little_endian p conn d sz
        ok (p, conn, d, bytes_parsed))

  -- After the server's answer to the initiation the connection has to be open.
  unfoldable pub log_server : Status → P → Connection → List ℕ → ℕ → Message
  unfolding log_init_response log_response
  log_server unestablished p conn d sz = do
    (status, bytes_parsed) ← log_init_response (order_of little_endian conn) conn.status d sz
    require (is_open status)
    ok (p, record conn { status = status }, d, bytes_parsed)
  log_server open_ p conn d sz = log_response p conn d sz
  log_server authentication p conn d sz = aborted
  log_server closed p conn d sz = ok (p, conn, d, 0)
  log_server failed p conn d sz = ok (p, conn, d, 0)

module _ {P : Type 0} where
  -- Once a message is logged: it has to be parsed whole, and the loop moves past it.
  unfoldable pub finish_message : Framed P → P × Connection × List ℕ × ℕ → Outcome (Round P)
  unfolding mark_message_parsed blit
  finish_message s (q, conn, message, bytes_parsed) = do
    let message_sz = s.buffer.next_message_sz
    require (bytes_parsed == message_sz)
    marked ← mark_message_parsed s.buffer
    ok (
        goes_on (record {
          parser = q;
          conn = conn;
          buffer = record marked {
            storage = blit s.buffer.storage s.data_ (take message_sz message);
          };
          data_ = s.data_ + bytes_parsed;
          total = s.total + bytes_parsed;
        }))

  -- The end of a round, common to both loops: `length_checks` and what follows it.
  unfoldable pub finish_round :
      (Status → P → Connection → List ℕ → ℕ → Outcome (P × Connection × List ℕ × ℕ))
      → Framed P
      → Outcome (Round P)
  unfolding message_size_set incomplete_message finish_message
  finish_round log s =
      if not (message_size_set s.buffer)
      then ok (stops s)
      else if incomplete_message s.buffer
      then ok (stops s)
      else log s.conn.status s.parser s.conn (bytes_from s.buffer s.data_) s.buffer.next_message_sz
        >>= finish_message s

  abbrev pub sized_round :
      (Status → P → Connection → List ℕ → ℕ → Outcome (P × Connection × List ℕ × ℕ))
      → Framed P
      → Sizing
      → Outcome (Round P)
  sized_round log s sizing = sizing >>= elim [
    | none ↦ ok (refuses s)
    | some (conn, b) ↦ finish_round log (record s { conn = conn; buffer = b })
  ]

  unfoldable pub round_of :
      (Status → Connection → SocketBuffer → List ℕ → Sizing)
      → (Status → P → Connection → List ℕ → ℕ → Outcome (P × Connection × List ℕ × ℕ))
      → Framed P
      → Outcome (Round P)
  unfolding finish_round message_size_set
  round_of sizes log s =
      if message_size_set s.buffer
      then finish_round log s
      else sized_round log s (sizes s.conn.status s.conn s.buffer (bytes_from s.buffer s.data_))

  abbrev pub start : P → Connection → SocketBuffer → Framed P
  start p conn b = record {
    parser = p;
    conn = conn;
    buffer = b;
    data_ = b.bytes_written;
    total = 0;
  }

module _ {P : Type 0} (parsers : MessageParsers P) (little_endian : Bool) where
  unfoldable pub client_round : Framed P → Outcome (Round P)
  unfolding round_of size_client log_client
  client_round = round_of (size_client little_endian) (log_client parsers little_endian)

  unfoldable pub server_round : Framed P → Outcome (Round P)
  unfolding round_of size_server log_server
  server_round = round_of (size_server little_endian) (log_server parsers little_endian)

  unfoldable pub log_client_messages : P → Connection → SocketBuffer → Option (Outcome (Logged P))
  unfolding frame_loop client_round size
  log_client_messages p conn b = frame_loop client_round (suc (size b)) (start p conn b)

  unfoldable pub log_server_messages : P → Connection → SocketBuffer → Option (Outcome (Logged P))
  unfolding frame_loop server_round size
  log_server_messages p conn b = frame_loop server_round (suc (size b)) (start p conn b)
