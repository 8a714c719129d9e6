-- ===== src/Parser/Sizing.antt =====
-- src/X11ProtocolParser.cpp: how `logClientMessages` and `logServerMessages` find the size of the next
-- message. `d` is the memory that `data` points at.
use xtracepp.Base.{
  ℕ, ◌+◌, Bool, List, ltb, ◌==◌, if◌then◌else◌, drop, Option, none, some, Outcome, ok, require,
  ◌>>=◌, ◌>>◌,
}
use xtracepp.Buffer.{SocketBuffer, size, set_message_size}
use xtracepp.Wire.Alignment.{pad, aligned_size}
use xtracepp.Wire.ByteOrder.{byte_at, field16, byteswap_for}
use xtracepp.Session.{Connection, Status, unestablished, open_, closed, failed, authentication}
use xtracepp.Parser.Fields.{u8, u16, u32}
use xtracepp.Parser.Setup.{known_order}
use xtracepp.Parser.Messages.{order_of}

-- Between two rounds: the connection and the buffer once the size of the message has been looked
-- for, which may have stayed unknown; `none` where the connection is in authentication.
abbrev pub Sizing : Type 0
Sizing = Outcome (Option (Connection × SocketBuffer))

-- The bytes from `data` to the end of the vector.
abbrev pub bytes_from : SocketBuffer → ℕ → List ℕ
bytes_from b data_ = drop data_ b.storage

module _ (little_endian : Bool) where
  unfoldable pub size_initiation : Connection → SocketBuffer → List ℕ → Sizing
  unfolding size set_message_size byteswap_for u16
  size_initiation conn b d = if ltb (size b) 12 then ok (some (conn, b)) else (do
    require (known_order (byte_at d 0))
    let conn' = record conn { byteswap = byteswap_for little_endian (byte_at d 0) }
    let o = order_of little_endian conn'
    b' ← set_message_size b (12 + pad (u16 o d 6) + pad (u16 o d 8))
    ok (some (conn', b')))

  -- A length field of 0 announces the 32-bit length of BIG-REQUESTS.
  unfoldable pub size_request : Connection → SocketBuffer → List ℕ → Sizing
  unfolding size set_message_size field16 u16 u32
  size_request conn b d =
      if ltb (size b) 4
      then ok (some (conn, b))
      else if field16 little_endian d 2 == 0
      then (if ltb (size b) 8 then ok (some (conn, b)) else (do
        b' ← set_message_size b (aligned_size (u32 (order_of little_endian conn) d 4))
        ok (some (conn, b'))))
      else (do
        b' ← set_message_size b (aligned_size (u16 (order_of little_endian conn) d 2))
        ok (some (conn, b')))

  unfoldable pub size_client : Status → Connection → SocketBuffer → List ℕ → Sizing
  unfolding size_initiation size_request
  size_client unestablished conn b d = size_initiation conn b d
  size_client authentication conn b d = ok none
  size_client open_ conn b d = size_request conn b d
  size_client closed conn b d = ok (some (conn, b))
  size_client failed conn b d = ok (some (conn, b))

  unfoldable pub size_init_response : Connection → SocketBuffer → List ℕ → Sizing
  unfolding size set_message_size u16
  size_init_response conn b d = if ltb (size b) 8 then ok (some (conn, b)) else (do
    b' ← set_message_size b (8 + aligned_size (u16 (order_of little_endian conn) d 6))
    ok (some (conn, b')))

  unfoldable pub size_response : Connection → SocketBuffer → List ℕ → Sizing
  unfolding size set_message_size u8 u32
  size_response conn b d = if ltb (size b) 4 then ok (some (conn, b)) else (do
    let o = order_of little_endian conn
    let message_sz = if u8 o d 0 == 1 then 32 + aligned_size (u32 o d 4) else 32
    b' ← set_message_size b message_sz
    ok (some (conn, b')))

  unfoldable pub size_server : Status → Connection → SocketBuffer → List ℕ → Sizing
  unfolding size_init_response size_response
  size_server unestablished conn b d = size_init_response conn b d
  size_server authentication conn b d = ok none
  size_server open_ conn b d = size_response conn b d
  size_server closed conn b d = ok (some (conn, b))
  size_server failed conn b d = ok (some (conn, b))
