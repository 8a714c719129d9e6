-- ===== src/Parser/Messages.antt =====
-- src/X11ProtocolParser.cpp: `_logRequest`, `_logReply`, `_logEvent` and `_logError`.
use xtracepp.Base.{
  ℕ, ◌%◌, Bool, not, ◌||◌, List, leb, ◌==◌, if◌then◌else◌, Outcome, ok, require, ◌>>=◌, ◌>>◌,
}
use xtracepp.Session.{Connection, register_request, lookup_request, unregister_request}
use xtracepp.Parser.Fields.{Order, u8, u16}

-- The parsing functions that the tables `_major_opcodes`, `_event_codes` and `_error_codes` hold for
-- an opcode or a code, the functions for unknown opcodes included; a code that a table lacks is
-- `aborted`, since `at` throws. `P` is what else the parser keeps: stashed strings, atoms, tables.
-- A function answers the number of bytes that it parsed. The one for a reply may write into the
-- message, which it answers too.
pub record MessageParsers (P : Type 0) : Type 0 where
  pub request : ℕ → ℕ → P → Connection → List ℕ → ℕ → Outcome (P × Connection × ℕ)
  pub reply : ℕ → ℕ → P → Connection → List ℕ → ℕ → Outcome (P × Connection × List ℕ × ℕ)
  pub event : ℕ → P → Connection → List ℕ → ℕ → Outcome ℕ
  pub error : ℕ → P → Connection → List ℕ → ℕ → Outcome ℕ

abbrev pub order_of : Bool → Connection → Order
order_of little_endian conn = record { little_endian = little_endian; byteswap = conn.byteswap }

-- `protocol::requests::opcodes::LISTFONTSWITHINFO`.
abbrev pub list_fonts_with_info : ℕ
list_fonts_with_info = 50

module _ {P : Type 0} (parsers : MessageParsers P) (little_endian : Bool) where
  -- The request is registered with its major opcode alone, so that its minor opcode is 0.
  unfoldable pub log_request : P → Connection → List ℕ → ℕ → Outcome (P × Connection × ℕ)
  unfolding register_request u8
  log_request p conn d sz = do
    require (leb 4 sz)
    let o = order_of little_endian conn
    let registered = (register_request conn (u8 o d 0) 0).0
    (q, after, bytes_parsed) ← parsers.request (u8 o d 0) (u8 o d 1) p registered d sz
    require (not (bytes_parsed == 0))
    require (leb bytes_parsed sz)
    ok (q, after, bytes_parsed)

  -- A reply closes its request, but one of ListFontsWithInfo that is not the last leaves it open.
  unfoldable pub log_reply : P → Connection → List ℕ → ℕ → Outcome (P × Connection × List ℕ × ℕ)
  unfolding lookup_request unregister_request u8 u16
  log_reply p conn d sz = do
    require (leb 32 sz)
    let o = order_of little_endian conn
    require (u8 o d 0 == 1)
    let sequence = u16 o d 2
    opcodes ← lookup_request conn sequence
    (q, after, d', bytes_parsed) ← parsers.reply opcodes.major opcodes.minor p conn d sz
    let closed =
        if not (opcodes.major == list_fonts_with_info) || u8 o d' 1 == 0
        then unregister_request after sequence
        else after
    require (not (bytes_parsed == 0))
    require (leb bytes_parsed sz)
    ok (q, closed, d', bytes_parsed)

  unfoldable pub log_event : P → Connection → List ℕ → ℕ → Outcome ℕ
  unfolding u8
  log_event p conn d sz = do
    require (leb 32 sz)
    let code = u8 (order_of little_endian conn) d 0 % 128
    bytes_parsed ← parsers.event code p conn d sz
    require (bytes_parsed == 32)
    ok bytes_parsed

  unfoldable pub log_error : P → Connection → List ℕ → ℕ → Outcome (Connection × ℕ)
  unfolding unregister_request u8 u16
  log_error p conn d sz = do
    require (leb 32 sz)
    let o = order_of little_endian conn
    require (u8 o d 0 == 0)
    bytes_parsed ← parsers.error (u8 o d 1) p conn d sz
    ok (unregister_request conn (u16 o d 2), bytes_parsed)
