-- ===== src/Parser/Extensions.antt =====
-- The messages that change more than a log: InternAtom and QueryExtension of
-- src/X11ProtocolParser__parseRequest.cpp and src/X11ProtocolParser__parseReply.cpp,
-- `_enableExtensionParsing` of src/X11ProtocolParser.cpp, and the extension BIG-REQUESTS of
-- src/extensions. A function answers the parser, the connection, the message where it writes to
-- it, and the bytes that it parsed.
pub mod Denied
pub mod Lasting
use Prim.Native.String.{String}
use text.Mathlib.Text.{◌==◌ as str_eq}
use xtracepp.Base.{
  ℕ, zero, suc, ◌+◌, Bool, true, false, not, List, [], ◌∷◌, leb, ◌==◌, if◌then◌else◌, Option, none,
  some, Outcome, ok, aborted, require, ◌>>=◌, ◌>>◌, find, emplace,
}
use xtracepp.Session.{Connection, big_requests_name, extension_enabled, enable_extension}
use xtracepp.Settings.{Choices, allowed_extensions}
use xtracepp.Parser.Fields.{u8, u16, u32}
use xtracepp.Parser.Messages.{order_of}
use xtracepp.Protocol.{Struct, byte_type, short_type, long_type, unused}
use xtracepp.Protocol.Requests.{Layout}
use xtracepp.Protocol.Requests.Properties.{intern_atom}
use xtracepp.Protocol.Requests.Control.{query_extension}
use xtracepp.Parser.Requests.{
  RequestParser, fixed_encoding, parsing_of, encoding_member, length_of_short, parse_any,
}
use xtracepp.Parser.Requests.Suffixes.{no_suffix}
use xtracepp.Parser.Requests.Properties.{parse_intern_atom}
use xtracepp.Parser.Requests.Control.{parse_query_extension}
use xtracepp.Parser.Replies.{ReplyParser, parse_reply}
use xtracepp.Parser.Replies.Suffixes.{nothing_more}
use xtracepp.Parser.Replies.Windows.{parse_intern_atom_reply}
use xtracepp.Parser.Replies.Control.{parse_query_extension_reply}
use xtracepp.Parser.Replies.Core.{is_core_request}
use xtracepp.Parser.Stash.{
  Memory, View, Extension, big_requests, ParserState, stash_string, unstash_string, read_view,
  name_bytes, bytes_eq,
}

-- `_extensions`, by name.
abbrev pub extensions : List (String × Extension)
extensions = (big_requests_name, big_requests) ∷ []

unfoldable pub find_extension : List ℕ → List (String × Extension) → Option (String × Extension)
unfolding name_bytes bytes_eq
find_extension name [] = none
find_extension name ((key, extension) ∷ rest) =
    if bytes_eq (name_bytes key) name then some (key, extension) else find_extension name rest

-- `extensionDenied` of a name that was read from a message.
unfoldable pub has_name : List ℕ → List String → Bool
unfolding name_bytes bytes_eq
has_name name [] = false
has_name name (key ∷ keys) = if bytes_eq (name_bytes key) name then true else has_name name keys

unfoldable pub name_denied : Choices → List ℕ → Bool
unfolding has_name allowed_extensions
name_denied choices name = not (has_name name (allowed_extensions choices))

-- A byte of the message is overwritten.
unfoldable pub put_byte : ℕ → ℕ → List ℕ → List ℕ
put_byte i b [] = []
put_byte zero b (x ∷ d) = b ∷ d
put_byte (suc i) b (x ∷ d) = x ∷ put_byte i b d

-- The extension found gets the major opcode, unless that has functions already. BIG-REQUESTS, the only
-- one, has neither events nor errors.
abbrev enable_found : Option (String × Extension) → ParserState → ℕ → Outcome (String × ParserState)
enable_found none p major = aborted
enable_found (some (key, extension)) p major =
    ok (key, record p { major_opcodes = emplace major extension p.major_opcodes })

unfoldable pub enable_extension_parsing :
    Choices → ParserState → List ℕ → ℕ → Outcome (String × ParserState)
unfolding name_denied find_extension is_core_request
enable_extension_parsing choices p name major = do
  require (not (name_denied choices name))
  (key, q) ← enable_found (find_extension name extensions) p major
  ok (key, if is_core_request major then p else q)

abbrev pub StateRequest : Type 0
StateRequest = ParserState → Connection → List ℕ → ℕ → Outcome (ParserState × Connection × ℕ)

abbrev pub StateReply : Type 0
StateReply = ParserState → Connection → List ℕ → ℕ → Outcome (ParserState × Connection × List ℕ × ℕ)

-- `requests::impl::SimpleRequest` of the extensions: a header with two opcodes.
abbrev pub extension_request : Layout
extension_request = record {
  prefix = ("major_opcode", byte_type) ∷ ("minor_opcode", byte_type) ∷ [];
  encoding = none;
}

abbrev pub big_req_enable_reply : Struct
big_req_enable_reply =
    ("header.reply", byte_type)
    ∷ ("unused", unused 1)
    ∷ ("header.sequence_num", short_type)
    ∷ ("header.extra_aligned_units", long_type)
    ∷ ("maximum_request_length", long_type)
    ∷ ("unused", unused 20)
    ∷ []

module _ (little_endian : Bool) where
  -- The name is stashed as a view of the bytes behind the fixed part.
  unfoldable pub stash_name : Layout → ParserState → Connection → List ℕ → ℕ → Outcome ParserState
  unfolding fixed_encoding encoding_member stash_string
  stash_name l p conn d sz = do
    fe ← fixed_encoding little_endian l conn d sz
    let name_len = encoding_member (parsing_of little_endian l conn d sz fe) "name_len"
    stash_string p conn.id conn.sequence
        (record { at = p.memory.address d + fe.bytes_parsed; len = name_len })

  unfoldable pub intern_atom_request : StateRequest
  unfolding parse_intern_atom stash_name
  intern_atom_request p conn d sz = do
    bytes_parsed ← parse_intern_atom little_endian conn d sz
    q ← stash_name intern_atom p conn d sz
    ok (q, conn, bytes_parsed)

  unfoldable pub query_extension_request : StateRequest
  unfolding parse_query_extension stash_name
  query_extension_request p conn d sz = do
    bytes_parsed ← parse_query_extension little_endian conn d sz
    q ← stash_name query_extension p conn d sz
    ok (q, conn, bytes_parsed)

  -- The atom `NONE` takes nothing from the stash.
  unfoldable pub intern_atom_reply_changes : StateReply
  unfolding parse_intern_atom_reply unstash_string u16 u32
  intern_atom_reply_changes p conn d sz = do
    let o = order_of little_endian conn
    bytes_parsed ← parse_intern_atom_reply little_endian conn d sz
    elim (u32 o d 8 == 0) [
      | true ↦ ok (p, conn, d, bytes_parsed)
      | false ↦ do (view, q) ← unstash_string p conn.id (u16 o d 2); ok (q, conn, d, bytes_parsed)
    ]

  -- An extension other than BIG-REQUESTS is enabled for the connection at once.
  abbrev enable_for : String → Connection → Outcome Connection
  enable_for key conn =
      if str_eq key big_requests_name
      then ok conn
      else (do require (not (extension_enabled conn key)); ok (enable_extension conn key))

  -- What is done where the reply that goes to the client has `present` set.
  unfoldable pub enable_present :
      Choices
      → ParserState
      → Connection
      → List ℕ
      → List ℕ
      → ℕ
      → Outcome (ParserState × Connection × List ℕ × ℕ)
  unfolding enable_extension_parsing extension_enabled enable_extension u8
  enable_present choices p conn name sent bytes_parsed =
      let o = order_of little_endian conn in
      elim (u8 o sent 8 == 0) [
        | true ↦ ok (p, conn, sent, bytes_parsed)
        | false ↦ do
          (key, q) ← enable_extension_parsing choices p name (u8 o sent 9)
          after ← enable_for key conn
          ok (q, after, sent, bytes_parsed)
      ]

  -- Where the extension is denied, `present` is set to 0 in the message itself.
  unfoldable pub query_extension_reply_changes : Choices → StateReply
  unfolding parse_query_extension_reply unstash_string read_view name_denied put_byte enable_present
      u16
  query_extension_reply_changes choices p conn d sz = do
    bytes_parsed ← parse_query_extension_reply little_endian conn d sz
    (view, q) ← unstash_string p conn.id (u16 (order_of little_endian conn) d 2)
    let name = read_view p.memory view
    enable_present choices q conn name (if name_denied choices name then put_byte 8 0 d else d)
        bytes_parsed

  unfoldable pub parse_extension_request : RequestParser
  unfolding parse_any
  parse_extension_request = parse_any little_endian extension_request no_suffix length_of_short []

  unfoldable pub parse_big_req_enable : RequestParser
  unfolding parse_extension_request u8
  parse_big_req_enable conn d sz = do
    require (leb 2 sz)
    require (u8 (order_of little_endian conn) d 1 == 0)
    parse_extension_request conn d sz

  unfoldable pub parse_big_req_enable_reply : ReplyParser
  unfolding parse_reply
  parse_big_req_enable_reply =
      parse_reply little_endian big_req_enable_reply nothing_more ("maximum_request_length" ∷ [])

  -- The connection may send long requests from now on, and was not allowed to before.
  unfoldable pub big_req_enable_reply_changes : StateReply
  unfolding parse_big_req_enable_reply extension_enabled enable_extension
  big_req_enable_reply_changes p conn d sz = do
    bytes_parsed ← parse_big_req_enable_reply conn d sz
    require (not (extension_enabled conn big_requests_name))
    ok (p, enable_extension conn big_requests_name, d, bytes_parsed)
