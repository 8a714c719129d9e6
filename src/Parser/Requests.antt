-- ===== src/Parser/Requests.antt =====
-- `_RequestFixedEncoding` of src/include/X11ProtocolParser.hpp, and what the functions of
-- src/X11ProtocolParser__parseRequest.cpp share: each reads the fixed part through its structs, then
-- the suffix, asserts the length, and formats the members. They answer the bytes that they parsed.
pub mod Suffixes
pub mod Windows
pub mod Properties
pub mod Grabs
pub mod Fonts
pub mod Contexts
pub mod Drawing
pub mod Colors
pub mod Control
pub mod Core
pub mod Whole
pub mod Accepts
pub mod Values
pub mod Arcs
pub mod Swapped
use Prim.Native.String.{String}
use xtracepp.Base.{
  ℕ, ◌+◌, Bool, true, not, List, [], ◌∷◌, leb, ◌==◌, if◌then◌else◌, Outcome, ok, require, ◌>>=◌,
  ◌>>◌, add_u32,
}
use xtracepp.Wire.Alignment.{units}
use xtracepp.Session.{Connection, big_requests_name, extension_enabled}
use xtracepp.Parser.Fields.{Order, u8, u16, u32}
use xtracepp.Parser.Messages.{order_of}
use xtracepp.Protocol.{sizeof_struct, member, format_member}
use xtracepp.Protocol.Requests.{Layout, encoding_of, base_encoding_sz, base_big_encoding_sz}

-- The bytes of the header and the encoding, whether the length is that of BIG-REQUESTS, and the
-- length in units of four bytes.
pub record FixedEncoding : Type 0 where
  pub bytes_parsed : ℕ
  pub big_request : Bool
  pub tl_aligned_units : ℕ
  pub encoding_at : ℕ

-- The size that the asserts compare with: that of the request's own header.
unfoldable pub base_sz : Layout → Bool → ℕ
unfolding base_encoding_sz base_big_encoding_sz
base_sz l big_request = if big_request then base_big_encoding_sz l else base_encoding_sz l

abbrev pub fixed_of : Order → Layout → List ℕ → Bool → FixedEncoding
fixed_of o l d big_request =
    let length_at = sizeof_struct l.prefix in
    let encoding_at = if big_request then length_at + 6 else length_at + 2 in
    record {
      bytes_parsed = encoding_at + sizeof_struct (encoding_of l.encoding);
      big_request = big_request;
      tl_aligned_units = if big_request then u32 o d (length_at + 2) else u16 o d length_at;
      encoding_at = encoding_at;
    }

unfoldable pub fixed_encoding : Bool → Layout → Connection → List ℕ → ℕ → Outcome FixedEncoding
unfolding sizeof_struct base_sz extension_enabled u16 u32
fixed_encoding little_endian l conn d sz = do
  require (leb (base_encoding_sz l) sz)
  let o = order_of little_endian conn
  let big_request = u16 o d (sizeof_struct l.prefix) == 0
  require (if big_request then extension_enabled conn big_requests_name else true)
  let fe = fixed_of o l d big_request
  require (fe.bytes_parsed == base_sz l big_request)
  ok fe

-- What a function for a request has at hand once the fixed part is read.
pub record Parsing : Type 0 where
  pub layout : Layout
  pub order : Order
  pub conn : Connection
  pub message : List ℕ
  pub sz : ℕ
  pub fixed : FixedEncoding

-- `_ordered( fe.prefix->name )` and `_ordered( fe.encoding->name )`.
unfoldable pub prefix_member : Parsing → String → ℕ
unfolding member
prefix_member r name = member r.order r.message 0 r.layout.prefix name

unfoldable pub encoding_member : Parsing → String → ℕ
unfolding member
encoding_member r name =
    member r.order r.message r.fixed.encoding_at (encoding_of r.layout.encoding) name

-- What follows the fixed part: how much is added to `bytes_parsed`.
abbrev pub Suffix : Type 0
Suffix = Parsing → Outcome ℕ

-- The two forms of the last assert. In the first, `?:` binds looser than `==`, so that a request with
-- a long length only has to have one that is not 0.
pub data LengthCheck : Type 0 where
  length_of_short exact_length : LengthCheck

unfoldable pub length_holds : LengthCheck → FixedEncoding → ℕ → Bool
unfolding units
length_holds length_of_short fe bytes_parsed =
    if fe.big_request
    then not (fe.tl_aligned_units == 0)
    else fe.tl_aligned_units == units bytes_parsed
length_holds exact_length fe bytes_parsed = fe.tl_aligned_units == units bytes_parsed

-- The members that the text shows.
pub data Shown : Type 0 where
  in_prefix : String → Shown
  in_encoding : String → Shown

unfoldable pub format_shown : Parsing → Shown → Outcome (Unit {0})
unfolding format_member
format_shown r (in_prefix name) = format_member r.order r.message 0 r.layout.prefix name
format_shown r (in_encoding name) =
    format_member r.order r.message r.fixed.encoding_at (encoding_of r.layout.encoding) name

unfoldable pub format_all : Parsing → List Shown → Outcome (Unit {0})
unfolding format_shown
format_all r [] = ok tt
format_all r (shown ∷ rest) = format_shown r shown >> format_all r rest

-- A function of `_parseRequest`.
abbrev pub RequestParser : Type 0
RequestParser = Connection → List ℕ → ℕ → Outcome ℕ

-- From the end of the fixed part on.
unfoldable pub parse_rest : Suffix → LengthCheck → List Shown → Parsing → Outcome ℕ
unfolding length_holds format_all
parse_rest suffix check shown r = do
  suffix_sz ← suffix r
  let bytes_parsed = add_u32 r.fixed.bytes_parsed suffix_sz
  require (length_holds check r.fixed bytes_parsed)
  format_all r shown
  ok bytes_parsed

module _ (little_endian : Bool) where
  abbrev pub parsing_of : Layout → Connection → List ℕ → ℕ → FixedEncoding → Parsing
  parsing_of l conn d sz fe = record {
    layout = l;
    order = order_of little_endian conn;
    conn = conn;
    message = d;
    sz = sz;
    fixed = fe;
  }

  -- The functions for `impl::SimpleRequest` and the like, which test no opcode.
  unfoldable pub parse_any : Layout → Suffix → LengthCheck → List Shown → RequestParser
  unfolding fixed_encoding parse_rest
  parse_any l suffix check shown conn d sz = fixed_encoding little_endian l conn d sz >>= λ fe.
      parse_rest suffix check shown (parsing_of l conn d sz fe)

  -- Those for a request of its own, which assert the opcode.
  unfoldable pub parse_own : Layout → ℕ → Suffix → LengthCheck → List Shown → RequestParser
  unfolding parse_any u8
  parse_own l opcode suffix check shown conn d sz =
      parse_any l (λ r. require (u8 r.order r.message 0 == opcode) >> suffix r) check shown conn d
        sz

  -- Those that hand the message to the function of a base class.
  unfoldable pub parse_as : ℕ → RequestParser → RequestParser
  unfolding u8
  parse_as opcode base conn d sz = do
    require (leb 2 sz)
    require (u8 (order_of little_endian conn) d 0 == opcode)
    base conn d sz
