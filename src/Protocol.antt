-- ===== src/Protocol.antt =====
-- src/include/protocol/common_types.hpp: the types of the fields of a message, and the packed structs
-- that are made of them. Of a type the model keeps its size and what `_formatVariable`
-- (src/X11ProtocolParser__formatVariable.cpp, src/include/X11ProtocolParser.hpp) asserts of a value.
pub mod Requests
pub mod Replies
pub mod Events
pub mod Errors
use Prim.Native.String.{String}
use text.Mathlib.Text.{◌==◌ as str_eq}
use xtracepp.Base.{
  ℕ, ◌+◌, ◌/◌, ◌%◌, ◌^◌, Bool, true, false, ◌&&◌, ◌||◌, List, [], ◌∷◌, ◌==◌, if◌then◌else◌, Option,
  none, some, Outcome, require,
}
use xtracepp.Wire.ByteOrder.{byte_at, field16, field32}
use xtracepp.Parser.Fields.{Order, u8, u16, u32}

-- `ZERO_BITS` as runs of bits, each with its lowest bit and its length; `exempt` is `ANYMODIFIER`, the
-- value that is formatted before the bits are tested.
pub record FieldType : Type 0 where
  pub sizeof : ℕ
  pub zero_bits : List (ℕ × ℕ)
  pub exempt : Option ℕ

abbrev pub plain : ℕ → FieldType
plain n = record { sizeof = n; zero_bits = []; exempt = none }

-- `uint8_t`, `CARD8`, `INT8`, `BYTE`, `BOOL`, `KEYCODE`, `BUTTON`, `BITGRAVITY` and `WINGRAVITY`.
abbrev pub byte_type : FieldType
byte_type = plain 1

-- `uint16_t`, `CARD16` and `INT16`.
abbrev pub short_type : FieldType
short_type = plain 2

-- `uint32_t`, `CARD32`, `INT32`, `TIMESTAMP` and `KEYSYM`.
abbrev pub long_type : FieldType
long_type = plain 4

-- Bytes that are not used.
abbrev pub unused : ℕ → FieldType
unused n = plain n

-- A `ResourceId`: `WINDOW`, `PIXMAP`, `CURSOR`, `FONT`, `GCONTEXT`, `COLORMAP`, `ATOM`, `VISUALID`, and
-- the unions `DRAWABLE` and `FONTABLE` of these.
abbrev pub resource_id : FieldType
resource_id = record { sizeof = 4; zero_bits = (29, 3) ∷ []; exempt = none }

abbrev pub setofevent : FieldType
setofevent = record { sizeof = 4; zero_bits = (25, 7) ∷ []; exempt = none }

abbrev pub setofpointerevent : FieldType
setofpointerevent = record { sizeof = 2; zero_bits = (0, 2) ∷ (15, 1) ∷ []; exempt = none }

abbrev pub setofdeviceevent : FieldType
setofdeviceevent = record { sizeof = 2; zero_bits = (4, 2) ∷ (7, 1) ∷ (14, 2) ∷ []; exempt = none }

abbrev pub setofkeybutmask : FieldType
setofkeybutmask = record { sizeof = 2; zero_bits = (13, 3) ∷ []; exempt = none }

abbrev pub setofkeymask : FieldType
setofkeymask = record { sizeof = 2; zero_bits = (8, 8) ∷ []; exempt = some 0x8000 }

-- `do_rgb_mask` of a `COLORITEM`, whose zero bits are asserted with it.
abbrev pub do_rgb_type : FieldType
do_rgb_type = record { sizeof = 1; zero_bits = (3, 5) ∷ []; exempt = none }

-- A packed struct: its members one behind the other.
abbrev pub Struct : Type 0
Struct = List (String × FieldType)

unfoldable pub sizeof_struct : Struct → ℕ
sizeof_struct [] = 0
sizeof_struct ((name, t) ∷ members) = t.sizeof + sizeof_struct members

-- Where a member stands from the start of the struct, and its type.
unfoldable pub member_at : String → Struct → ℕ → Option (ℕ × FieldType)
member_at name [] i = none
member_at name ((key, t) ∷ members) i =
    if str_eq key name then some (i, t) else member_at name members (i + t.sizeof)

-- The bytes of a field of 1, 2 or 4 bytes as the host reads them.
unfoldable pub raw_field : Bool → List ℕ → ℕ → ℕ → ℕ
unfolding field16 field32
raw_field little_endian d i n =
    if n == 1
    then byte_at d i
    else if n == 2
    then field16 little_endian d i
    else field32 little_endian d i

-- The same in the byte order of the client: `_ordered`.
unfoldable pub ordered_field : Order → List ℕ → ℕ → ℕ → ℕ
unfolding u8 u16 u32
ordered_field o d i n = if n == 1 then u8 o d i else if n == 2 then u16 o d i else u32 o d i

-- `( data & ZERO_BITS ) == 0`.
unfoldable pub bits_clear : List (ℕ × ℕ) → ℕ → Bool
bits_clear [] raw = true
bits_clear ((low, n) ∷ runs) raw = (raw / 2 ^ low % 2 ^ n == 0) && bits_clear runs raw

abbrev is_exempt : Option ℕ → ℕ → Bool
is_exempt none raw = false
is_exempt (some v) raw = raw == v

-- `_formatVariable`: what it asserts of the field at `i`. It tests the bytes as the host reads them,
-- also where they are swapped before they are printed.
unfoldable pub format_variable : Order → List ℕ → ℕ → FieldType → Outcome (Unit {0})
unfolding raw_field bits_clear
format_variable o d i t =
    let raw = raw_field o.little_endian d i t.sizeof in
    require (is_exempt t.exempt raw || bits_clear t.zero_bits raw)

-- A member of a struct that starts at `base`. C++ has no program for a name that the struct lacks;
-- 0, and nothing to format, here.
abbrev value_of : Order → List ℕ → ℕ → Option (ℕ × FieldType) → ℕ
value_of o d base none = 0
value_of o d base (some (i, t)) = ordered_field o d (base + i) t.sizeof

unfoldable pub member : Order → List ℕ → ℕ → Struct → String → ℕ
unfolding member_at ordered_field
member o d base s name = value_of o d base (member_at name s 0)

abbrev format_found : Order → List ℕ → ℕ → Option (ℕ × FieldType) → Outcome (Unit {0})
format_found o d base none = require true
format_found o d base (some (i, t)) = format_variable o d (base + i) t

unfoldable pub format_member : Order → List ℕ → ℕ → Struct → String → Outcome (Unit {0})
unfolding member_at format_variable
format_member o d base s name = format_found o d base (member_at name s 0)

-- A member that the code reads without `_ordered`.
abbrev raw_of : Order → List ℕ → ℕ → Option (ℕ × FieldType) → ℕ
raw_of o d base none = 0
raw_of o d base (some (i, t)) = raw_field o.little_endian d (base + i) t.sizeof

unfoldable pub raw_member : Order → List ℕ → ℕ → Struct → String → ℕ
unfolding member_at raw_field
raw_member o d base s name = raw_of o d base (member_at name s 0)
