-- ===== src/Parser/Requests/Whole.antt =====
-- src/X11ProtocolParser__parseRequest.cpp: the asserts on the length of a request. What a function for
-- a request answers is a multiple of four, and the whole request where the length is a short one.
pub mod Suffixes
pub mod Windows
pub mod Properties
pub mod Grabs
pub mod Fonts
pub mod Contexts
pub mod Drawing
pub mod Colors
pub mod Control
pub mod Core
use Prim.Native.String.{String}
use xtracepp.Base.{
  ℕ, ◌+◌, ◌*◌, ◌/◌, ◌%◌, ◌^◌, ◌≤◌, ◌<◌, ◌≡◌, ◌≢◌, refl, sym, ap, subst, ◌∙◌, inl, inr, Bool, true,
  false, not, List, [], ◌∷◌, arith, leb, ◌==◌, if◌then◌else◌, Bool-cases, Outcome, ok, require,
  ◌>>=◌, ◌>>◌, >>=-eq-ok, require-eq-ok, ok-injective, add_u32, add_size,
}
use xtracepp.Wire.Alignment.{pad, units, aligned_size}
use xtracepp.Wire.ByteOrder.{field16, ordered16, bswap16}
use xtracepp.Session.{Connection, big_requests_name, extension_enabled}
use xtracepp.Parser.Fields.{Order, u8, u16, u32, u16-lt}
use xtracepp.Parser.Messages.{order_of}
use xtracepp.Parser.Framing.Requests.{request_size}
use xtracepp.Protocol.{sizeof_struct}
use xtracepp.Protocol.Requests.{Layout, encoding_of, base_encoding_sz}
use xtracepp.Parser.Requests.{
  FixedEncoding, fixed_of, fixed_encoding, base_sz, Parsing, Suffix, LengthCheck, length_of_short,
  exact_length, length_holds, Shown, format_all, RequestParser, parse_rest, parsing_of, parse_any,
  parse_own, parse_as,
}

-- A length field of 0, read in either order.
u16-field16 : (o : Order) (d : List ℕ) (i : ℕ) → field16 o.little_endian d i ≢ 0 → u16 o d i ≢ 0
unfolding u16 ordered16 bswap16 field16
u16-field16 o d i h = ground arith

abbrev pub IsWhole : Bool → RequestParser → Type 0
IsWhole little_endian parser =
    (conn : Connection) (d : List ℕ) (sz n : ℕ)
    → parser conn d sz ≡ ok n
    → (n % 4 ≡ 0)
      × (field16 little_endian d 2 ≢ 0 → n ≡ request_size (order_of little_endian conn) d)

-- A layout whose header and encoding are whole units, with a prefix of two bytes.
pub record IsAlignedLayout (l : Layout) : Type 0 where
  pub two_bytes : sizeof_struct l.prefix ≡ 2
  pub aligned : (sizeof_struct (encoding_of l.encoding)) % 4 ≡ 0

-- A suffix of whole units.
abbrev pub IsAligned : Suffix → Type 0
IsAligned suffix = (r : Parsing) (n : ℕ) → IsAlignedLayout r.layout → suffix r ≡ ok n → n % 4 ≡ 0

-- What the fixed part answers on a message.
record Reads (o : Order) (d : List ℕ) (fe : FixedEncoding) : Type 0 where
  aligned : fe.bytes_parsed % 4 ≡ 0
  short : u16 o d 2 ≢ 0 → (fe.big_request ≡ false) × (fe.tl_aligned_units ≡ u16 o d 2)

module _ (l : Layout) (a : IsAlignedLayout l) where
  fixed_of-Reads :
      (o : Order) (d : List ℕ) → Reads o d (fixed_of o l d (u16 o d (sizeof_struct l.prefix) == 0))
  fixed_of-Reads o d =
      let here : u16 o d (sizeof_struct l.prefix) ≡ u16 o d 2 =
        ap (λ (i : ℕ). u16 o d i) a.two_bytes in
      record { aligned = ground (arith, a.two_bytes, a.aligned); short = λ h. ground arith }

  fixed_encoding-Reads :
      (little_endian : Bool) (conn : Connection) (d : List ℕ) (sz : ℕ) (fe : FixedEncoding)
      → fixed_encoding little_endian l conn d sz ≡ ok fe
      → Reads (order_of little_endian conn) d fe
  unfolding fixed_encoding
  fixed_encoding-Reads little_endian conn d sz fe e =
      let o = order_of little_endian conn in
      let big : Bool = u16 o d (sizeof_struct l.prefix) == 0 in
      let (_, e1) = require-eq-ok (leb (base_encoding_sz l) sz) _ e in
      let (_, e2) =
        require-eq-ok (if big then extension_enabled conn big_requests_name else true) _ e1 in
      let (_, e3) = require-eq-ok ((fixed_of o l d big).bytes_parsed == base_sz l big) _ e2 in
      let same : fixed_of o l d big ≡ fe = ok-injective e3 in
      subst (Reads o d) same (fixed_of-Reads o d)

module _ (suffix : Suffix) (whole : IsAligned suffix) (check : LengthCheck)
    (shown : List Shown) where
  parse_rest_aligned :
      (r : Parsing) (n : ℕ)
      → IsAlignedLayout r.layout
      → r.fixed.bytes_parsed % 4 ≡ 0
      → parse_rest suffix check shown r ≡ ok n
      → (n % 4 ≡ 0) × (n < 2 ^ 32) × (length_holds check r.fixed n ≡ true)
  unfolding parse_rest add_u32
  parse_rest_aligned r n a fixed e =
      let (suffix_sz, one, e1) = >>=-eq-ok (suffix r) _ e in
      let bytes_parsed : ℕ = add_u32 r.fixed.bytes_parsed suffix_sz in
      let (holds, e2) = require-eq-ok (length_holds check r.fixed bytes_parsed) _ e1 in
      let (_, _, e3) = >>=-eq-ok (format_all r shown) _ e2 in
      let same : bytes_parsed ≡ n = ok-injective e3 in
      let units_ : suffix_sz % 4 ≡ 0 = whole r suffix_sz a one in
      (omega arith, omega arith, rw (← same) holds)

-- The assert on a short length.
length_holds-short :
    (check : LengthCheck) (fe : FixedEncoding) (n : ℕ)
    → length_holds check fe n ≡ true
    → fe.big_request ≡ false
    → fe.tl_aligned_units ≡ units n
unfolding length_holds
length_holds-short length_of_short fe n h short = ground arith
length_holds-short exact_length fe n h short = ground arith

units_back : (n : ℕ) → n % 4 ≡ 0 → n < 2 ^ 32 → aligned_size (units n) ≡ n
unfolding aligned_size units pad add_size
units_back n aligned fits = omega arith

request_size-short :
    (o : Order) (d : List ℕ)
    → field16 o.little_endian d 2 ≢ 0
    → request_size o d ≡ aligned_size (u16 o d 2)
unfolding request_size
request_size-short o d h = ground arith

module _ (little_endian : Bool) (l : Layout) (a : IsAlignedLayout l) (suffix : Suffix)
    (whole : IsAligned suffix) (check : LengthCheck) (shown : List Shown) where
  pub parse_any-IsWhole : IsWhole little_endian (parse_any little_endian l suffix check shown)
  unfolding parse_any
  parse_any-IsWhole conn d sz n e =
      let o = order_of little_endian conn in
      let (fe, e0, e1) = >>=-eq-ok (fixed_encoding little_endian l conn d sz) _ e in
      let reads = fixed_encoding-Reads l a little_endian conn d sz fe e0 in
      let (aligned, fits, holds) =
        parse_rest_aligned suffix whole check shown (parsing_of little_endian l conn d sz fe) n a
          reads.aligned e1 in
      (
        aligned,
        λ short.
            let (not_big, announced) = reads.short (u16-field16 o d 2 short) in
            let counted = length_holds-short check fe n holds not_big in
            sym (units_back n aligned fits)
            ∙ ap aligned_size (sym counted ∙ announced)
            ∙ sym (request_size-short o d short),
      )

module _ (little_endian : Bool) where
  pub parse_own-IsWhole :
      (l : Layout) (opcode : ℕ) (suffix : Suffix) (check : LengthCheck) (shown : List Shown)
      → IsAlignedLayout l
      → IsAligned suffix
      → IsWhole little_endian (parse_own little_endian l opcode suffix check shown)
  unfolding parse_own
  parse_own-IsWhole l opcode suffix check shown a whole =
      parse_any-IsWhole little_endian l a
        (λ r. require (u8 r.order r.message 0 == opcode) >> suffix r)
        (λ r n a' e.
          whole r n a' (require-eq-ok (u8 r.order r.message 0 == opcode) (λ _. suffix r) e).1)
        check shown

  pub parse_as-IsWhole :
      (opcode : ℕ) (base : RequestParser)
      → IsWhole little_endian base
      → IsWhole little_endian (parse_as little_endian opcode base)
  unfolding parse_as
  parse_as-IsWhole opcode base whole conn d sz n e =
      let o = order_of little_endian conn in
      let (_, e1) = require-eq-ok (leb 2 sz) _ e in
      let (_, e2) = require-eq-ok (u8 o d 0 == opcode) _ e1 in whole conn d sz n e2
