-- ===== src/Parser/Requests/Accepts.antt =====
-- src/X11ProtocolParser__parseRequest.cpp: which requests without a suffix are accepted.
use xtracepp.Base.{
  ℕ, ◌+◌, ◌*◌, ◌%◌, ◌^◌, ◌<◌, ◌≡◌, refl, ap, ◌∙◌, inl, inr, Bool, true, false, not, ◌&&◌, List,
  arith, leb, ◌==◌, if◌then◌else◌, Bool-cases, Outcome, ok, aborted, require, require-if, if-if,
  if->>=, ◌>>◌, add_u32, add_size,
}
use xtracepp.Wire.Alignment.{pad, units}
use xtracepp.Session.{Connection, big_requests_name, extension_enabled}
use xtracepp.Parser.Fields.{Order, u8, u16, u32}
use xtracepp.Parser.Messages.{order_of}
use xtracepp.Protocol.{sizeof_struct}
use xtracepp.Protocol.Requests.{Layout, encoding_of, base_encoding_sz, base_big_encoding_sz}
use xtracepp.Parser.Requests.{
  fixed_of, fixed_encoding, base_sz, length_of_short, length_holds, Parsing, Shown, format_all,
  parse_rest, parsing_of, parse_own, parse_any,
}
use xtracepp.Parser.Requests.Suffixes.{no_suffix}
use xtracepp.Parser.Requests.Whole.{IsAlignedLayout}

-- The header of a request without a suffix is right: the bytes are there, the opcode is the request's
-- own, and the length is that of the fixed part. A long length has to be allowed, and not 0.
abbrev pub has_header : Order → Layout → ℕ → Bool → List ℕ → ℕ → Bool
has_header o l opcode big_enabled d sz =
    leb (base_encoding_sz l) sz
    && (u8 o d 0 == opcode)
    && (if u16 o d 2 == 0
        then big_enabled && not (u32 o d 4 == 0)
        else u16 o d 2 * 4 == base_encoding_sz l)

-- The order of the tests does not matter; `p` and `e` are the sizes of prefix and encoding.
header_tests :
    (room enabled own big : Bool) (long short p e : ℕ)
    → ((room && (if big then enabled else true))
        && (own
            && (if big
                then not ((if big then long else short) == 0)
                else (if big then long else short) * 4 == (if big then p + 6 else p + 2) + e)))
      ≡ (room && own && (if big then enabled && not (long == 0) else short * 4 == p + 2 + e))
header_tests false enabled own big long short p e = refl
header_tests true enabled own false long short p e = refl
header_tests true true own true long short p e = refl
header_tests true false true true long short p e = refl
header_tests true false false true long short p e = refl

module _ (little_endian : Bool) (l : Layout) (a : IsAlignedLayout l)
    (fits : base_big_encoding_sz l < 2 ^ 32) (opcode : ℕ) (shown : List Shown) where
  fixed_encoding_lem :
      (conn : Connection) (d : List ℕ) (sz : ℕ)
      → let o = order_of little_endian conn in
        let big = u16 o d 2 == 0 in
        fixed_encoding little_endian l conn d sz ≡ (
          if leb (base_encoding_sz l) sz
            && (if big then extension_enabled conn big_requests_name else true)
          then ok (fixed_of o l d big)
          else aborted)
  unfolding fixed_encoding base_sz base_encoding_sz base_big_encoding_sz
  fixed_encoding_lem conn d sz = rw a.two_bytes (ground arith)

  length_lem :
      (big : Bool) (tl bytes_parsed : ℕ)
      → bytes_parsed % 4 ≡ 0
      → bytes_parsed < 2 ^ 32
      → (if big then not (tl == 0) else tl == units (add_u32 bytes_parsed 0))
        ≡ (if big then not (tl == 0) else tl * 4 == bytes_parsed)
  unfolding units pad add_u32 add_size
  length_lem true tl bytes_parsed aligned small = refl
  length_lem false tl bytes_parsed aligned small = ground arith

  unsuffixed :
      (r : Parsing)
      → r.fixed.bytes_parsed % 4 ≡ 0
      → r.fixed.bytes_parsed < 2 ^ 32
      → parse_rest
          (λ q. require (u8 q.order q.message 0 == opcode) >> no_suffix q)
          length_of_short
          shown
          r
        ≡ (if (u8 r.order r.message 0 == opcode)
              && (if r.fixed.big_request
                  then not (r.fixed.tl_aligned_units == 0)
                  else r.fixed.tl_aligned_units * 4 == r.fixed.bytes_parsed)
            then format_all r shown >> ok r.fixed.bytes_parsed
            else aborted)
  unfolding parse_rest no_suffix length_holds
  unsuffixed r aligned small =
      let whole : add_u32 r.fixed.bytes_parsed 0 ≡ r.fixed.bytes_parsed =
        unfold add_u32 in omega arith in
      let held =
        length_lem r.fixed.big_request r.fixed.tl_aligned_units r.fixed.bytes_parsed aligned
          small in
      let right : Bool =
        if r.fixed.big_request
        then not (r.fixed.tl_aligned_units == 0)
        else r.fixed.tl_aligned_units * 4 == r.fixed.bytes_parsed in
      let done : Outcome ℕ = format_all r shown >> ok r.fixed.bytes_parsed in
      elim (Bool-cases (u8 r.order r.message 0 == opcode)) [
        | inr other ↦ rw other refl
        | inl own ↦ rw (own, held, whole) (require-if right done)
      ]

  -- A function for a request without a suffix accepts exactly the messages with a right header whose
  -- members can be formatted, and answers the size of the fixed part. Of a long length it only asks
  -- that it is not 0.
  pub parse_own-no_suffix :
      (conn : Connection) (d : List ℕ) (sz : ℕ)
      → let o = order_of little_endian conn in
        let big = u16 o d 2 == 0 in
        parse_own little_endian l opcode no_suffix length_of_short shown conn d sz ≡ (
          if has_header o l opcode (extension_enabled conn big_requests_name) d sz
          then format_all (parsing_of little_endian l conn d sz (fixed_of o l d big)) shown
            >> ok (base_sz l big)
          else aborted)
  unfolding parse_own parse_any base_sz base_encoding_sz base_big_encoding_sz
  parse_own-no_suffix conn d sz =
      let o = order_of little_endian conn in
      let big : Bool = u16 o d 2 == 0 in
      let r = parsing_of little_endian l conn d sz (fixed_of o l d big) in
      let enabled : Bool = extension_enabled conn big_requests_name in
      let whole : r.fixed.bytes_parsed % 4 ≡ 0 = ground (arith, a.two_bytes, a.aligned) in
      let small : r.fixed.bytes_parsed < 2 ^ 32 = ground (arith, a.two_bytes, fits) in
      let sized : r.fixed.bytes_parsed ≡ base_sz l big = ground (arith, a.two_bytes) in
      let tests : ((leb (base_encoding_sz l) sz && (if big then enabled else true))
            && ((u8 o d 0 == opcode)
                && (if big
                    then not (r.fixed.tl_aligned_units == 0)
                    else r.fixed.tl_aligned_units * 4 == r.fixed.bytes_parsed)))
          ≡ has_header o l opcode enabled d sz =
        rw a.two_bytes (
          header_tests (leb (2 + 2 + sizeof_struct (encoding_of l.encoding)) sz) enabled
            (u8 o d 0 == opcode) big (u32 o d 4) (u16 o d 2) 2
            (sizeof_struct (encoding_of l.encoding))) in
      rw (fixed_encoding_lem conn d sz, if->>=, unsuffixed r whole small, if-if)
        (ap
            (λ (test : Bool).
              if test then format_all r shown >> ok r.fixed.bytes_parsed else aborted)
            tests
          ∙ ap
              (λ (n : ℕ).
                if has_header o l opcode enabled d sz then format_all r shown >> ok n else aborted)
              sized)
