-- ===== src/Parser/Requests/Swapped.antt =====
-- `_formatVariable` of src/include/X11ProtocolParser.hpp for the identifiers of resources: the bits that
-- have to be 0 are tested before the bytes are put in order.
use xtracepp.Base.{
  ℕ, ◌/◌, ◌%◌, ◌^◌, ◌<◌, ◌≡◌, refl, Bool, true, false, List, arith, ltb, ◌==◌, ◌&&◌, if◌then◌else◌,
  ok, aborted, require,
}
use xtracepp.Wire.ByteOrder.{field32, bswap16, bswap32, ordered32}
use xtracepp.Parser.Fields.{Order, u32}
use xtracepp.Protocol.{format_variable, resource_id, bits_clear}

field32-lt : (little_endian : Bool) (d : List ℕ) (i : ℕ) → field32 little_endian d i < 2 ^ 32
unfolding field32
field32-lt little_endian d i = ground arith

top_bits :
    (byteswap : Bool) (raw : ℕ)
    → raw < 2 ^ 32
    → ((raw / 2 ^ 29 % 2 ^ 3 == 0) && true) ≡ (
        if byteswap
        then ltb (ordered32 raw byteswap % 256) 32
        else ltb (ordered32 raw byteswap) (2 ^ 29))
unfolding ordered32 bswap32 bswap16
top_bits true raw small = ground arith
top_bits false raw small = ground arith

require_test : (test : Bool) → require test ≡ (if test then ok tt else aborted)
require_test true = refl
require_test false = refl

-- An identifier is formatted where its top three bits are 0, as the protocol has it; but of a client
-- of the other byte order where its lowest byte is below 32, and else the assert fails.
pub format_resource_id :
    (o : Order) (d : List ℕ) (i : ℕ)
    → format_variable o d i resource_id ≡ (
        if (if o.byteswap then ltb (u32 o d i % 256) 32 else ltb (u32 o d i) (2 ^ 29))
        then ok tt
        else aborted)
unfolding format_variable bits_clear u32
format_resource_id o d i =
    let raw : ℕ = field32 o.little_endian d i in
    rw (← top_bits o.byteswap raw (field32-lt o.little_endian d i))
      (require_test ((raw / 2 ^ 29 % 2 ^ 3 == 0) && true))
