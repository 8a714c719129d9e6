-- ===== src/Parser/Requests/Suffixes.antt =====
-- What follows the fixed part of a request, in src/X11ProtocolParser__parseRequest.cpp, and
-- `_parseLISTofVALUE` of src/include/X11ProtocolParser.hpp.
use xtracepp.Base.{
  ℕ, suc, ◌+◌, ◌*◌, ◌/◌, ◌%◌, ◌^◌, Bool, true, false, List, [], ◌∷◌, leb, ◌==◌, drop, Option, none,
  some, Outcome, ok, aborted, require, ◌>>=◌, ◌>>◌, sub_size, add_u32,
}
use xtracepp.Wire.Alignment.{pad, aligned_size}
use xtracepp.Parser.Fields.{Order}
use xtracepp.Protocol.{FieldType, format_variable}
use xtracepp.Parser.ListMembers.{Member, parse_list_of, parse_list_to}
use xtracepp.Parser.Requests.{Parsing, Suffix, base_sz, encoding_member}

-- `data + request.bytes_parsed`, and `sz - request.bytes_parsed`.
abbrev pub suffix_data : Parsing → List ℕ
suffix_data r = drop r.fixed.bytes_parsed r.message

unfoldable pub suffix_room : Parsing → ℕ
unfolding sub_size
suffix_room r = sub_size r.sz r.fixed.bytes_parsed

-- The bytes that the length leaves for the suffix.
unfoldable pub announced_sz : Parsing → ℕ
unfolding sub_size aligned_size base_sz
announced_sz r =
    sub_size (aligned_size r.fixed.tl_aligned_units) (base_sz r.layout r.fixed.big_request)

unfoldable pub no_suffix : Suffix
no_suffix r = ok 0

-- A string whose length is a member. Its bytes are not counted against `sz`.
unfoldable pub string8 : (Parsing → ℕ) → Suffix
unfolding pad
string8 len r = ok (pad (len r))

-- `_parseListMember` at a type of `_formatVariable`.
unfoldable pub parse_formatted : Order → FieldType → Member
unfolding format_variable
parse_formatted o t d sz = do require (leb t.sizeof sz); format_variable o d 0 t; ok t.sizeof

-- A `COLORITEM` is 12 bytes, with the mask in the eleventh.
unfoldable pub parse_coloritem : Order → FieldType → Member
unfolding format_variable
parse_coloritem o do_rgb d sz = do require (leb 12 sz); format_variable o d 10 do_rgb; ok 12

-- `_parseLISTof` with a count, which is a `uint16_t`, over `room` bytes; the count may be cut.
unfoldable pub list_of : (Order → Member) → (Parsing → ℕ) → (Parsing → ℕ) → Suffix
unfolding pad parse_list_of
list_of one room ct r = do
  bytes_parsed ← parse_list_of (one r.order) (ct r % 2 ^ 16) (suffix_data r) (room r)
  ok (pad bytes_parsed)

-- As many members of `n` bytes as the announced length has room for.
abbrev pub announced_ct : ℕ → Parsing → ℕ
announced_ct n r = announced_sz r / n

abbrev pub list_of_announced : (Order → Member) → ℕ → Suffix
list_of_announced one n = list_of one announced_sz (announced_ct n)

-- A list with no count. Members are parsed while there is room; `aborted` where the fuel ends, which
-- it does not while members parse at least a byte.
abbrev pub finished : Option (Outcome ℕ) → Outcome ℕ
finished none = aborted
finished (some result) = result

unfoldable pub list_to_end : (Order → Member) → Suffix
unfolding pad parse_list_to announced_sz
list_to_end one r =
    finished (parse_list_to (suc (announced_sz r)) (one r.order) (suffix_data r) (announced_sz r) 0)
    >>= λ bytes_parsed. ok (pad bytes_parsed)

-- The suffix is not parsed, but stepped over.
unfoldable pub stepped_over : Suffix
unfolding announced_sz
stepped_over r = ok (announced_sz r)

-- An assert of its own before the rest.
abbrev pub asserting : (Parsing → Bool) → Suffix → Suffix
asserting test suffix r = require (test r) >> suffix r

-- `_parseLISTofVALUE`: the value at index `i` is there where bit `i` of the mask is set. Each takes 4
-- bytes, whatever its type.
unfoldable pub parse_values : Order → ℕ → List ℕ → ℕ → ℕ → List FieldType → ℕ → ℕ → Outcome ℕ
unfolding parse_formatted
parse_values o mask d sz i [] value_ct bytes_parsed = do
  require (bytes_parsed == value_ct * 4)
  ok bytes_parsed
parse_values o mask d sz i (t ∷ types) value_ct bytes_parsed = elim (mask / 2 ^ i % 2 == 0) [
  | true ↦ parse_values o mask d sz (i + 1) types value_ct bytes_parsed
  | false ↦
      require (leb 4 (sub_size sz bytes_parsed))
      >> parse_formatted o t (drop bytes_parsed d) (sub_size sz bytes_parsed)
      >>= λ one. parse_values o mask d sz (i + 1) types (value_ct + 1) (add_u32 bytes_parsed 4)
]

unfoldable pub list_of_value : List FieldType → Suffix
unfolding parse_values suffix_room encoding_member
list_of_value types r =
    parse_values r.order (encoding_member r "value_mask") (suffix_data r) (suffix_room r) 0 types 0
      0
