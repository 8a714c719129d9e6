-- ===== src/Parser/Requests/Whole/Suffixes.antt =====
-- What follows the fixed part of a request is a whole number of units.
use xtracepp.Base.{
  ℕ, suc, ◌+◌, ◌*◌, ◌/◌, ◌%◌, ◌^◌, ◌≡◌, refl, sym, ◌∙◌, inl, inr, Bool, ◌&&◌, List, [], ◌∷◌, arith,
  leb, ◌==◌, ==_iff, if◌then◌else◌, Bool-cases, drop, Outcome, ok, require, ◌>>◌, >>=-eq-ok,
  require-eq-ok, ok-injective, add_u32, add_size, sub_size,
}
use xtracepp.Wire.Alignment.{pad, aligned_size}
use xtracepp.Session.{Connection}
use xtracepp.Parser.Fields.{Order, u8}
use xtracepp.Parser.Messages.{order_of}
use xtracepp.Parser.ListMembers.{Member, parse_list_of, parse_list_to, parse_fixed}
use xtracepp.Protocol.{FieldType}
use xtracepp.Protocol.Requests.{base_encoding_sz, base_big_encoding_sz}
use xtracepp.Parser.Requests.{
  Parsing, Suffix, RequestParser, base_sz, prefix_member, encoding_member,
}
use xtracepp.Parser.Requests.Suffixes.{
  suffix_data, suffix_room, announced_sz, no_suffix, string8, list_of, list_to_end, finished,
  stepped_over, asserting, parse_formatted, parse_values, list_of_value,
}
use xtracepp.Parser.Requests.Properties.{property_data, parse_event, sent_event}
use xtracepp.Parser.Requests.Fonts.{text_extents_string}
use xtracepp.Parser.Requests.Drawing.{image_data}
use xtracepp.Parser.Requests.Whole.{IsAligned, IsAlignedLayout}

pad_aligned : (n : ℕ) → pad n % 4 ≡ 0
unfolding pad add_size
pad_aligned n = omega arith

-- What a padded length is equal to is aligned.
padded : (n m : ℕ) → ◌≡◌ {A = Outcome ℕ} (ok (pad n)) (ok m) → m % 4 ≡ 0
padded n m e = let same : pad n ≡ m = ok-injective e in omega (arith, pad_aligned n)

announced_sz-aligned : (r : Parsing) → IsAlignedLayout r.layout → announced_sz r % 4 ≡ 0
unfolding announced_sz base_sz base_encoding_sz base_big_encoding_sz sub_size aligned_size
announced_sz-aligned r a = ground (arith, a.two_bytes, a.aligned)

pub no_suffix-IsAligned : IsAligned no_suffix
unfolding no_suffix
no_suffix-IsAligned r n a e = ground arith

pub string8-IsAligned : (len : Parsing → ℕ) → IsAligned (string8 len)
unfolding string8
string8-IsAligned len r n a e = padded (len r) n e

pub list_of-IsAligned :
    (one : Order → Member) (room ct : Parsing → ℕ) → IsAligned (list_of one room ct)
unfolding list_of
list_of-IsAligned one room ct r n a e =
    let (m, _, e1) =
      >>=-eq-ok (parse_list_of (one r.order) (ct r % 2 ^ 16) (suffix_data r) (room r)) _ e in
    padded m n e1

pub list_to_end-IsAligned : (one : Order → Member) → IsAligned (list_to_end one)
unfolding list_to_end
list_to_end-IsAligned one r n a e =
    let (m, _, e1) =
      >>=-eq-ok
        (finished
          (parse_list_to (suc (announced_sz r)) (one r.order) (suffix_data r) (announced_sz r) 0))
        _ e in
    padded m n e1

pub stepped_over-IsAligned : IsAligned stepped_over
unfolding stepped_over
stepped_over-IsAligned r n a e =
    let same : announced_sz r ≡ n = ok-injective e in omega (arith, announced_sz-aligned r a)

pub asserting-IsAligned :
    (test : Parsing → Bool) (suffix : Suffix) → IsAligned suffix → IsAligned (asserting test suffix)
asserting-IsAligned test suffix whole r n a e =
    whole r n a (require-eq-ok (test r) (λ _. suffix r) e).1

parse_values-aligned :
    (o : Order) (mask : ℕ) (d : List ℕ) (sz i : ℕ) (types : List FieldType) (value_ct m n : ℕ)
    → m % 4 ≡ 0
    → parse_values o mask d sz i types value_ct m ≡ ok n
    → n % 4 ≡ 0
unfolding parse_values add_u32
parse_values-aligned o mask d sz i [] value_ct m n aligned e =
    let same : m ≡ n = ok-injective (require-eq-ok (m == value_ct * 4) (λ _. ok m) e).1 in
    omega arith
parse_values-aligned o mask d sz i (t ∷ types) value_ct m n aligned e =
    elim (Bool-cases (mask / 2 ^ i % 2 == 0)) [
      | inl absent ↦
          parse_values-aligned o mask d sz (i + 1) types value_ct m n aligned
            (rw (absent, parse_values) at e)
      | inr there ↦
          let (_, _, e2) =
            >>=-eq-ok
              (require (leb 4 (sub_size sz m)) >> parse_formatted o t (drop m d) (sub_size sz m)) _
              (rw (there, parse_values) at e) in
          parse_values-aligned o mask d sz (i + 1) types (value_ct + 1) (add_u32 m 4) n
            (omega arith) e2
    ]

pub list_of_value-IsAligned : (types : List FieldType) → IsAligned (list_of_value types)
unfolding list_of_value
list_of_value-IsAligned types r n a e =
    parse_values-aligned r.order (encoding_member r "value_mask") (suffix_data r) (suffix_room r) 0
      types 0 0 n refl e

pub property_data-IsAligned : IsAligned property_data
unfolding property_data
property_data-IsAligned r n a e =
    let format = encoding_member r "format" in
    let data_len : ℕ = encoding_member r "data_fmt_unit_len" * (format / 8) % 2 ^ 32 in
    let (m, _, e1) =
      >>=-eq-ok
        (require (leb format 32 && format % 8 == 0)
          >> (if encoding_member r "type" == 31
              then ok data_len
              else parse_list_of (parse_fixed 1) (data_len % 2 ^ 16) (suffix_data r) data_len))
        _ e in
    padded m n e1

parse_event-sized :
    (little_endian : Bool) (events : ℕ → RequestParser) (conn : Connection) (d : List ℕ) (sz n : ℕ)
    → parse_event little_endian events conn d sz ≡ ok n
    → n ≡ 32
unfolding parse_event
parse_event-sized little_endian events conn d sz n e =
    let code : ℕ = u8 (order_of little_endian conn) d 0 % 128 in
    let (_, e1) = require-eq-ok (leb 32 sz) _ e in
    let (m, _, e2) = >>=-eq-ok (events code conn d sz) (λ (b : ℕ). require (b == 32) >> ok b) e1 in
    let (whole, e3) = require-eq-ok (m == 32) (λ _. ok m) e2 in
    sym (ok-injective e3) ∙ (==_iff m 32).0 whole

pub sent_event-IsAligned :
    (little_endian : Bool) (events : ℕ → RequestParser)
    → IsAligned (sent_event little_endian events)
unfolding sent_event
sent_event-IsAligned little_endian events r n a e =
    let sized = parse_event-sized little_endian events r.conn (suffix_data r) 32 n e in omega arith

pub text_extents_string-IsAligned : IsAligned text_extents_string
unfolding text_extents_string
text_extents_string-IsAligned r n a e =
    let odd : ℕ = if prefix_member r "odd_length" == 0 then 0 else 1 in
    let string_len : ℕ = sub_size (announced_sz r / 2) odd in
    let (_, _, e1) =
      >>=-eq-ok
        (parse_list_of (parse_fixed 2) (string_len % 2 ^ 16) (suffix_data r) (announced_sz r)) _
        e in
    let same : announced_sz r ≡ n = ok-injective e1 in omega (arith, announced_sz-aligned r a)

pub image_data-IsAligned : IsAligned image_data
unfolding image_data
image_data-IsAligned r n a e = padded (announced_sz r) n e
