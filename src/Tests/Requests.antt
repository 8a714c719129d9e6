-- ===== src/Tests/Requests.antt =====
-- Requests and replies of the core protocol at concrete inputs.
use xtracepp.Base.{
  ℕ, ◌≡◌, ◌≢◌, refl, ◌+◌, ◌*◌, ◌%◌, ◌^◌, ◌≤◌, true, false, List, [], ◌∷◌, replicate, ok, aborted,
  if◌then◌else◌, ◌==◌, ltb, ◌>>◌, find, arith, sub_size, add_u32, sub_u32, add_size,
}
use xtracepp.Wire.ByteOrder.{field16, field32, ordered8, ordered16, ordered32}
use xtracepp.Wire.Alignment.{pad, units}
use xtracepp.Session.{Connection, new_connection, extension_enabled, big_requests_name}
use xtracepp.Parser.Fields.{Order, u8, u16, u32}
use xtracepp.Parser.Messages.{order_of}
use xtracepp.Protocol.{
  short_type, resource_id, sizeof_struct, member_at, format_member, format_variable, bits_clear,
  raw_field,
}
use xtracepp.Protocol.Requests.{base_encoding_sz, base_big_encoding_sz}
use xtracepp.Protocol.Requests.Contexts.{copy_gc}
use xtracepp.Parser.Requests.{
  RequestParser, fixed_of, fixed_encoding, base_sz, length_of_short, length_holds, format_shown,
  format_all, parse_rest, parsing_of, parse_any, parse_own, parse_as, in_encoding,
}
use xtracepp.Parser.Requests.Suffixes.{no_suffix, parse_values, parse_formatted}
use xtracepp.Parser.Requests.Windows.{parse_destroy_window, parse_simple_window_request}
use xtracepp.Parser.Requests.Drawing.{parse_poly_arc}
use xtracepp.Parser.Requests.Core.{parse_request}
use xtracepp.Parser.Requests.Whole.{IsAlignedLayout}
use xtracepp.Parser.Requests.Accepts.{has_header, parse_own-no_suffix}
use xtracepp.Parser.Requests.Arcs.{poly_arc_refused}
use xtracepp.Parser.Requests.Values.{parse_values_lem, values_ct}
use xtracepp.Parser.Requests.Swapped.{format_resource_id}
use xtracepp.Parser.Replies.{parse_reply, parse_reply_body, format_members, extra_units}
use xtracepp.Parser.Replies.Suffixes.{nothing_more}
use xtracepp.Parser.Replies.Input.{parse_get_input_focus_reply}
use xtracepp.Parser.Replies.Core.{parse_reply_to}

abbrev client : Connection
client = (new_connection 0).0

abbrev no_events : ℕ → RequestParser
no_events code conn d sz = aborted

-- DestroyWindow, of the window 5.
abbrev destroy_five : List ℕ
destroy_five = 4 ∷ 0 ∷ 2 ∷ 0 ∷ 5 ∷ 0 ∷ 0 ∷ 0 ∷ []

destroy_five-parsed : parse_request true no_events 4 client destroy_five 8 ≡ ok 8
unfolding parse_request find parse_destroy_window parse_simple_window_request parse_as parse_any
    fixed_encoding base_sz base_encoding_sz base_big_encoding_sz sizeof_struct parse_rest no_suffix
    length_holds format_all format_shown format_member member_at format_variable bits_clear
    raw_field u8 u16 ordered8 ordered16 field16 field32 units pad add_u32 add_size new_connection
destroy_five-parsed = refl

-- The reply to GetInputFocus.
abbrev focus_reply : List ℕ
focus_reply = 1 ∷ 0 ∷ 7 ∷ 0 ∷ replicate 28 0

focus_reply-parsed : parse_reply_to true 43 client focus_reply 32 ≡ ok 32
unfolding parse_reply_to find parse_get_input_focus_reply parse_reply parse_reply_body nothing_more
    format_members extra_units format_member member_at format_variable bits_clear raw_field
    sizeof_struct u8 u32 ordered8 ordered32 field32 units pad add_u32 sub_u32 add_size
    new_connection
focus_reply-parsed = refl

-- CopyGC, whose mask names nothing.
abbrev copy : List ℕ
copy = 57 ∷ 0 ∷ 4 ∷ 0 ∷ 1 ∷ 0 ∷ 0 ∷ 0 ∷ 2 ∷ 0 ∷ 0 ∷ 0 ∷ 0 ∷ 0 ∷ 0 ∷ 0 ∷ []

copy_gc-IsAlignedLayout : IsAlignedLayout copy_gc
unfolding sizeof_struct
copy_gc-IsAlignedLayout = record { two_bytes = refl; aligned = refl }

parse_own-no_suffix_example :
    parse_own true copy_gc 57 no_suffix length_of_short (in_encoding "src_gc" ∷ []) client copy 16
    ≡ (if has_header
          (order_of true client)
          copy_gc
          57
          (extension_enabled client big_requests_name)
          copy
          16
        then format_all
            (parsing_of true copy_gc client copy 16 (
              fixed_of
                (order_of true client)
                copy_gc
                copy
                (u16 (order_of true client) copy 2 == 0)))
            (in_encoding "src_gc" ∷ [])
          >> ok (base_sz copy_gc (u16 (order_of true client) copy 2 == 0))
        else aborted)
unfolding base_big_encoding_sz sizeof_struct
parse_own-no_suffix_example =
    parse_own-no_suffix true copy_gc copy_gc-IsAlignedLayout (omega arith) 57
      (in_encoding "src_gc" ∷ []) client copy 16

copy-accepted : has_header (order_of true client) copy_gc 57 false copy 16 ≡ true
unfolding base_encoding_sz sizeof_struct u8 u16 ordered8 ordered16 field16 new_connection
copy-accepted = refl

-- PolyArc with one arc.
abbrev one_arc : List ℕ
one_arc = 68 ∷ 0 ∷ 6 ∷ 0 ∷ replicate 20 0

poly_arc_refused_example : parse_poly_arc true client one_arc 24 ≢ ok 24
unfolding u16 ordered16 field16 new_connection
poly_arc_refused_example = poly_arc_refused true client one_arc 24 1 24 (omega arith) refl

-- Two values of which the second is there.
parse_values_lem_example : (4 ≡ 0 + 4 * values_ct 2 0 (short_type ∷ short_type ∷ [])) × (4 ≤ 4)
unfolding parse_values parse_formatted format_variable bits_clear raw_field field16 sub_size add_u32
    add_size
parse_values_lem_example =
    parse_values_lem (order_of true client) 2 (7 ∷ 0 ∷ 0 ∷ 0 ∷ []) 4 0
      (short_type ∷ short_type ∷ []) 0 0 4 (omega arith) (omega arith) (omega arith) refl

-- The identifier 0x00400001, of a client of the other byte order.
abbrev other_order : Order
other_order = record { little_endian = true; byteswap = true }

abbrev identifier : List ℕ
identifier = 0 ∷ 0x40 ∷ 0 ∷ 1 ∷ []

format_resource_id_example : format_variable other_order identifier 0 resource_id ≡ (
    if (if other_order.byteswap
      then ltb (u32 other_order identifier 0 % 256) 32
      else ltb (u32 other_order identifier 0) (2 ^ 29))
    then ok tt
    else aborted)
format_resource_id_example = format_resource_id other_order identifier 0
