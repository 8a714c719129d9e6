-- ===== src/Parser/Replies/Aligned.antt =====
-- What follows the struct of a reply is a whole number of units.
use xtracepp.Base.{
  ℕ, ◌+◌, ◌*◌, ◌/◌, ◌%◌, ◌^◌, ◌≡◌, refl, arith, leb, ◌==◌, ◌&&◌, if◌then◌else◌, drop, Outcome, ok,
  require, ◌>>◌, >>=-eq-ok, require-eq-ok, ok-injective, add_size, sub_size,
}
use xtracepp.Wire.Alignment.{pad, aligned_size}
use xtracepp.Parser.Fields.{Order, u8, u16, u32}
use xtracepp.Parser.ListMembers.{Member, parse_fixed, parse_host, parse_list_of, known_family}
use xtracepp.Parser.ListSizes.{parse_list_from-size, parse_list_from-aligned, IsAlignedMember}
use xtracepp.Protocol.{FieldType, sizeof_struct, format_variable}
use xtracepp.Parser.Requests.Suffixes.{parse_formatted}
use xtracepp.Parser.Replies.{Replying, reply_member, raw_reply_member}
use xtracepp.Protocol.Replies.{fontprop}
use xtracepp.Parser.Replies.Fonts.{font_info}
use xtracepp.Parser.Replies.Suffixes.{
  nothing_more, reply_string, list_at, reply_list, padded_list, two_lists,
}
use xtracepp.Parser.Replies.Core.{rest_of_reply}
use xtracepp.Parser.Replies.Windows.{property_value}
use xtracepp.Parser.Replies.Whole.{IsAlignedReply}

pad_aligned : (n : ℕ) → pad n % 4 ≡ 0
unfolding pad add_size
pad_aligned n = omega arith

padded : (n m : ℕ) → ◌≡◌ {A = Outcome ℕ} (ok (pad n)) (ok m) → m % 4 ≡ 0
padded n m e = let same : pad n ≡ m = ok-injective e in omega (arith, pad_aligned n)

pub parse_fixed-aligned : (k : ℕ) → k % 4 ≡ 0 → IsAlignedMember (parse_fixed k)
unfolding parse_fixed
parse_fixed-aligned k whole d sz m e =
    let same : k ≡ m = ok-injective (require-eq-ok (leb k sz) (λ _. ok k) e).1 in omega arith

pub parse_formatted-aligned :
    (o : Order) (t : FieldType) → t.sizeof % 4 ≡ 0 → IsAlignedMember (parse_formatted o t)
unfolding parse_formatted
parse_formatted-aligned o t whole d sz m e =
    let (_, e1) = require-eq-ok (leb t.sizeof sz) _ e in
    let (_, _, e2) = >>=-eq-ok (format_variable o d 0 t) _ e1 in
    let same : t.sizeof ≡ m = ok-injective e2 in omega arith

pub parse_host-aligned : (o : Order) → IsAlignedMember (parse_host o)
unfolding parse_host
parse_host-aligned o d sz m e =
    let (_, e1) = require-eq-ok (leb 4 sz) _ e in
    let (_, e2) = require-eq-ok (known_family (u8 o d 0)) _ e1 in
    let (_, _, e3) =
      >>=-eq-ok (parse_list_of (parse_fixed 1) (u16 o d 2) (drop 4 d) (sub_size sz 4)) _ e2 in
    let same : 4 + pad (u16 o d 2) ≡ m = ok-injective e3 in omega (arith, pad_aligned (u16 o d 2))

list_at-aligned :
    (one : Order → Member) (ct at_ : ℕ) (r : Replying) (n : ℕ)
    → ((o : Order) → IsAlignedMember (one o))
    → list_at one ct at_ r ≡ ok n
    → n % 4 ≡ 0
unfolding list_at parse_list_of
list_at-aligned one ct at_ r n whole e =
    parse_list_from-aligned (one r.order) (ct % 2 ^ 16) (drop at_ r.message) (sub_size r.sz at_) 0 n
      (whole r.order) refl e

pub nothing_more-IsAligned : IsAlignedReply nothing_more
unfolding nothing_more
nothing_more-IsAligned r n a e = ground arith

pub reply_string-IsAligned : (len : Replying → ℕ) → IsAlignedReply (reply_string len)
unfolding reply_string
reply_string-IsAligned len r n a e = padded (len r) n e

pub reply_list-IsAligned :
    (one : Order → Member) (ct : Replying → ℕ)
    → ((o : Order) → IsAlignedMember (one o))
    → IsAlignedReply (reply_list one ct)
unfolding reply_list
reply_list-IsAligned one ct whole r n a e =
    list_at-aligned one (ct r) (sizeof_struct r.struct) r n whole e

pub padded_list-IsAligned :
    (one : Order → Member) (ct : Replying → ℕ) → IsAlignedReply (padded_list one ct)
unfolding padded_list
padded_list-IsAligned one ct r n a e =
    let (m, _, e1) = >>=-eq-ok (reply_list one ct r) _ e in padded m n e1

pub two_lists-IsAligned :
    (one : Order → Member) (ct : Replying → ℕ) (other : Order → Member) (other_ct : Replying → ℕ)
    → ((o : Order) → IsAlignedMember (one o))
    → ((o : Order) → IsAlignedMember (other o))
    → IsAlignedReply (two_lists one ct other other_ct)
unfolding two_lists
two_lists-IsAligned one ct other other_ct whole whole' r n a e =
    let (first, e0, e1) = >>=-eq-ok (list_at one (ct r) (sizeof_struct r.struct) r) _ e in
    let (second, e2, e3) =
      >>=-eq-ok (list_at other (other_ct r) (sizeof_struct r.struct + first) r) _ e1 in
    let same : first + second ≡ n = ok-injective e3 in
    omega (
      arith,
      list_at-aligned one (ct r) (sizeof_struct r.struct) r first whole e0,
      list_at-aligned other (other_ct r) (sizeof_struct r.struct + first) r second whole' e2,
    )

-- Eight modifiers have the same number of keycodes each.
pub keycodes-IsAligned :
    IsAlignedReply
      (reply_list (λ o. parse_fixed 1) (λ r. 8 * reply_member r "header.keycodes_per_modifier"))
unfolding reply_list list_at parse_list_of
keycodes-IsAligned r n a e =
    let per : ℕ = reply_member r "header.keycodes_per_modifier" in
    omega (
      arith,
      parse_list_from-size 1 (8 * per % 2 ^ 16) (drop (sizeof_struct r.struct) r.message)
          (sub_size r.sz (sizeof_struct r.struct)) 0 n e,
    )

pub property_value-IsAligned : IsAlignedReply property_value
unfolding property_value
property_value-IsAligned r n a e =
    let format : ℕ = reply_member r "header.format" in
    let value_sz : ℕ = reply_member r "value_fmt_unit_len" * (format / 8) % 2 ^ 32 in
    let (m, _, e1) =
      >>=-eq-ok
        (require (leb format 32 && format % 8 == 0)
          >> (if reply_member r "type" == 31
              then ok value_sz
              else list_at (λ o. parse_fixed 1) value_sz 32 r))
        _ e in
    padded m n e1

pub font_info-IsAligned : IsAlignedReply font_info
unfolding font_info
font_info-IsAligned r n a e =
    let (properties, e0, e1) =
      >>=-eq-ok (list_at (λ o. parse_formatted o fontprop) (reply_member r "properties_ct") 60 r) _
        e in
    let name_len : ℕ = raw_reply_member r "header.last_reply" in
    let same : properties + pad name_len ≡ n = ok-injective e1 in
    omega (
      arith,
      list_at-aligned (λ o. parse_formatted o fontprop) (reply_member r "properties_ct") 60 r
          properties (λ o. parse_formatted-aligned o fontprop refl) e0,
      pad_aligned name_len,
    )

pub rest_of_reply-IsAligned : IsAlignedReply rest_of_reply
unfolding rest_of_reply aligned_size
rest_of_reply-IsAligned r n a e =
    let same : aligned_size (u32 r.order r.message 4) ≡ n = ok-injective e in omega arith
