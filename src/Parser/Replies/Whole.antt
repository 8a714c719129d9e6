-- ===== src/Parser/Replies/Whole.antt =====
-- src/X11ProtocolParser__parseReply.cpp: what a function for a reply answers is the size of the reply.
use xtracepp.Base.{
  ℕ, ◌+◌, ◌%◌, ◌^◌, ◌<◌, ◌≡◌, ap, ◌∙◌, Bool, List, arith, leb, ◌==◌, ==_iff, ok, >>=-eq-ok,
  require-eq-ok, ok-injective, add_u32, sub_u32, add_size,
}
use xtracepp.Wire.Alignment.{pad, units, aligned_size}
use xtracepp.Session.{Connection}
use xtracepp.Parser.Fields.{u8, u32, u32-lt}
use xtracepp.Parser.Messages.{order_of}
use xtracepp.Protocol.{Struct, sizeof_struct}
use xtracepp.Parser.Replies.{
  Replying, ReplySuffix, ReplyParser, replying, format_members, extra_units, parse_reply_body,
  parse_reply,
}

-- `bytes_parsed` is the size that `logServerMessages` finds, cut to 32 bits as it is counted.
abbrev pub IsWholeReply : Bool → ReplyParser → Type 0
IsWholeReply little_endian parser =
    (conn : Connection) (d : List ℕ) (sz n : ℕ)
    → parser conn d sz ≡ ok n
    → n ≡ (32 + aligned_size (u32 (order_of little_endian conn) d 4)) % 2 ^ 32

abbrev pub IsAlignedReply : ReplySuffix → Type 0
IsAlignedReply suffix =
    (r : Replying) (n : ℕ) → sizeof_struct r.struct % 4 ≡ 0 → suffix r ≡ ok n → n % 4 ≡ 0

announced_back :
    (n extra : ℕ)
    → n % 4 ≡ 0
    → n < 2 ^ 32
    → extra < 2 ^ 32
    → extra ≡ extra_units n
    → n ≡ (32 + aligned_size extra) % 2 ^ 32
unfolding extra_units units pad add_size sub_u32 aligned_size
announced_back n extra aligned small few e = omega arith

pub parse_reply-IsWhole :
    (little_endian : Bool) (s : Struct) (suffix : ReplySuffix) (shown : List _)
    → sizeof_struct s % 4 ≡ 0
    → IsAlignedReply suffix
    → IsWholeReply little_endian (parse_reply little_endian s suffix shown)
unfolding parse_reply parse_reply_body add_u32
parse_reply-IsWhole little_endian s suffix shown aligned whole conn d sz n e =
    let r = replying little_endian s conn d sz in
    let o = order_of little_endian conn in
    let (_, e1) = require-eq-ok (leb 32 sz) _ e in
    let (_, e2) = require-eq-ok (u8 o d 0 == 1) _ e1 in
    let (suffix_sz, one, e3) = >>=-eq-ok (suffix r) _ e2 in
    let bytes_parsed : ℕ = add_u32 (sizeof_struct s) suffix_sz in
    let (holds, e4) = require-eq-ok (u32 o d 4 == extra_units bytes_parsed) _ e3 in
    let (_, _, e5) = >>=-eq-ok (format_members r shown) _ e4 in
    let same : bytes_parsed ≡ n = ok-injective e5 in
    let units_ : suffix_sz % 4 ≡ 0 = whole r suffix_sz aligned one in
    announced_back n (u32 o d 4) (omega arith) (omega arith) (u32-lt o d 4)
      ((==_iff _ _).0 holds ∙ ap extra_units same)
