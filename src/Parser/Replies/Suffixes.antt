-- ===== src/Parser/Replies/Suffixes.antt =====
-- What follows the struct of a reply, in src/X11ProtocolParser__parseReply.cpp.
use xtracepp.Base.{ℕ, ◌+◌, ◌%◌, ◌^◌, drop, Outcome, ok, ◌>>=◌, sub_size}
use xtracepp.Wire.Alignment.{pad}
use xtracepp.Parser.Fields.{Order}
use xtracepp.Parser.ListMembers.{Member, parse_list_of}
use xtracepp.Protocol.{sizeof_struct}
use xtracepp.Parser.Replies.{Replying, ReplySuffix}

unfoldable pub nothing_more : ReplySuffix
nothing_more r = ok 0

unfoldable pub reply_string : (Replying → ℕ) → ReplySuffix
unfolding pad
reply_string len r = ok (pad (len r))

-- A list whose count is a `uint16_t`; the count may be cut. `at` is where it starts.
unfoldable pub list_at : (Order → Member) → ℕ → ℕ → Replying → Outcome ℕ
unfolding parse_list_of sub_size
list_at one ct at r =
    parse_list_of (one r.order) (ct % 2 ^ 16) (drop at r.message) (sub_size r.sz at)

unfoldable pub reply_list : (Order → Member) → (Replying → ℕ) → ReplySuffix
unfolding list_at sizeof_struct
reply_list one ct r = list_at one (ct r) (sizeof_struct r.struct) r

unfoldable pub padded_list : (Order → Member) → (Replying → ℕ) → ReplySuffix
unfolding reply_list pad
padded_list one ct r = do bytes_parsed ← reply_list one ct r; ok (pad bytes_parsed)

-- Two lists, one behind the other.
unfoldable pub two_lists :
    (Order → Member) → (Replying → ℕ) → (Order → Member) → (Replying → ℕ) → ReplySuffix
unfolding list_at sizeof_struct
two_lists one ct other other_ct r = do
  first ← list_at one (ct r) (sizeof_struct r.struct) r
  second ← list_at other (other_ct r) (sizeof_struct r.struct + first) r
  ok (first + second)
