-- ===== src/Parser/Replies.antt =====
-- What the functions of src/X11ProtocolParser__parseReply.cpp share: each reads the struct of its reply,
-- then the suffix, and asserts the length.
pub mod Suffixes
pub mod Windows
pub mod Input
pub mod Fonts
pub mod Colors
pub mod Control
pub mod Core
pub mod Whole
pub mod Aligned
pub mod Sized
use Prim.Native.String.{String}
use xtracepp.Base.{
  ℕ, Bool, List, [], ◌∷◌, leb, ◌==◌, Outcome, ok, require, ◌>>=◌, ◌>>◌, add_u32, sub_u32,
}
use xtracepp.Wire.Alignment.{units}
use xtracepp.Session.{Connection}
use xtracepp.Parser.Fields.{Order, u8, u32}
use xtracepp.Parser.Messages.{order_of}
use xtracepp.Protocol.{Struct, sizeof_struct, member, raw_member, format_member}

-- What a function for a reply has at hand.
pub record Replying : Type 0 where
  pub struct : Struct
  pub order : Order
  pub message : List ℕ
  pub sz : ℕ

unfoldable pub reply_member : Replying → String → ℕ
unfolding member
reply_member r name = member r.order r.message 0 r.struct name

unfoldable pub raw_reply_member : Replying → String → ℕ
unfolding raw_member
raw_reply_member r name = raw_member r.order r.message 0 r.struct name

-- What follows the struct: how much is added to `bytes_parsed`.
abbrev pub ReplySuffix : Type 0
ReplySuffix = Replying → Outcome ℕ

-- The members that the text shows.
unfoldable pub format_members : Replying → List String → Outcome (Unit {0})
unfolding format_member
format_members r [] = ok tt
format_members r (name ∷ rest) =
    format_member r.order r.message 0 r.struct name >> format_members r rest

abbrev pub ReplyParser : Type 0
ReplyParser = Connection → List ℕ → ℕ → Outcome ℕ

-- The bytes parsed beyond the 32 that every reply has, in units of four bytes.
unfoldable pub extra_units : ℕ → ℕ
unfolding units sub_u32
extra_units bytes_parsed = units (sub_u32 bytes_parsed 32)

-- From the first assert on; `announced` is the length as the last assert reads it.
unfoldable pub parse_reply_body : (Replying → ℕ) → ReplySuffix → List String → Replying → Outcome ℕ
unfolding sizeof_struct u8 format_members extra_units add_u32
parse_reply_body announced suffix shown r = do
  require (leb 32 r.sz)
  require (u8 r.order r.message 0 == 1)
  suffix_sz ← suffix r
  let bytes_parsed = add_u32 (sizeof_struct r.struct) suffix_sz
  require (announced r == extra_units bytes_parsed)
  format_members r shown
  ok bytes_parsed

module _ (little_endian : Bool) where
  abbrev pub replying : Struct → Connection → List ℕ → ℕ → Replying
  replying s conn d sz = record {
    struct = s;
    order = order_of little_endian conn;
    message = d;
    sz = sz;
  }

  unfoldable pub parse_reply : Struct → ReplySuffix → List String → ReplyParser
  unfolding parse_reply_body
  parse_reply s suffix shown conn d sz =
      parse_reply_body (λ r. u32 r.order r.message 4) suffix shown (replying s conn d sz)

  -- The same where the length is compared as the host reads it.
  unfoldable pub parse_reply_raw : Struct → ReplySuffix → List String → ReplyParser
  unfolding parse_reply_body raw_reply_member
  parse_reply_raw s suffix shown conn d sz =
      parse_reply_body (λ r. raw_reply_member r "header.extra_aligned_units") suffix shown
        (replying s conn d sz)
