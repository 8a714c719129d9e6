-- ===== src/Parser/Replies/Fonts.antt =====
-- src/X11ProtocolParser__parseReply.cpp: replies on fonts.
use xtracepp.Base.{Bool, [], ◌∷◌, ◌+◌, ◌==◌, if◌then◌else◌, ok, ◌>>=◌}
use xtracepp.Wire.Alignment.{pad}
use xtracepp.Protocol.{sizeof_struct}
use xtracepp.Protocol.Replies.{fontprop}
use xtracepp.Protocol.Replies.Fonts.{
  query_font_reply, query_text_extents_reply, list_fonts_reply, list_fonts_with_info_reply,
  get_font_path_reply,
}
use xtracepp.Parser.ListMembers.{parse_fixed, parse_str}
use xtracepp.Parser.Requests.Suffixes.{parse_formatted}
use xtracepp.Parser.Replies.{
  ReplySuffix, ReplyParser, reply_member, raw_reply_member, replying, parse_reply,
}
use xtracepp.Parser.Replies.Suffixes.{nothing_more, list_at, padded_list, two_lists}

-- The name's length is the byte that tells the last reply from the others.
unfoldable pub font_info : ReplySuffix
unfolding list_at sizeof_struct raw_reply_member pad
font_info r = do
  properties ← list_at (λ o. parse_formatted o fontprop) (reply_member r "properties_ct") 60 r
  ok (properties + pad (raw_reply_member r "header.last_reply"))

module _ (little_endian : Bool) where
  unfoldable pub parse_query_font_reply : ReplyParser
  parse_query_font_reply =
      parse_reply little_endian query_font_reply
        (two_lists (λ o. parse_formatted o fontprop) (λ r. reply_member r "properties_ct")
          (λ o. parse_fixed 12) (λ r. reply_member r "char_infos_ct"))
        ("min_bounds" ∷ "max_bounds" ∷ "min_char_or_byte2" ∷ "max_char_or_byte2" ∷ "default_char"
          ∷ "draw_direction" ∷ "min_byte1" ∷ "max_byte1" ∷ "all_chars_exist" ∷ "font_ascent"
          ∷ "font_descent" ∷ [])

  unfoldable pub parse_query_text_extents_reply : ReplyParser
  parse_query_text_extents_reply = parse_reply little_endian query_text_extents_reply nothing_more (
      "header.draw_direction" ∷ "font_ascent" ∷ "font_descent" ∷ "overall_ascent"
      ∷ "overall_descent" ∷ "overall_width" ∷ "overall_left" ∷ "overall_right" ∷ [])

  unfoldable pub parse_list_fonts_reply : ReplyParser
  parse_list_fonts_reply =
      parse_reply little_endian list_fonts_reply
        (padded_list parse_str (λ r. reply_member r "names_ct")) []

  -- The last reply of the request has no suffix; no text shows its members.
  unfoldable pub parse_list_fonts_with_info_reply : ReplyParser
  parse_list_fonts_with_info_reply conn d sz =
      if reply_member (replying little_endian list_fonts_with_info_reply conn d sz)
          "header.last_reply"
        == 0
      then parse_reply little_endian list_fonts_with_info_reply nothing_more
          ("header.last_reply" ∷ []) conn d sz
      else parse_reply little_endian list_fonts_with_info_reply font_info
          ("header.last_reply" ∷ "min_bounds" ∷ "max_bounds" ∷ "min_char_or_byte2"
            ∷ "max_char_or_byte2" ∷ "default_char" ∷ "draw_direction" ∷ "min_byte1" ∷ "max_byte1"
            ∷ "all_chars_exist" ∷ "font_ascent" ∷ "font_descent" ∷ "replies_hint" ∷ [])
          conn d sz

  unfoldable pub parse_get_font_path_reply : ReplyParser
  parse_get_font_path_reply =
      parse_reply little_endian get_font_path_reply
        (padded_list parse_str (λ r. reply_member r "path_ct")) []
