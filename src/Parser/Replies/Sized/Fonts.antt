-- ===== src/Parser/Replies/Sized/Fonts.antt =====
-- Replies on fonts are parsed whole.
use xtracepp.Base.{refl, inl, inr, Bool, ◌==◌, Bool-cases}
use xtracepp.Parser.Replies.{reply_member, replying}
use xtracepp.Protocol.{sizeof_struct}
use xtracepp.Protocol.Replies.{fontprop}
use xtracepp.Parser.Replies.Whole.{IsWholeReply, parse_reply-IsWhole}
use xtracepp.Parser.Replies.Aligned.{
  parse_fixed-aligned, parse_formatted-aligned, nothing_more-IsAligned, padded_list-IsAligned,
  two_lists-IsAligned, font_info-IsAligned,
}
use xtracepp.Parser.Replies.Fonts.{
  parse_query_font_reply, parse_query_text_extents_reply, parse_list_fonts_reply,
  parse_get_font_path_reply, parse_list_fonts_with_info_reply,
}
use xtracepp.Protocol.Replies.Fonts.{
  query_font_reply, query_text_extents_reply, list_fonts_reply, get_font_path_reply,
  list_fonts_with_info_reply,
}

module _ (little_endian : Bool) where
  pub parse_query_font_reply-IsWhole :
      IsWholeReply little_endian (parse_query_font_reply little_endian)
  unfolding parse_query_font_reply sizeof_struct
  parse_query_font_reply-IsWhole = parse_reply-IsWhole little_endian query_font_reply _ _ refl (
      two_lists-IsAligned _ _ _ _ (λ o. parse_formatted-aligned o fontprop refl)
        (λ o. parse_fixed-aligned 12 refl))

  pub parse_query_text_extents_reply-IsWhole :
      IsWholeReply little_endian (parse_query_text_extents_reply little_endian)
  unfolding parse_query_text_extents_reply sizeof_struct
  parse_query_text_extents_reply-IsWhole =
      parse_reply-IsWhole little_endian query_text_extents_reply _ _ refl nothing_more-IsAligned

  pub parse_list_fonts_reply-IsWhole :
      IsWholeReply little_endian (parse_list_fonts_reply little_endian)
  unfolding parse_list_fonts_reply sizeof_struct
  parse_list_fonts_reply-IsWhole =
      parse_reply-IsWhole little_endian list_fonts_reply _ _ refl (padded_list-IsAligned _ _)

  pub parse_get_font_path_reply-IsWhole :
      IsWholeReply little_endian (parse_get_font_path_reply little_endian)
  unfolding parse_get_font_path_reply sizeof_struct
  parse_get_font_path_reply-IsWhole =
      parse_reply-IsWhole little_endian get_font_path_reply _ _ refl (padded_list-IsAligned _ _)

  pub parse_list_fonts_with_info_reply-IsWhole :
      IsWholeReply little_endian (parse_list_fonts_with_info_reply little_endian)
  unfolding parse_list_fonts_with_info_reply sizeof_struct
  parse_list_fonts_with_info_reply-IsWhole conn d sz n e =
      elim (Bool-cases (
        reply_member (replying little_endian list_fonts_with_info_reply conn d sz)
          "header.last_reply"
        == 0)) [
          | inl last ↦
              parse_reply-IsWhole little_endian list_fonts_with_info_reply _ _ refl
                nothing_more-IsAligned conn d sz n (rw last at e)
          | inr more ↦
              parse_reply-IsWhole little_endian list_fonts_with_info_reply _ _ refl
                font_info-IsAligned conn d sz n (rw more at e)
        ]
