-- ===== src/Parser/Requests/Whole/Fonts.antt =====
-- The requests on fonts (opcodes 45 to 52) are parsed whole.
use xtracepp.Base.{refl, Bool}
use xtracepp.Protocol.{sizeof_struct}
use xtracepp.Parser.Requests.Fonts.{
  parse_close_font, parse_get_font_path, parse_list_fonts, parse_list_fonts_request,
  parse_list_fonts_with_info, parse_open_font, parse_query_font, parse_query_text_extents,
  parse_set_font_path,
}
use xtracepp.Parser.Requests.Grabs.{parse_simple_request}
use xtracepp.Parser.Requests.Whole.Grabs.{parse_simple_request-IsWhole}
use xtracepp.Protocol.Requests.Fonts.{
  close_font, list_fonts_request, open_font, query_font, query_text_extents, set_font_path,
}
use xtracepp.Parser.Requests.Whole.{IsWhole, parse_any-IsWhole, parse_own-IsWhole, parse_as-IsWhole}
use xtracepp.Parser.Requests.Whole.Suffixes.{
  list_of-IsAligned, no_suffix-IsAligned, string8-IsAligned, text_extents_string-IsAligned,
}

module _ (little_endian : Bool) where
  pub parse_list_fonts_request-IsWhole :
      IsWhole little_endian (parse_list_fonts_request little_endian)
  unfolding sizeof_struct parse_list_fonts_request
  parse_list_fonts_request-IsWhole =
      parse_any-IsWhole little_endian list_fonts_request
        (record { two_bytes = refl; aligned = refl }) _ (string8-IsAligned _) _ _

  pub parse_open_font-IsWhole : IsWhole little_endian (parse_open_font little_endian)
  unfolding sizeof_struct parse_open_font
  parse_open_font-IsWhole =
      parse_own-IsWhole little_endian open_font 45 _ _ _
        (record { two_bytes = refl; aligned = refl }) (string8-IsAligned _)

  pub parse_close_font-IsWhole : IsWhole little_endian (parse_close_font little_endian)
  unfolding sizeof_struct parse_close_font
  parse_close_font-IsWhole =
      parse_own-IsWhole little_endian close_font 46 _ _ _
        (record { two_bytes = refl; aligned = refl }) no_suffix-IsAligned

  pub parse_query_font-IsWhole : IsWhole little_endian (parse_query_font little_endian)
  unfolding sizeof_struct parse_query_font
  parse_query_font-IsWhole =
      parse_own-IsWhole little_endian query_font 47 _ _ _
        (record { two_bytes = refl; aligned = refl }) no_suffix-IsAligned

  pub parse_query_text_extents-IsWhole :
      IsWhole little_endian (parse_query_text_extents little_endian)
  unfolding sizeof_struct parse_query_text_extents
  parse_query_text_extents-IsWhole =
      parse_own-IsWhole little_endian query_text_extents 48 _ _ _
        (record { two_bytes = refl; aligned = refl }) text_extents_string-IsAligned

  pub parse_list_fonts-IsWhole : IsWhole little_endian (parse_list_fonts little_endian)
  unfolding parse_list_fonts
  parse_list_fonts-IsWhole =
      parse_as-IsWhole little_endian 49 (parse_list_fonts_request little_endian)
        parse_list_fonts_request-IsWhole

  pub parse_list_fonts_with_info-IsWhole :
      IsWhole little_endian (parse_list_fonts_with_info little_endian)
  unfolding parse_list_fonts_with_info
  parse_list_fonts_with_info-IsWhole =
      parse_as-IsWhole little_endian 50 (parse_list_fonts_request little_endian)
        parse_list_fonts_request-IsWhole

  pub parse_set_font_path-IsWhole : IsWhole little_endian (parse_set_font_path little_endian)
  unfolding sizeof_struct parse_set_font_path
  parse_set_font_path-IsWhole =
      parse_own-IsWhole little_endian set_font_path 51 _ _ _
        (record { two_bytes = refl; aligned = refl }) (list_of-IsAligned _ _ _)

  pub parse_get_font_path-IsWhole : IsWhole little_endian (parse_get_font_path little_endian)
  unfolding parse_get_font_path
  parse_get_font_path-IsWhole =
      parse_as-IsWhole little_endian 52 (parse_simple_request little_endian)
        (parse_simple_request-IsWhole little_endian)
