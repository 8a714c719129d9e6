-- ===== src/Parser/Requests/Fonts.antt =====
-- src/X11ProtocolParser__parseRequest.cpp: requests on fonts (opcodes 45 to 52).
use xtracepp.Base.{ℕ, Bool, ok, [], ◌∷◌, ◌/◌, ◌%◌, ◌^◌, ◌==◌, if◌then◌else◌, ◌>>=◌}
use xtracepp.Base.{sub_size}
use xtracepp.Protocol.Requests.Fonts.{
  open_font, close_font, query_font, query_text_extents, list_fonts_request, set_font_path,
}
use xtracepp.Parser.ListMembers.{parse_list_of, parse_fixed, parse_str}
use xtracepp.Parser.Requests.{
  RequestParser, Suffix, parse_any, parse_own, parse_as, prefix_member, encoding_member,
  in_encoding, length_of_short, exact_length,
}
use xtracepp.Parser.Requests.Suffixes.{
  suffix_data, suffix_room, announced_sz, no_suffix, string8, list_of,
}
use xtracepp.Parser.Requests.Grabs.{parse_simple_request}

-- The string is parsed as its length says, and stepped over as the length of the request says.
unfoldable pub text_extents_string : Suffix
unfolding announced_sz parse_list_of parse_fixed prefix_member sub_size
text_extents_string r =
    let odd : ℕ = if prefix_member r "odd_length" == 0 then 0 else 1 in
    let string_len = sub_size (announced_sz r / 2) odd in
    parse_list_of (parse_fixed 2) (string_len % 2 ^ 16) (suffix_data r) (announced_sz r)
    >>= λ string. ok (announced_sz r)

module _ (little_endian : Bool) where
  unfoldable pub parse_list_fonts_request : RequestParser
  parse_list_fonts_request =
      parse_any little_endian list_fonts_request (string8 (λ r. encoding_member r "pattern_len"))
        length_of_short (in_encoding "max_names" ∷ [])

  unfoldable pub parse_open_font : RequestParser
  parse_open_font =
      parse_own little_endian open_font 45 (string8 (λ r. encoding_member r "name_len"))
        length_of_short (in_encoding "fid" ∷ [])

  unfoldable pub parse_close_font : RequestParser
  parse_close_font =
      parse_own little_endian close_font 46 no_suffix length_of_short (in_encoding "font" ∷ [])

  unfoldable pub parse_query_font : RequestParser
  parse_query_font =
      parse_own little_endian query_font 47 no_suffix length_of_short (in_encoding "font" ∷ [])

  unfoldable pub parse_query_text_extents : RequestParser
  parse_query_text_extents =
      parse_own little_endian query_text_extents 48 text_extents_string exact_length
        (in_encoding "font" ∷ [])

  unfoldable pub parse_list_fonts : RequestParser
  parse_list_fonts = parse_as little_endian 49 parse_list_fonts_request

  unfoldable pub parse_list_fonts_with_info : RequestParser
  parse_list_fonts_with_info = parse_as little_endian 50 parse_list_fonts_request

  unfoldable pub parse_set_font_path : RequestParser
  parse_set_font_path =
      parse_own little_endian set_font_path 51
        (list_of parse_str suffix_room (λ r. encoding_member r "path_ct")) length_of_short []

  unfoldable pub parse_get_font_path : RequestParser
  parse_get_font_path = parse_as little_endian 52 (parse_simple_request little_endian)
