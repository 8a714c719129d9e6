-- ===== src/Protocol/Replies/Fonts.antt =====
-- src/include/protocol/requests.hpp: replies on fonts.
use xtracepp.Base.{[], ◌∷◌}
use xtracepp.Protocol.{Struct, byte_type, long_type, short_type, unused}
use xtracepp.Protocol.Replies.{charinfo}

abbrev pub query_font_reply : Struct
query_font_reply =
    ("header.reply", byte_type)
    ∷ ("unused", unused 1)
    ∷ ("header.sequence_num", short_type)
    ∷ ("header.extra_aligned_units", long_type)
    ∷ ("min_bounds", charinfo)
    ∷ ("unused", unused 4)
    ∷ ("max_bounds", charinfo)
    ∷ ("unused", unused 4)
    ∷ ("min_char_or_byte2", short_type)
    ∷ ("max_char_or_byte2", short_type)
    ∷ ("default_char", short_type)
    ∷ ("properties_ct", short_type)
    ∷ ("draw_direction", byte_type)
    ∷ ("min_byte1", byte_type)
    ∷ ("max_byte1", byte_type)
    ∷ ("all_chars_exist", byte_type)
    ∷ ("font_ascent", short_type)
    ∷ ("font_descent", short_type)
    ∷ ("char_infos_ct", long_type)
    ∷ []

abbrev pub query_text_extents_reply : Struct
query_text_extents_reply =
    ("header.reply", byte_type)
    ∷ ("header.draw_direction", byte_type)
    ∷ ("header.sequence_num", short_type)
    ∷ ("header.extra_aligned_units", long_type)
    ∷ ("font_ascent", short_type)
    ∷ ("font_descent", short_type)
    ∷ ("overall_ascent", short_type)
    ∷ ("overall_descent", short_type)
    ∷ ("overall_width", long_type)
    ∷ ("overall_left", long_type)
    ∷ ("overall_right", long_type)
    ∷ ("unused", unused 4)
    ∷ []

abbrev pub list_fonts_reply : Struct
list_fonts_reply =
    ("header.reply", byte_type)
    ∷ ("unused", unused 1)
    ∷ ("header.sequence_num", short_type)
    ∷ ("header.extra_aligned_units", long_type)
    ∷ ("names_ct", short_type)
    ∷ ("unused", unused 22)
    ∷ []

abbrev pub list_fonts_with_info_reply : Struct
list_fonts_with_info_reply =
    ("header.reply", byte_type)
    ∷ ("header.last_reply", byte_type)
    ∷ ("header.sequence_num", short_type)
    ∷ ("header.extra_aligned_units", long_type)
    ∷ ("min_bounds", charinfo)
    ∷ ("unused", unused 4)
    ∷ ("max_bounds", charinfo)
    ∷ ("unused", unused 4)
    ∷ ("min_char_or_byte2", short_type)
    ∷ ("max_char_or_byte2", short_type)
    ∷ ("default_char", short_type)
    ∷ ("properties_ct", short_type)
    ∷ ("draw_direction", byte_type)
    ∷ ("min_byte1", byte_type)
    ∷ ("max_byte1", byte_type)
    ∷ ("all_chars_exist", byte_type)
    ∷ ("font_ascent", short_type)
    ∷ ("font_descent", short_type)
    ∷ ("replies_hint", long_type)
    ∷ []

abbrev pub get_font_path_reply : Struct
get_font_path_reply =
    ("header.reply", byte_type)
    ∷ ("unused", unused 1)
    ∷ ("header.sequence_num", short_type)
    ∷ ("header.extra_aligned_units", long_type)
    ∷ ("path_ct", short_type)
    ∷ ("unused", unused 22)
    ∷ []
