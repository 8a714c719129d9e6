-- ===== src/Parser/Replies/Core.antt =====
-- src/X11ProtocolParser__core_requests.cpp: the function for the reply to each opcode of the core
-- protocol, and `_UnknownRequest` of src/X11ProtocolParser__parseReply.cpp for all others.
use xtracepp.Base.{
  leb, ◌==◌, ◌&&◌, ◌||◌, if◌then◌else◌, aborted, ℕ, Bool, List, [], ◌∷◌, Option, none, some, ok,
  find,
}
use xtracepp.Wire.Alignment.{aligned_size}
use xtracepp.Parser.Fields.{u32}
use xtracepp.Protocol.{Struct, byte_type, short_type, long_type, unused}
use xtracepp.Parser.Replies.{ReplyParser, ReplySuffix, parse_reply}
use xtracepp.Parser.Replies.Windows.{
  parse_get_window_attributes_reply, parse_get_geometry_reply, parse_query_tree_reply,
  parse_intern_atom_reply, parse_get_atom_name_reply, parse_get_property_reply,
  parse_list_properties_reply, parse_get_selection_owner_reply,
}
use xtracepp.Parser.Replies.Input.{
  parse_grab_pointer_reply, parse_grab_keyboard_reply, parse_query_pointer_reply,
  parse_get_motion_events_reply, parse_translate_coordinates_reply, parse_get_input_focus_reply,
  parse_query_keymap_reply,
}
use xtracepp.Parser.Replies.Fonts.{
  parse_query_font_reply, parse_query_text_extents_reply, parse_list_fonts_reply,
  parse_get_font_path_reply, parse_list_fonts_with_info_reply,
}
use xtracepp.Parser.Replies.Colors.{
  parse_get_image_reply, parse_list_installed_colormaps_reply, parse_alloc_color_reply,
  parse_alloc_named_color_reply, parse_alloc_color_cells_reply, parse_alloc_color_planes_reply,
  parse_query_colors_reply, parse_lookup_color_reply, parse_query_best_size_reply,
}
use xtracepp.Parser.Replies.Control.{
  parse_query_extension_reply, parse_list_extensions_reply, parse_get_keyboard_mapping_reply,
  parse_get_keyboard_control_reply, parse_get_pointer_control_reply, parse_get_screen_saver_reply,
  parse_list_hosts_reply, parse_set_pointer_mapping_reply, parse_get_pointer_mapping_reply,
  parse_set_modifier_mapping_reply, parse_get_modifier_mapping_reply,
}

abbrev pub unknown_reply : Struct
unknown_reply =
    ("header.reply", byte_type)
    ∷ ("unused", unused 1)
    ∷ ("header.sequence_num", short_type)
    ∷ ("header.extra_aligned_units", long_type)
    ∷ ("unused", unused 24)
    ∷ []

unfoldable pub rest_of_reply : ReplySuffix
unfolding aligned_size
rest_of_reply r = ok (aligned_size (u32 r.order r.message 4))

-- The opcodes of `_core_requests`.
unfoldable pub is_core_request : ℕ → Bool
is_core_request major = (leb 1 major && leb major 119) || major == 127

module _ (little_endian : Bool) where
  abbrev pub core_replies : List (ℕ × ReplyParser)
  core_replies =
      (3, parse_get_window_attributes_reply little_endian)
      ∷ (14, parse_get_geometry_reply little_endian)
      ∷ (15, parse_query_tree_reply little_endian)
      ∷ (16, parse_intern_atom_reply little_endian)
      ∷ (17, parse_get_atom_name_reply little_endian)
      ∷ (20, parse_get_property_reply little_endian)
      ∷ (21, parse_list_properties_reply little_endian)
      ∷ (23, parse_get_selection_owner_reply little_endian)
      ∷ (26, parse_grab_pointer_reply little_endian)
      ∷ (31, parse_grab_keyboard_reply little_endian)
      ∷ (38, parse_query_pointer_reply little_endian)
      ∷ (39, parse_get_motion_events_reply little_endian)
      ∷ (40, parse_translate_coordinates_reply little_endian)
      ∷ (43, parse_get_input_focus_reply little_endian)
      ∷ (44, parse_query_keymap_reply little_endian)
      ∷ (47, parse_query_font_reply little_endian)
      ∷ (48, parse_query_text_extents_reply little_endian)
      ∷ (49, parse_list_fonts_reply little_endian)
      ∷ (50, parse_list_fonts_with_info_reply little_endian)
      ∷ (52, parse_get_font_path_reply little_endian)
      ∷ (73, parse_get_image_reply little_endian)
      ∷ (83, parse_list_installed_colormaps_reply little_endian)
      ∷ (84, parse_alloc_color_reply little_endian)
      ∷ (85, parse_alloc_named_color_reply little_endian)
      ∷ (86, parse_alloc_color_cells_reply little_endian)
      ∷ (87, parse_alloc_color_planes_reply little_endian)
      ∷ (91, parse_query_colors_reply little_endian)
      ∷ (92, parse_lookup_color_reply little_endian)
      ∷ (97, parse_query_best_size_reply little_endian)
      ∷ (98, parse_query_extension_reply little_endian)
      ∷ (99, parse_list_extensions_reply little_endian)
      ∷ (101, parse_get_keyboard_mapping_reply little_endian)
      ∷ (103, parse_get_keyboard_control_reply little_endian)
      ∷ (106, parse_get_pointer_control_reply little_endian)
      ∷ (108, parse_get_screen_saver_reply little_endian)
      ∷ (110, parse_list_hosts_reply little_endian)
      ∷ (116, parse_set_pointer_mapping_reply little_endian)
      ∷ (117, parse_get_pointer_mapping_reply little_endian)
      ∷ (118, parse_set_modifier_mapping_reply little_endian)
      ∷ (119, parse_get_modifier_mapping_reply little_endian)
      ∷ []

  unfoldable pub parse_unknown_reply : ReplyParser
  parse_unknown_reply = parse_reply little_endian unknown_reply rest_of_reply []

  -- The functions for requests that have no reply are null, which the dispatch asserts against.
  unfoldable pub reply_of : Option ReplyParser → ℕ → ReplyParser
  unfolding is_core_request
  reply_of none major =
      if is_core_request major then (λ conn d sz. aborted) else parse_unknown_reply
  reply_of (some parser) major = parser

  -- What `_logReply` calls for a major opcode of the core protocol or an unknown one.
  unfoldable pub parse_reply_to : ℕ → ReplyParser
  unfolding find reply_of
  parse_reply_to major = reply_of (find major core_replies) major
