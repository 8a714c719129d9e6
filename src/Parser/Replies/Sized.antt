-- ===== src/Parser/Replies/Sized.antt =====
-- Each reply of the core protocol is parsed whole.
pub mod Windows
pub mod Input
pub mod Fonts
pub mod Colors
pub mod Control
use xtracepp.Base.{
  none, ℕ, ◌≡◌, refl, inl, inr, Bool, false, ◌==◌, Bool-cases, Option-cases, find, find-All, All,
  ◌&∷◌,
}
use xtracepp.Parser.Replies.{ReplyParser, reply_member, replying}
use xtracepp.Parser.Replies.Core.{
  core_replies, unknown_reply, parse_unknown_reply, parse_reply_to, reply_of, is_core_request,
}
use xtracepp.Protocol.{sizeof_struct, resource_id}
use xtracepp.Protocol.Replies.{fontprop}
use xtracepp.Parser.Replies.Whole.{IsWholeReply, parse_reply-IsWhole}
use xtracepp.Parser.Replies.Aligned.{
  parse_fixed-aligned, parse_formatted-aligned, parse_host-aligned, nothing_more-IsAligned,
  reply_string-IsAligned, reply_list-IsAligned, padded_list-IsAligned, two_lists-IsAligned,
  keycodes-IsAligned, property_value-IsAligned, font_info-IsAligned, rest_of_reply-IsAligned,
}
use xtracepp.Parser.Replies.Windows.{
  parse_get_window_attributes_reply, parse_get_geometry_reply, parse_query_tree_reply,
  parse_intern_atom_reply, parse_get_atom_name_reply, parse_get_property_reply,
  parse_list_properties_reply, parse_get_selection_owner_reply,
}
use xtracepp.Parser.Replies.Input.{
  parse_grab_pointer_reply, parse_grab_keyboard_reply, parse_query_pointer_reply,
  parse_get_motion_events_reply, parse_translate_coordinates_reply, parse_get_input_focus_reply,
  parse_query_keymap_reply,
}
use xtracepp.Parser.Replies.Fonts.{
  parse_query_font_reply, parse_query_text_extents_reply, parse_list_fonts_reply,
  parse_get_font_path_reply, parse_list_fonts_with_info_reply,
}
use xtracepp.Parser.Replies.Colors.{
  parse_get_image_reply, parse_list_installed_colormaps_reply, parse_alloc_color_reply,
  parse_alloc_named_color_reply, parse_alloc_color_cells_reply, parse_alloc_color_planes_reply,
  parse_query_colors_reply, parse_lookup_color_reply, parse_query_best_size_reply,
}
use xtracepp.Parser.Replies.Control.{
  parse_query_extension_reply, parse_list_extensions_reply, parse_get_keyboard_mapping_reply,
  parse_get_keyboard_control_reply, parse_get_pointer_control_reply, parse_get_screen_saver_reply,
  parse_list_hosts_reply, parse_set_pointer_mapping_reply, parse_set_modifier_mapping_reply,
  parse_get_modifier_mapping_reply,
}
use xtracepp.Protocol.Replies.Windows.{
  get_window_attributes_reply, get_geometry_reply, query_tree_reply, intern_atom_reply,
  get_atom_name_reply, get_property_reply, list_properties_reply, get_selection_owner_reply,
}
use xtracepp.Protocol.Replies.Input.{
  grab_pointer_reply, grab_keyboard_reply, query_pointer_reply, get_motion_events_reply,
  translate_coordinates_reply, get_input_focus_reply, query_keymap_reply,
}
use xtracepp.Protocol.Replies.Fonts.{
  query_font_reply, query_text_extents_reply, list_fonts_reply, get_font_path_reply,
  list_fonts_with_info_reply,
}
use xtracepp.Protocol.Replies.Colors.{
  get_image_reply, list_installed_colormaps_reply, alloc_color_reply, alloc_named_color_reply,
  alloc_color_cells_reply, alloc_color_planes_reply, query_colors_reply, lookup_color_reply,
  query_best_size_reply,
}
use xtracepp.Protocol.Replies.Control.{
  query_extension_reply, list_extensions_reply, get_keyboard_mapping_reply,
  get_keyboard_control_reply, get_pointer_control_reply, get_screen_saver_reply, list_hosts_reply,
  set_pointer_mapping_reply, set_modifier_mapping_reply, get_modifier_mapping_reply,
}
use xtracepp.Parser.Replies.Sized.Windows.{
  parse_get_window_attributes_reply-IsWhole, parse_get_geometry_reply-IsWhole,
  parse_query_tree_reply-IsWhole, parse_intern_atom_reply-IsWhole,
  parse_get_atom_name_reply-IsWhole, parse_get_property_reply-IsWhole,
  parse_list_properties_reply-IsWhole, parse_get_selection_owner_reply-IsWhole,
}
use xtracepp.Parser.Replies.Sized.Input.{
  parse_grab_pointer_reply-IsWhole, parse_grab_keyboard_reply-IsWhole,
  parse_query_pointer_reply-IsWhole, parse_get_motion_events_reply-IsWhole,
  parse_translate_coordinates_reply-IsWhole, parse_get_input_focus_reply-IsWhole,
  parse_query_keymap_reply-IsWhole,
}
use xtracepp.Parser.Replies.Sized.Fonts.{
  parse_query_font_reply-IsWhole, parse_query_text_extents_reply-IsWhole,
  parse_list_fonts_reply-IsWhole, parse_get_font_path_reply-IsWhole,
  parse_list_fonts_with_info_reply-IsWhole,
}
use xtracepp.Parser.Replies.Sized.Colors.{
  parse_get_image_reply-IsWhole, parse_list_installed_colormaps_reply-IsWhole,
  parse_alloc_color_reply-IsWhole, parse_alloc_named_color_reply-IsWhole,
  parse_alloc_color_cells_reply-IsWhole, parse_alloc_color_planes_reply-IsWhole,
  parse_query_colors_reply-IsWhole, parse_lookup_color_reply-IsWhole,
  parse_query_best_size_reply-IsWhole,
}
use xtracepp.Parser.Replies.Sized.Control.{
  parse_query_extension_reply-IsWhole, parse_list_extensions_reply-IsWhole,
  parse_get_keyboard_mapping_reply-IsWhole, parse_get_keyboard_control_reply-IsWhole,
  parse_get_pointer_control_reply-IsWhole, parse_get_screen_saver_reply-IsWhole,
  parse_list_hosts_reply-IsWhole, parse_set_pointer_mapping_reply-IsWhole,
  parse_set_modifier_mapping_reply-IsWhole, parse_get_modifier_mapping_reply-IsWhole,
}

module _ (little_endian : Bool) where
  pub parse_unknown_reply-IsWhole : IsWholeReply little_endian (parse_unknown_reply little_endian)
  unfolding parse_unknown_reply sizeof_struct
  parse_unknown_reply-IsWhole =
      parse_reply-IsWhole little_endian unknown_reply _ _ refl rest_of_reply-IsAligned

  core_replies-IsWhole :
      All
        (λ (entry : ℕ × ReplyParser). (entry.0 == 117) ≡ false → IsWholeReply little_endian entry.1)
        (core_replies little_endian)
  core_replies-IsWhole =
      (λ other. parse_get_window_attributes_reply-IsWhole little_endian)
      &∷ (λ other. parse_get_geometry_reply-IsWhole little_endian)
      &∷ (λ other. parse_query_tree_reply-IsWhole little_endian)
      &∷ (λ other. parse_intern_atom_reply-IsWhole little_endian)
      &∷ (λ other. parse_get_atom_name_reply-IsWhole little_endian)
      &∷ (λ other. parse_get_property_reply-IsWhole little_endian)
      &∷ (λ other. parse_list_properties_reply-IsWhole little_endian)
      &∷ (λ other. parse_get_selection_owner_reply-IsWhole little_endian)
      &∷ (λ other. parse_grab_pointer_reply-IsWhole little_endian)
      &∷ (λ other. parse_grab_keyboard_reply-IsWhole little_endian)
      &∷ (λ other. parse_query_pointer_reply-IsWhole little_endian)
      &∷ (λ other. parse_get_motion_events_reply-IsWhole little_endian)
      &∷ (λ other. parse_translate_coordinates_reply-IsWhole little_endian)
      &∷ (λ other. parse_get_input_focus_reply-IsWhole little_endian)
      &∷ (λ other. parse_query_keymap_reply-IsWhole little_endian)
      &∷ (λ other. parse_query_font_reply-IsWhole little_endian)
      &∷ (λ other. parse_query_text_extents_reply-IsWhole little_endian)
      &∷ (λ other. parse_list_fonts_reply-IsWhole little_endian)
      &∷ (λ other. parse_list_fonts_with_info_reply-IsWhole little_endian)
      &∷ (λ other. parse_get_font_path_reply-IsWhole little_endian)
      &∷ (λ other. parse_get_image_reply-IsWhole little_endian)
      &∷ (λ other. parse_list_installed_colormaps_reply-IsWhole little_endian)
      &∷ (λ other. parse_alloc_color_reply-IsWhole little_endian)
      &∷ (λ other. parse_alloc_named_color_reply-IsWhole little_endian)
      &∷ (λ other. parse_alloc_color_cells_reply-IsWhole little_endian)
      &∷ (λ other. parse_alloc_color_planes_reply-IsWhole little_endian)
      &∷ (λ other. parse_query_colors_reply-IsWhole little_endian)
      &∷ (λ other. parse_lookup_color_reply-IsWhole little_endian)
      &∷ (λ other. parse_query_best_size_reply-IsWhole little_endian)
      &∷ (λ other. parse_query_extension_reply-IsWhole little_endian)
      &∷ (λ other. parse_list_extensions_reply-IsWhole little_endian)
      &∷ (λ other. parse_get_keyboard_mapping_reply-IsWhole little_endian)
      &∷ (λ other. parse_get_keyboard_control_reply-IsWhole little_endian)
      &∷ (λ other. parse_get_pointer_control_reply-IsWhole little_endian)
      &∷ (λ other. parse_get_screen_saver_reply-IsWhole little_endian)
      &∷ (λ other. parse_list_hosts_reply-IsWhole little_endian)
      &∷ (λ other. parse_set_pointer_mapping_reply-IsWhole little_endian)
      &∷ (λ other. cc)
      &∷ (λ other. parse_set_modifier_mapping_reply-IsWhole little_endian)
      &∷ (λ other. parse_get_modifier_mapping_reply-IsWhole little_endian)
      &∷ tt

  reply_of-none-IsWhole :
      (major : ℕ) → IsWholeReply little_endian (reply_of little_endian none major)
  unfolding reply_of
  reply_of-none-IsWhole major conn d sz n e = elim (Bool-cases (is_core_request major)) [
    | inl core ↦ let refused = rw core at e in cc
    | inr other ↦ parse_unknown_reply-IsWhole conn d sz n (rw other at e)
  ]

  pub parse_reply_to-IsWhole :
      (major : ℕ)
      → (major == 117) ≡ false
      → IsWholeReply little_endian (parse_reply_to little_endian major)
  unfolding parse_reply_to
  parse_reply_to-IsWhole major other =
      elim (Option-cases (find major (core_replies little_endian))) [
        | inl unknown ↦ rw unknown (reply_of-none-IsWhole major)
        | inr (parser, found) ↦ rw found (
            find-All
              (λ (entry : ℕ × ReplyParser).
                (entry.0 == 117) ≡ false → IsWholeReply little_endian entry.1)
              major (core_replies little_endian) parser core_replies-IsWhole found other)
      ]
