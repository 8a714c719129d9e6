-- ===== src/Parser/Requests/Core.antt =====
-- src/X11ProtocolParser__core_requests.cpp: the function for each opcode of the core protocol, and
-- `_UnknownRequest` of src/X11ProtocolParser__parseRequest.cpp for all others.
use xtracepp.Base.{ℕ, Bool, List, [], ◌∷◌, Option, none, some, find}
use xtracepp.Protocol.Requests.Grabs.{simple_request}
use xtracepp.Parser.Requests.{RequestParser, parse_any, exact_length}
use xtracepp.Parser.Requests.Drawing.{image_data}
use xtracepp.Parser.Requests.Windows.{
  parse_create_window, parse_change_window_attributes, parse_get_window_attributes,
  parse_destroy_window, parse_destroy_subwindows, parse_change_save_set, parse_reparent_window,
  parse_map_window, parse_map_subwindows, parse_unmap_window, parse_unmap_subwindows,
  parse_configure_window, parse_circulate_window, parse_get_geometry, parse_query_tree,
}
use xtracepp.Parser.Requests.Properties.{
  parse_intern_atom, parse_get_atom_name, parse_change_property, parse_delete_property,
  parse_get_property, parse_list_properties, parse_set_selection_owner, parse_get_selection_owner,
  parse_convert_selection, parse_send_event,
}
use xtracepp.Parser.Requests.Grabs.{
  parse_grab_pointer, parse_ungrab_pointer, parse_grab_button, parse_ungrab_button,
  parse_change_active_pointer_grab, parse_grab_keyboard, parse_ungrab_keyboard, parse_grab_key,
  parse_ungrab_key, parse_allow_events, parse_grab_server, parse_ungrab_server, parse_query_pointer,
  parse_get_motion_events, parse_translate_coordinates, parse_warp_pointer, parse_set_input_focus,
  parse_get_input_focus, parse_query_keymap,
}
use xtracepp.Parser.Requests.Fonts.{
  parse_open_font, parse_close_font, parse_query_font, parse_query_text_extents, parse_list_fonts,
  parse_list_fonts_with_info, parse_set_font_path, parse_get_font_path,
}
use xtracepp.Parser.Requests.Contexts.{
  parse_create_pixmap, parse_free_pixmap, parse_create_gc, parse_change_gc, parse_copy_gc,
  parse_set_dashes, parse_set_clip_rectangles, parse_free_gc, parse_clear_area, parse_copy_area,
  parse_copy_plane,
}
use xtracepp.Parser.Requests.Drawing.{
  parse_poly_point, parse_poly_line, parse_poly_segment, parse_poly_rectangle, parse_poly_arc,
  parse_fill_poly, parse_poly_fill_rectangle, parse_poly_fill_arc, parse_put_image, parse_get_image,
  parse_poly_text8, parse_poly_text16, parse_image_text8, parse_image_text16,
}
use xtracepp.Parser.Requests.Colors.{
  parse_create_colormap, parse_free_colormap, parse_copy_colormap_and_free, parse_install_colormap,
  parse_uninstall_colormap, parse_list_installed_colormaps, parse_alloc_color,
  parse_alloc_named_color, parse_alloc_color_cells, parse_alloc_color_planes, parse_free_colors,
  parse_store_colors, parse_store_named_color, parse_query_colors, parse_lookup_color,
  parse_create_cursor, parse_create_glyph_cursor, parse_free_cursor, parse_recolor_cursor,
  parse_query_best_size,
}
use xtracepp.Parser.Requests.Control.{
  parse_query_extension, parse_list_extensions, parse_change_keyboard_mapping,
  parse_get_keyboard_mapping, parse_change_keyboard_control, parse_get_keyboard_control, parse_bell,
  parse_change_pointer_control, parse_get_pointer_control, parse_set_screen_saver,
  parse_get_screen_saver, parse_change_hosts, parse_list_hosts, parse_set_access_control,
  parse_set_close_down_mode, parse_kill_client, parse_rotate_properties, parse_force_screen_saver,
  parse_set_pointer_mapping, parse_get_pointer_mapping, parse_set_modifier_mapping,
  parse_get_modifier_mapping, parse_no_operation,
}

module _ (little_endian : Bool) (events : ℕ → RequestParser) where
  abbrev pub core_requests : List (ℕ × RequestParser)
  core_requests =
      (1, parse_create_window little_endian)
      ∷ (2, parse_change_window_attributes little_endian)
      ∷ (3, parse_get_window_attributes little_endian)
      ∷ (4, parse_destroy_window little_endian)
      ∷ (5, parse_destroy_subwindows little_endian)
      ∷ (6, parse_change_save_set little_endian)
      ∷ (7, parse_reparent_window little_endian)
      ∷ (8, parse_map_window little_endian)
      ∷ (9, parse_map_subwindows little_endian)
      ∷ (10, parse_unmap_window little_endian)
      ∷ (11, parse_unmap_subwindows little_endian)
      ∷ (12, parse_configure_window little_endian)
      ∷ (13, parse_circulate_window little_endian)
      ∷ (14, parse_get_geometry little_endian)
      ∷ (15, parse_query_tree little_endian)
      ∷ (16, parse_intern_atom little_endian)
      ∷ (17, parse_get_atom_name little_endian)
      ∷ (18, parse_change_property little_endian)
      ∷ (19, parse_delete_property little_endian)
      ∷ (20, parse_get_property little_endian)
      ∷ (21, parse_list_properties little_endian)
      ∷ (22, parse_set_selection_owner little_endian)
      ∷ (23, parse_get_selection_owner little_endian)
      ∷ (24, parse_convert_selection little_endian)
      ∷ (25, parse_send_event little_endian events)
      ∷ (26, parse_grab_pointer little_endian)
      ∷ (27, parse_ungrab_pointer little_endian)
      ∷ (28, parse_grab_button little_endian)
      ∷ (29, parse_ungrab_button little_endian)
      ∷ (30, parse_change_active_pointer_grab little_endian)
      ∷ (31, parse_grab_keyboard little_endian)
      ∷ (32, parse_ungrab_keyboard little_endian)
      ∷ (33, parse_grab_key little_endian)
      ∷ (34, parse_ungrab_key little_endian)
      ∷ (35, parse_allow_events little_endian)
      ∷ (36, parse_grab_server little_endian)
      ∷ (37, parse_ungrab_server little_endian)
      ∷ (38, parse_query_pointer little_endian)
      ∷ (39, parse_get_motion_events little_endian)
      ∷ (40, parse_translate_coordinates little_endian)
      ∷ (41, parse_warp_pointer little_endian)
      ∷ (42, parse_set_input_focus little_endian)
      ∷ (43, parse_get_input_focus little_endian)
      ∷ (44, parse_query_keymap little_endian)
      ∷ (45, parse_open_font little_endian)
      ∷ (46, parse_close_font little_endian)
      ∷ (47, parse_query_font little_endian)
      ∷ (48, parse_query_text_extents little_endian)
      ∷ (49, parse_list_fonts little_endian)
      ∷ (50, parse_list_fonts_with_info little_endian)
      ∷ (51, parse_set_font_path little_endian)
      ∷ (52, parse_get_font_path little_endian)
      ∷ (53, parse_create_pixmap little_endian)
      ∷ (54, parse_free_pixmap little_endian)
      ∷ (55, parse_create_gc little_endian)
      ∷ (56, parse_change_gc little_endian)
      ∷ (57, parse_copy_gc little_endian)
      ∷ (58, parse_set_dashes little_endian)
      ∷ (59, parse_set_clip_rectangles little_endian)
      ∷ (60, parse_free_gc little_endian)
      ∷ (61, parse_clear_area little_endian)
      ∷ (62, parse_copy_area little_endian)
      ∷ (63, parse_copy_plane little_endian)
      ∷ (64, parse_poly_point little_endian)
      ∷ (65, parse_poly_line little_endian)
      ∷ (66, parse_poly_segment little_endian)
      ∷ (67, parse_poly_rectangle little_endian)
      ∷ (68, parse_poly_arc little_endian)
      ∷ (69, parse_fill_poly little_endian)
      ∷ (70, parse_poly_fill_rectangle little_endian)
      ∷ (71, parse_poly_fill_arc little_endian)
      ∷ (72, parse_put_image little_endian)
      ∷ (73, parse_get_image little_endian)
      ∷ (74, parse_poly_text8 little_endian)
      ∷ (75, parse_poly_text16 little_endian)
      ∷ (76, parse_image_text8 little_endian)
      ∷ (77, parse_image_text16 little_endian)
      ∷ (78, parse_create_colormap little_endian)
      ∷ (79, parse_free_colormap little_endian)
      ∷ (80, parse_copy_colormap_and_free little_endian)
      ∷ (81, parse_install_colormap little_endian)
      ∷ (82, parse_uninstall_colormap little_endian)
      ∷ (83, parse_list_installed_colormaps little_endian)
      ∷ (84, parse_alloc_color little_endian)
      ∷ (85, parse_alloc_named_color little_endian)
      ∷ (86, parse_alloc_color_cells little_endian)
      ∷ (87, parse_alloc_color_planes little_endian)
      ∷ (88, parse_free_colors little_endian)
      ∷ (89, parse_store_colors little_endian)
      ∷ (90, parse_store_named_color little_endian)
      ∷ (91, parse_query_colors little_endian)
      ∷ (92, parse_lookup_color little_endian)
      ∷ (93, parse_create_cursor little_endian)
      ∷ (94, parse_create_glyph_cursor little_endian)
      ∷ (95, parse_free_cursor little_endian)
      ∷ (96, parse_recolor_cursor little_endian)
      ∷ (97, parse_query_best_size little_endian)
      ∷ (98, parse_query_extension little_endian)
      ∷ (99, parse_list_extensions little_endian)
      ∷ (100, parse_change_keyboard_mapping little_endian)
      ∷ (101, parse_get_keyboard_mapping little_endian)
      ∷ (102, parse_change_keyboard_control little_endian)
      ∷ (103, parse_get_keyboard_control little_endian)
      ∷ (104, parse_bell little_endian)
      ∷ (105, parse_change_pointer_control little_endian)
      ∷ (106, parse_get_pointer_control little_endian)
      ∷ (107, parse_set_screen_saver little_endian)
      ∷ (108, parse_get_screen_saver little_endian)
      ∷ (109, parse_change_hosts little_endian)
      ∷ (110, parse_list_hosts little_endian)
      ∷ (111, parse_set_access_control little_endian)
      ∷ (112, parse_set_close_down_mode little_endian)
      ∷ (113, parse_kill_client little_endian)
      ∷ (114, parse_rotate_properties little_endian)
      ∷ (115, parse_force_screen_saver little_endian)
      ∷ (116, parse_set_pointer_mapping little_endian)
      ∷ (117, parse_get_pointer_mapping little_endian)
      ∷ (118, parse_set_modifier_mapping little_endian)
      ∷ (119, parse_get_modifier_mapping little_endian)
      ∷ (127, parse_no_operation little_endian)
      ∷ []

  -- The rest of an unknown request is stepped over.
  unfoldable pub parse_unknown_request : RequestParser
  parse_unknown_request = parse_any little_endian simple_request image_data exact_length []

  abbrev parser_or_unknown : Option RequestParser → RequestParser
  parser_or_unknown none = parse_unknown_request
  parser_or_unknown (some parser) = parser

  -- What `_logRequest` calls for a major opcode of the core protocol or an unknown one.
  unfoldable pub parse_request : ℕ → RequestParser
  unfolding find
  parse_request major = parser_or_unknown (find major core_requests)
