-- ===== src/Parser/Requests/Whole/Core.antt =====
-- Every request of the core protocol, and one of an unknown opcode, is parsed whole.
use xtracepp.Base.{ℕ, refl, inl, inr, Bool, ◌&∷◌, Option-cases, All, find, find-All}
use xtracepp.Protocol.{sizeof_struct}
use xtracepp.Protocol.Requests.Grabs.{simple_request}
use xtracepp.Parser.Requests.{RequestParser}
use xtracepp.Parser.Requests.Core.{core_requests, parse_unknown_request, parse_request}
use xtracepp.Parser.Requests.Whole.{IsWhole, parse_any-IsWhole}
use xtracepp.Parser.Requests.Whole.Suffixes.{image_data-IsAligned}
use xtracepp.Parser.Requests.Whole.Windows.{
  parse_create_window-IsWhole, parse_change_window_attributes-IsWhole,
  parse_get_window_attributes-IsWhole, parse_destroy_window-IsWhole,
  parse_destroy_subwindows-IsWhole, parse_change_save_set-IsWhole, parse_reparent_window-IsWhole,
  parse_map_window-IsWhole, parse_map_subwindows-IsWhole, parse_unmap_window-IsWhole,
  parse_unmap_subwindows-IsWhole, parse_configure_window-IsWhole, parse_circulate_window-IsWhole,
  parse_get_geometry-IsWhole, parse_query_tree-IsWhole,
}
use xtracepp.Parser.Requests.Whole.Properties.{
  parse_intern_atom-IsWhole, parse_get_atom_name-IsWhole, parse_change_property-IsWhole,
  parse_delete_property-IsWhole, parse_get_property-IsWhole, parse_list_properties-IsWhole,
  parse_set_selection_owner-IsWhole, parse_get_selection_owner-IsWhole,
  parse_convert_selection-IsWhole, parse_send_event-IsWhole,
}
use xtracepp.Parser.Requests.Whole.Grabs.{
  parse_grab_pointer-IsWhole, parse_ungrab_pointer-IsWhole, parse_grab_button-IsWhole,
  parse_ungrab_button-IsWhole, parse_change_active_pointer_grab-IsWhole,
  parse_grab_keyboard-IsWhole, parse_ungrab_keyboard-IsWhole, parse_grab_key-IsWhole,
  parse_ungrab_key-IsWhole, parse_allow_events-IsWhole, parse_grab_server-IsWhole,
  parse_ungrab_server-IsWhole, parse_query_pointer-IsWhole, parse_get_motion_events-IsWhole,
  parse_translate_coordinates-IsWhole, parse_warp_pointer-IsWhole, parse_set_input_focus-IsWhole,
  parse_get_input_focus-IsWhole, parse_query_keymap-IsWhole,
}
use xtracepp.Parser.Requests.Whole.Fonts.{
  parse_open_font-IsWhole, parse_close_font-IsWhole, parse_query_font-IsWhole,
  parse_query_text_extents-IsWhole, parse_list_fonts-IsWhole, parse_list_fonts_with_info-IsWhole,
  parse_set_font_path-IsWhole, parse_get_font_path-IsWhole,
}
use xtracepp.Parser.Requests.Whole.Contexts.{
  parse_create_pixmap-IsWhole, parse_free_pixmap-IsWhole, parse_create_gc-IsWhole,
  parse_change_gc-IsWhole, parse_copy_gc-IsWhole, parse_set_dashes-IsWhole,
  parse_set_clip_rectangles-IsWhole, parse_free_gc-IsWhole, parse_clear_area-IsWhole,
  parse_copy_area-IsWhole, parse_copy_plane-IsWhole,
}
use xtracepp.Parser.Requests.Whole.Drawing.{
  parse_poly_point-IsWhole, parse_poly_line-IsWhole, parse_poly_segment-IsWhole,
  parse_poly_rectangle-IsWhole, parse_poly_arc-IsWhole, parse_fill_poly-IsWhole,
  parse_poly_fill_rectangle-IsWhole, parse_poly_fill_arc-IsWhole, parse_put_image-IsWhole,
  parse_get_image-IsWhole, parse_poly_text8-IsWhole, parse_poly_text16-IsWhole,
  parse_image_text8-IsWhole, parse_image_text16-IsWhole,
}
use xtracepp.Parser.Requests.Whole.Colors.{
  parse_create_colormap-IsWhole, parse_free_colormap-IsWhole, parse_copy_colormap_and_free-IsWhole,
  parse_install_colormap-IsWhole, parse_uninstall_colormap-IsWhole,
  parse_list_installed_colormaps-IsWhole, parse_alloc_color-IsWhole,
  parse_alloc_named_color-IsWhole, parse_alloc_color_cells-IsWhole,
  parse_alloc_color_planes-IsWhole, parse_free_colors-IsWhole, parse_store_colors-IsWhole,
  parse_store_named_color-IsWhole, parse_query_colors-IsWhole, parse_lookup_color-IsWhole,
  parse_create_cursor-IsWhole, parse_create_glyph_cursor-IsWhole, parse_free_cursor-IsWhole,
  parse_recolor_cursor-IsWhole, parse_query_best_size-IsWhole,
}
use xtracepp.Parser.Requests.Whole.Control.{
  parse_query_extension-IsWhole, parse_list_extensions-IsWhole,
  parse_change_keyboard_mapping-IsWhole, parse_get_keyboard_mapping-IsWhole,
  parse_change_keyboard_control-IsWhole, parse_get_keyboard_control-IsWhole, parse_bell-IsWhole,
  parse_change_pointer_control-IsWhole, parse_get_pointer_control-IsWhole,
  parse_set_screen_saver-IsWhole, parse_get_screen_saver-IsWhole, parse_change_hosts-IsWhole,
  parse_list_hosts-IsWhole, parse_set_access_control-IsWhole, parse_set_close_down_mode-IsWhole,
  parse_kill_client-IsWhole, parse_rotate_properties-IsWhole, parse_force_screen_saver-IsWhole,
  parse_set_pointer_mapping-IsWhole, parse_get_pointer_mapping-IsWhole,
  parse_set_modifier_mapping-IsWhole, parse_get_modifier_mapping-IsWhole,
  parse_no_operation-IsWhole,
}

module _ (little_endian : Bool) (events : ℕ → RequestParser) where
  core_requests-IsWhole :
      All
        (λ (entry : ℕ × RequestParser). IsWhole little_endian entry.1)
        (core_requests little_endian events)
  core_requests-IsWhole =
      parse_create_window-IsWhole little_endian
      &∷ parse_change_window_attributes-IsWhole little_endian
      &∷ parse_get_window_attributes-IsWhole little_endian
      &∷ parse_destroy_window-IsWhole little_endian
      &∷ parse_destroy_subwindows-IsWhole little_endian
      &∷ parse_change_save_set-IsWhole little_endian
      &∷ parse_reparent_window-IsWhole little_endian
      &∷ parse_map_window-IsWhole little_endian
      &∷ parse_map_subwindows-IsWhole little_endian
      &∷ parse_unmap_window-IsWhole little_endian
      &∷ parse_unmap_subwindows-IsWhole little_endian
      &∷ parse_configure_window-IsWhole little_endian
      &∷ parse_circulate_window-IsWhole little_endian
      &∷ parse_get_geometry-IsWhole little_endian
      &∷ parse_query_tree-IsWhole little_endian
      &∷ parse_intern_atom-IsWhole little_endian
      &∷ parse_get_atom_name-IsWhole little_endian
      &∷ parse_change_property-IsWhole little_endian
      &∷ parse_delete_property-IsWhole little_endian
      &∷ parse_get_property-IsWhole little_endian
      &∷ parse_list_properties-IsWhole little_endian
      &∷ parse_set_selection_owner-IsWhole little_endian
      &∷ parse_get_selection_owner-IsWhole little_endian
      &∷ parse_convert_selection-IsWhole little_endian
      &∷ parse_send_event-IsWhole little_endian events
      &∷ parse_grab_pointer-IsWhole little_endian
      &∷ parse_ungrab_pointer-IsWhole little_endian
      &∷ parse_grab_button-IsWhole little_endian
      &∷ parse_ungrab_button-IsWhole little_endian
      &∷ parse_change_active_pointer_grab-IsWhole little_endian
      &∷ parse_grab_keyboard-IsWhole little_endian
      &∷ parse_ungrab_keyboard-IsWhole little_endian
      &∷ parse_grab_key-IsWhole little_endian
      &∷ parse_ungrab_key-IsWhole little_endian
      &∷ parse_allow_events-IsWhole little_endian
      &∷ parse_grab_server-IsWhole little_endian
      &∷ parse_ungrab_server-IsWhole little_endian
      &∷ parse_query_pointer-IsWhole little_endian
      &∷ parse_get_motion_events-IsWhole little_endian
      &∷ parse_translate_coordinates-IsWhole little_endian
      &∷ parse_warp_pointer-IsWhole little_endian
      &∷ parse_set_input_focus-IsWhole little_endian
      &∷ parse_get_input_focus-IsWhole little_endian
      &∷ parse_query_keymap-IsWhole little_endian
      &∷ parse_open_font-IsWhole little_endian
      &∷ parse_close_font-IsWhole little_endian
      &∷ parse_query_font-IsWhole little_endian
      &∷ parse_query_text_extents-IsWhole little_endian
      &∷ parse_list_fonts-IsWhole little_endian
      &∷ parse_list_fonts_with_info-IsWhole little_endian
      &∷ parse_set_font_path-IsWhole little_endian
      &∷ parse_get_font_path-IsWhole little_endian
      &∷ parse_create_pixmap-IsWhole little_endian
      &∷ parse_free_pixmap-IsWhole little_endian
      &∷ parse_create_gc-IsWhole little_endian
      &∷ parse_change_gc-IsWhole little_endian
      &∷ parse_copy_gc-IsWhole little_endian
      &∷ parse_set_dashes-IsWhole little_endian
      &∷ parse_set_clip_rectangles-IsWhole little_endian
      &∷ parse_free_gc-IsWhole little_endian
      &∷ parse_clear_area-IsWhole little_endian
      &∷ parse_copy_area-IsWhole little_endian
      &∷ parse_copy_plane-IsWhole little_endian
      &∷ parse_poly_point-IsWhole little_endian
      &∷ parse_poly_line-IsWhole little_endian
      &∷ parse_poly_segment-IsWhole little_endian
      &∷ parse_poly_rectangle-IsWhole little_endian
      &∷ parse_poly_arc-IsWhole little_endian
      &∷ parse_fill_poly-IsWhole little_endian
      &∷ parse_poly_fill_rectangle-IsWhole little_endian
      &∷ parse_poly_fill_arc-IsWhole little_endian
      &∷ parse_put_image-IsWhole little_endian
      &∷ parse_get_image-IsWhole little_endian
      &∷ parse_poly_text8-IsWhole little_endian
      &∷ parse_poly_text16-IsWhole little_endian
      &∷ parse_image_text8-IsWhole little_endian
      &∷ parse_image_text16-IsWhole little_endian
      &∷ parse_create_colormap-IsWhole little_endian
      &∷ parse_free_colormap-IsWhole little_endian
      &∷ parse_copy_colormap_and_free-IsWhole little_endian
      &∷ parse_install_colormap-IsWhole little_endian
      &∷ parse_uninstall_colormap-IsWhole little_endian
      &∷ parse_list_installed_colormaps-IsWhole little_endian
      &∷ parse_alloc_color-IsWhole little_endian
      &∷ parse_alloc_named_color-IsWhole little_endian
      &∷ parse_alloc_color_cells-IsWhole little_endian
      &∷ parse_alloc_color_planes-IsWhole little_endian
      &∷ parse_free_colors-IsWhole little_endian
      &∷ parse_store_colors-IsWhole little_endian
      &∷ parse_store_named_color-IsWhole little_endian
      &∷ parse_query_colors-IsWhole little_endian
      &∷ parse_lookup_color-IsWhole little_endian
      &∷ parse_create_cursor-IsWhole little_endian
      &∷ parse_create_glyph_cursor-IsWhole little_endian
      &∷ parse_free_cursor-IsWhole little_endian
      &∷ parse_recolor_cursor-IsWhole little_endian
      &∷ parse_query_best_size-IsWhole little_endian
      &∷ parse_query_extension-IsWhole little_endian
      &∷ parse_list_extensions-IsWhole little_endian
      &∷ parse_change_keyboard_mapping-IsWhole little_endian
      &∷ parse_get_keyboard_mapping-IsWhole little_endian
      &∷ parse_change_keyboard_control-IsWhole little_endian
      &∷ parse_get_keyboard_control-IsWhole little_endian
      &∷ parse_bell-IsWhole little_endian
      &∷ parse_change_pointer_control-IsWhole little_endian
      &∷ parse_get_pointer_control-IsWhole little_endian
      &∷ parse_set_screen_saver-IsWhole little_endian
      &∷ parse_get_screen_saver-IsWhole little_endian
      &∷ parse_change_hosts-IsWhole little_endian
      &∷ parse_list_hosts-IsWhole little_endian
      &∷ parse_set_access_control-IsWhole little_endian
      &∷ parse_set_close_down_mode-IsWhole little_endian
      &∷ parse_kill_client-IsWhole little_endian
      &∷ parse_rotate_properties-IsWhole little_endian
      &∷ parse_force_screen_saver-IsWhole little_endian
      &∷ parse_set_pointer_mapping-IsWhole little_endian
      &∷ parse_get_pointer_mapping-IsWhole little_endian
      &∷ parse_set_modifier_mapping-IsWhole little_endian
      &∷ parse_get_modifier_mapping-IsWhole little_endian
      &∷ parse_no_operation-IsWhole little_endian
      &∷ tt

  pub parse_unknown_request-IsWhole :
      IsWhole little_endian (parse_unknown_request little_endian events)
  unfolding sizeof_struct parse_unknown_request
  parse_unknown_request-IsWhole =
      parse_any-IsWhole little_endian simple_request (record { two_bytes = refl; aligned = refl }) _
        image_data-IsAligned _ _

  pub parse_request-IsWhole :
      (major : ℕ) → IsWhole little_endian (parse_request little_endian events major)
  unfolding parse_request
  parse_request-IsWhole major =
      elim (Option-cases (find major (core_requests little_endian events))) [
        | inl unknown ↦ rw unknown parse_unknown_request-IsWhole
        | inr (parser, found) ↦ rw found (
            find-All (λ (entry : ℕ × RequestParser). IsWhole little_endian entry.1) major
              (core_requests little_endian events) parser core_requests-IsWhole found)
      ]
