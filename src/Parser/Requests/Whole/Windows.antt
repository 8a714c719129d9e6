-- ===== src/Parser/Requests/Whole/Windows.antt =====
-- The requests on windows (opcodes 1 to 15) are parsed whole.
use xtracepp.Base.{refl, Bool}
use xtracepp.Protocol.{sizeof_struct}
use xtracepp.Parser.Requests.Windows.{
  parse_change_save_set, parse_change_window_attributes, parse_circulate_window,
  parse_configure_window, parse_create_window, parse_destroy_subwindows, parse_destroy_window,
  parse_get_geometry, parse_get_window_attributes, parse_map_subwindows, parse_map_window,
  parse_query_tree, parse_reparent_window, parse_simple_window_request, parse_unmap_subwindows,
  parse_unmap_window,
}
use xtracepp.Protocol.Requests.Windows.{
  change_save_set, change_window_attributes, circulate_window, configure_window, create_window,
  get_geometry, reparent_window, simple_window_request,
}
use xtracepp.Parser.Requests.Whole.{IsWhole, parse_any-IsWhole, parse_own-IsWhole, parse_as-IsWhole}
use xtracepp.Parser.Requests.Whole.Suffixes.{list_of_value-IsAligned, no_suffix-IsAligned}

module _ (little_endian : Bool) where
  pub parse_simple_window_request-IsWhole :
      IsWhole little_endian (parse_simple_window_request little_endian)
  unfolding sizeof_struct parse_simple_window_request
  parse_simple_window_request-IsWhole =
      parse_any-IsWhole little_endian simple_window_request
        (record { two_bytes = refl; aligned = refl }) _ no_suffix-IsAligned _ _

  pub parse_create_window-IsWhole : IsWhole little_endian (parse_create_window little_endian)
  unfolding sizeof_struct parse_create_window
  parse_create_window-IsWhole =
      parse_own-IsWhole little_endian create_window 1 _ _ _
        (record { two_bytes = refl; aligned = refl }) (list_of_value-IsAligned _)

  pub parse_change_window_attributes-IsWhole :
      IsWhole little_endian (parse_change_window_attributes little_endian)
  unfolding sizeof_struct parse_change_window_attributes
  parse_change_window_attributes-IsWhole =
      parse_own-IsWhole little_endian change_window_attributes 2 _ _ _
        (record { two_bytes = refl; aligned = refl }) (list_of_value-IsAligned _)

  pub parse_get_window_attributes-IsWhole :
      IsWhole little_endian (parse_get_window_attributes little_endian)
  unfolding parse_get_window_attributes
  parse_get_window_attributes-IsWhole =
      parse_as-IsWhole little_endian 3 (parse_simple_window_request little_endian)
        parse_simple_window_request-IsWhole

  pub parse_destroy_window-IsWhole : IsWhole little_endian (parse_destroy_window little_endian)
  unfolding parse_destroy_window
  parse_destroy_window-IsWhole =
      parse_as-IsWhole little_endian 4 (parse_simple_window_request little_endian)
        parse_simple_window_request-IsWhole

  pub parse_destroy_subwindows-IsWhole :
      IsWhole little_endian (parse_destroy_subwindows little_endian)
  unfolding parse_destroy_subwindows
  parse_destroy_subwindows-IsWhole =
      parse_as-IsWhole little_endian 5 (parse_simple_window_request little_endian)
        parse_simple_window_request-IsWhole

  pub parse_change_save_set-IsWhole : IsWhole little_endian (parse_change_save_set little_endian)
  unfolding sizeof_struct parse_change_save_set
  parse_change_save_set-IsWhole =
      parse_own-IsWhole little_endian change_save_set 6 _ _ _
        (record { two_bytes = refl; aligned = refl }) no_suffix-IsAligned

  pub parse_reparent_window-IsWhole : IsWhole little_endian (parse_reparent_window little_endian)
  unfolding sizeof_struct parse_reparent_window
  parse_reparent_window-IsWhole =
      parse_own-IsWhole little_endian reparent_window 7 _ _ _
        (record { two_bytes = refl; aligned = refl }) no_suffix-IsAligned

  pub parse_map_window-IsWhole : IsWhole little_endian (parse_map_window little_endian)
  unfolding parse_map_window
  parse_map_window-IsWhole =
      parse_as-IsWhole little_endian 8 (parse_simple_window_request little_endian)
        parse_simple_window_request-IsWhole

  pub parse_map_subwindows-IsWhole : IsWhole little_endian (parse_map_subwindows little_endian)
  unfolding parse_map_subwindows
  parse_map_subwindows-IsWhole =
      parse_as-IsWhole little_endian 9 (parse_simple_window_request little_endian)
        parse_simple_window_request-IsWhole

  pub parse_unmap_window-IsWhole : IsWhole little_endian (parse_unmap_window little_endian)
  unfolding parse_unmap_window
  parse_unmap_window-IsWhole =
      parse_as-IsWhole little_endian 10 (parse_simple_window_request little_endian)
        parse_simple_window_request-IsWhole

  pub parse_unmap_subwindows-IsWhole : IsWhole little_endian (parse_unmap_subwindows little_endian)
  unfolding parse_unmap_subwindows
  parse_unmap_subwindows-IsWhole =
      parse_as-IsWhole little_endian 11 (parse_simple_window_request little_endian)
        parse_simple_window_request-IsWhole

  pub parse_configure_window-IsWhole : IsWhole little_endian (parse_configure_window little_endian)
  unfolding sizeof_struct parse_configure_window
  parse_configure_window-IsWhole =
      parse_own-IsWhole little_endian configure_window 12 _ _ _
        (record { two_bytes = refl; aligned = refl }) (list_of_value-IsAligned _)

  pub parse_circulate_window-IsWhole : IsWhole little_endian (parse_circulate_window little_endian)
  unfolding sizeof_struct parse_circulate_window
  parse_circulate_window-IsWhole =
      parse_own-IsWhole little_endian circulate_window 13 _ _ _
        (record { two_bytes = refl; aligned = refl }) no_suffix-IsAligned

  pub parse_get_geometry-IsWhole : IsWhole little_endian (parse_get_geometry little_endian)
  unfolding sizeof_struct parse_get_geometry
  parse_get_geometry-IsWhole =
      parse_own-IsWhole little_endian get_geometry 14 _ _ _
        (record { two_bytes = refl; aligned = refl }) no_suffix-IsAligned

  pub parse_query_tree-IsWhole : IsWhole little_endian (parse_query_tree little_endian)
  unfolding parse_query_tree
  parse_query_tree-IsWhole =
      parse_as-IsWhole little_endian 15 (parse_simple_window_request little_endian)
        parse_simple_window_request-IsWhole
