-- ===== src/Parser/Requests/Whole/Colors.antt =====
-- The requests on colormaps, colors and cursors (opcodes 78 to 97) are parsed whole.
use xtracepp.Base.{refl, Bool}
use xtracepp.Protocol.{sizeof_struct}
use xtracepp.Parser.Requests.Colors.{
  parse_alloc_color, parse_alloc_color_cells, parse_alloc_color_planes, parse_alloc_named_color,
  parse_copy_colormap_and_free, parse_create_colormap, parse_create_cursor,
  parse_create_glyph_cursor, parse_free_colormap, parse_free_colors, parse_free_cursor,
  parse_install_colormap, parse_list_installed_colormaps, parse_lookup_color, parse_query_best_size,
  parse_query_colors, parse_recolor_cursor, parse_simple_cmap_request, parse_store_colors,
  parse_store_named_color, parse_uninstall_colormap,
}
use xtracepp.Parser.Requests.Whole.Windows.{parse_simple_window_request-IsWhole}
use xtracepp.Parser.Requests.Windows.{parse_simple_window_request}
use xtracepp.Protocol.Requests.Colors.{
  alloc_color, alloc_color_cells, alloc_color_planes, alloc_named_color, copy_colormap_and_free,
  create_colormap, create_cursor, create_glyph_cursor, free_colors, free_cursor, lookup_color,
  query_best_size, query_colors, recolor_cursor, simple_cmap_request, store_colors,
  store_named_color,
}
use xtracepp.Parser.Requests.Whole.{IsWhole, parse_any-IsWhole, parse_own-IsWhole, parse_as-IsWhole}
use xtracepp.Parser.Requests.Whole.Suffixes.{
  list_of-IsAligned, no_suffix-IsAligned, string8-IsAligned,
}

module _ (little_endian : Bool) where
  pub parse_simple_cmap_request-IsWhole :
      IsWhole little_endian (parse_simple_cmap_request little_endian)
  unfolding sizeof_struct parse_simple_cmap_request
  parse_simple_cmap_request-IsWhole =
      parse_any-IsWhole little_endian simple_cmap_request
        (record { two_bytes = refl; aligned = refl }) _ no_suffix-IsAligned _ _

  pub parse_create_colormap-IsWhole : IsWhole little_endian (parse_create_colormap little_endian)
  unfolding sizeof_struct parse_create_colormap
  parse_create_colormap-IsWhole =
      parse_own-IsWhole little_endian create_colormap 78 _ _ _
        (record { two_bytes = refl; aligned = refl }) no_suffix-IsAligned

  pub parse_free_colormap-IsWhole : IsWhole little_endian (parse_free_colormap little_endian)
  unfolding parse_free_colormap
  parse_free_colormap-IsWhole =
      parse_as-IsWhole little_endian 79 (parse_simple_cmap_request little_endian)
        parse_simple_cmap_request-IsWhole

  pub parse_copy_colormap_and_free-IsWhole :
      IsWhole little_endian (parse_copy_colormap_and_free little_endian)
  unfolding sizeof_struct parse_copy_colormap_and_free
  parse_copy_colormap_and_free-IsWhole =
      parse_own-IsWhole little_endian copy_colormap_and_free 80 _ _ _
        (record { two_bytes = refl; aligned = refl }) no_suffix-IsAligned

  pub parse_install_colormap-IsWhole : IsWhole little_endian (parse_install_colormap little_endian)
  unfolding parse_install_colormap
  parse_install_colormap-IsWhole =
      parse_as-IsWhole little_endian 81 (parse_simple_cmap_request little_endian)
        parse_simple_cmap_request-IsWhole

  pub parse_uninstall_colormap-IsWhole :
      IsWhole little_endian (parse_uninstall_colormap little_endian)
  unfolding parse_uninstall_colormap
  parse_uninstall_colormap-IsWhole =
      parse_as-IsWhole little_endian 82 (parse_simple_cmap_request little_endian)
        parse_simple_cmap_request-IsWhole

  pub parse_list_installed_colormaps-IsWhole :
      IsWhole little_endian (parse_list_installed_colormaps little_endian)
  unfolding parse_list_installed_colormaps
  parse_list_installed_colormaps-IsWhole =
      parse_as-IsWhole little_endian 83 (parse_simple_window_request little_endian)
        (parse_simple_window_request-IsWhole little_endian)

  pub parse_alloc_color-IsWhole : IsWhole little_endian (parse_alloc_color little_endian)
  unfolding sizeof_struct parse_alloc_color
  parse_alloc_color-IsWhole =
      parse_own-IsWhole little_endian alloc_color 84 _ _ _
        (record { two_bytes = refl; aligned = refl }) no_suffix-IsAligned

  pub parse_alloc_named_color-IsWhole :
      IsWhole little_endian (parse_alloc_named_color little_endian)
  unfolding sizeof_struct parse_alloc_named_color
  parse_alloc_named_color-IsWhole =
      parse_own-IsWhole little_endian alloc_named_color 85 _ _ _
        (record { two_bytes = refl; aligned = refl }) (string8-IsAligned _)

  pub parse_alloc_color_cells-IsWhole :
      IsWhole little_endian (parse_alloc_color_cells little_endian)
  unfolding sizeof_struct parse_alloc_color_cells
  parse_alloc_color_cells-IsWhole =
      parse_own-IsWhole little_endian alloc_color_cells 86 _ _ _
        (record { two_bytes = refl; aligned = refl }) no_suffix-IsAligned

  pub parse_alloc_color_planes-IsWhole :
      IsWhole little_endian (parse_alloc_color_planes little_endian)
  unfolding sizeof_struct parse_alloc_color_planes
  parse_alloc_color_planes-IsWhole =
      parse_own-IsWhole little_endian alloc_color_planes 87 _ _ _
        (record { two_bytes = refl; aligned = refl }) no_suffix-IsAligned

  pub parse_free_colors-IsWhole : IsWhole little_endian (parse_free_colors little_endian)
  unfolding sizeof_struct parse_free_colors
  parse_free_colors-IsWhole =
      parse_own-IsWhole little_endian free_colors 88 _ _ _
        (record { two_bytes = refl; aligned = refl }) (list_of-IsAligned _ _ _)

  pub parse_store_colors-IsWhole : IsWhole little_endian (parse_store_colors little_endian)
  unfolding sizeof_struct parse_store_colors
  parse_store_colors-IsWhole =
      parse_own-IsWhole little_endian store_colors 89 _ _ _
        (record { two_bytes = refl; aligned = refl }) (list_of-IsAligned _ _ _)

  pub parse_store_named_color-IsWhole :
      IsWhole little_endian (parse_store_named_color little_endian)
  unfolding sizeof_struct parse_store_named_color
  parse_store_named_color-IsWhole =
      parse_own-IsWhole little_endian store_named_color 90 _ _ _
        (record { two_bytes = refl; aligned = refl }) (string8-IsAligned _)

  pub parse_query_colors-IsWhole : IsWhole little_endian (parse_query_colors little_endian)
  unfolding sizeof_struct parse_query_colors
  parse_query_colors-IsWhole =
      parse_own-IsWhole little_endian query_colors 91 _ _ _
        (record { two_bytes = refl; aligned = refl }) (list_of-IsAligned _ _ _)

  pub parse_lookup_color-IsWhole : IsWhole little_endian (parse_lookup_color little_endian)
  unfolding sizeof_struct parse_lookup_color
  parse_lookup_color-IsWhole =
      parse_own-IsWhole little_endian lookup_color 92 _ _ _
        (record { two_bytes = refl; aligned = refl }) (string8-IsAligned _)

  pub parse_create_cursor-IsWhole : IsWhole little_endian (parse_create_cursor little_endian)
  unfolding sizeof_struct parse_create_cursor
  parse_create_cursor-IsWhole =
      parse_own-IsWhole little_endian create_cursor 93 _ _ _
        (record { two_bytes = refl; aligned = refl }) no_suffix-IsAligned

  pub parse_create_glyph_cursor-IsWhole :
      IsWhole little_endian (parse_create_glyph_cursor little_endian)
  unfolding sizeof_struct parse_create_glyph_cursor
  parse_create_glyph_cursor-IsWhole =
      parse_own-IsWhole little_endian create_glyph_cursor 94 _ _ _
        (record { two_bytes = refl; aligned = refl }) no_suffix-IsAligned

  pub parse_free_cursor-IsWhole : IsWhole little_endian (parse_free_cursor little_endian)
  unfolding sizeof_struct parse_free_cursor
  parse_free_cursor-IsWhole =
      parse_own-IsWhole little_endian free_cursor 95 _ _ _
        (record { two_bytes = refl; aligned = refl }) no_suffix-IsAligned

  pub parse_recolor_cursor-IsWhole : IsWhole little_endian (parse_recolor_cursor little_endian)
  unfolding sizeof_struct parse_recolor_cursor
  parse_recolor_cursor-IsWhole =
      parse_own-IsWhole little_endian recolor_cursor 96 _ _ _
        (record { two_bytes = refl; aligned = refl }) no_suffix-IsAligned

  pub parse_query_best_size-IsWhole : IsWhole little_endian (parse_query_best_size little_endian)
  unfolding sizeof_struct parse_query_best_size
  parse_query_best_size-IsWhole =
      parse_own-IsWhole little_endian query_best_size 97 _ _ _
        (record { two_bytes = refl; aligned = refl }) no_suffix-IsAligned
