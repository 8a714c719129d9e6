-- ===== src/Parser/Requests/Colors.antt =====
-- src/X11ProtocolParser__parseRequest.cpp: requests on colormaps, colors and cursors (opcodes 78 to 97).
use xtracepp.Base.{Bool, [], ◌∷◌}
use xtracepp.Protocol.{do_rgb_type}
use xtracepp.Protocol.Requests.Colors.{
  create_colormap, simple_cmap_request, copy_colormap_and_free, alloc_color, alloc_named_color,
  alloc_color_cells, alloc_color_planes, free_colors, store_colors, store_named_color, query_colors,
  lookup_color, create_cursor, create_glyph_cursor, free_cursor, recolor_cursor, query_best_size,
}
use xtracepp.Parser.ListMembers.{parse_fixed}
use xtracepp.Parser.Requests.{
  RequestParser, parse_any, parse_own, parse_as, encoding_member, in_prefix, in_encoding,
  length_of_short, exact_length,
}
use xtracepp.Parser.Requests.Suffixes.{no_suffix, string8, list_of_announced, parse_coloritem}
use xtracepp.Parser.Requests.Windows.{parse_simple_window_request}

module _ (little_endian : Bool) where
  unfoldable pub parse_simple_cmap_request : RequestParser
  parse_simple_cmap_request =
      parse_any little_endian simple_cmap_request no_suffix length_of_short
        (in_encoding "cmap" ∷ [])

  unfoldable pub parse_create_colormap : RequestParser
  parse_create_colormap =
      parse_own little_endian create_colormap 78 no_suffix length_of_short
        (in_prefix "alloc" ∷ in_encoding "mid" ∷ in_encoding "window" ∷ in_encoding "visual" ∷ [])

  unfoldable pub parse_free_colormap : RequestParser
  parse_free_colormap = parse_as little_endian 79 parse_simple_cmap_request

  unfoldable pub parse_copy_colormap_and_free : RequestParser
  parse_copy_colormap_and_free =
      parse_own little_endian copy_colormap_and_free 80 no_suffix length_of_short
        (in_encoding "mid" ∷ in_encoding "src_cmap" ∷ [])

  unfoldable pub parse_install_colormap : RequestParser
  parse_install_colormap = parse_as little_endian 81 parse_simple_cmap_request

  unfoldable pub parse_uninstall_colormap : RequestParser
  parse_uninstall_colormap = parse_as little_endian 82 parse_simple_cmap_request

  unfoldable pub parse_list_installed_colormaps : RequestParser
  parse_list_installed_colormaps =
      parse_as little_endian 83 (parse_simple_window_request little_endian)

  unfoldable pub parse_alloc_color : RequestParser
  parse_alloc_color =
      parse_own little_endian alloc_color 84 no_suffix length_of_short
        (in_encoding "cmap" ∷ in_encoding "red" ∷ in_encoding "green" ∷ in_encoding "blue" ∷ [])

  unfoldable pub parse_alloc_named_color : RequestParser
  parse_alloc_named_color =
      parse_own little_endian alloc_named_color 85 (string8 (λ r. encoding_member r "name_len"))
        length_of_short (in_encoding "cmap" ∷ [])

  unfoldable pub parse_alloc_color_cells : RequestParser
  parse_alloc_color_cells = parse_own little_endian alloc_color_cells 86 no_suffix length_of_short (
      in_prefix "contiguous"
      ∷ in_encoding "cmap"
      ∷ in_encoding "colors"
      ∷ in_encoding "planes"
      ∷ [])

  unfoldable pub parse_alloc_color_planes : RequestParser
  parse_alloc_color_planes =
      parse_own little_endian alloc_color_planes 87 no_suffix length_of_short (
        in_prefix "contiguous"
        ∷ in_encoding "cmap"
        ∷ in_encoding "colors"
        ∷ in_encoding "reds"
        ∷ in_encoding "greens"
        ∷ in_encoding "blues"
        ∷ [])

  unfoldable pub parse_free_colors : RequestParser
  parse_free_colors =
      parse_own little_endian free_colors 88 (list_of_announced (λ o. parse_fixed 4) 4) exact_length
        (in_encoding "cmap" ∷ in_encoding "plane_mask" ∷ [])

  unfoldable pub parse_store_colors : RequestParser
  parse_store_colors =
      parse_own little_endian store_colors 89
        (list_of_announced (λ o. parse_coloritem o do_rgb_type) 12) exact_length
        (in_encoding "cmap" ∷ [])

  unfoldable pub parse_store_named_color : RequestParser
  parse_store_named_color =
      parse_own little_endian store_named_color 90 (string8 (λ r. encoding_member r "name_len"))
        length_of_short (in_prefix "do_rgb_mask" ∷ in_encoding "cmap" ∷ in_encoding "pixel" ∷ [])

  unfoldable pub parse_query_colors : RequestParser
  parse_query_colors =
      parse_own little_endian query_colors 91 (list_of_announced (λ o. parse_fixed 4) 4)
        exact_length (in_encoding "cmap" ∷ [])

  unfoldable pub parse_lookup_color : RequestParser
  parse_lookup_color =
      parse_own little_endian lookup_color 92 (string8 (λ r. encoding_member r "name_len"))
        length_of_short (in_encoding "cmap" ∷ [])

  unfoldable pub parse_create_cursor : RequestParser
  parse_create_cursor = parse_own little_endian create_cursor 93 no_suffix length_of_short (
      in_encoding "cid"
      ∷ in_encoding "source"
      ∷ in_encoding "mask"
      ∷ in_encoding "fore_red"
      ∷ in_encoding "fore_green"
      ∷ in_encoding "fore_blue"
      ∷ in_encoding "back_red"
      ∷ in_encoding "back_green"
      ∷ in_encoding "back_blue"
      ∷ in_encoding "x"
      ∷ in_encoding "y"
      ∷ [])

  unfoldable pub parse_create_glyph_cursor : RequestParser
  parse_create_glyph_cursor =
      parse_own little_endian create_glyph_cursor 94 no_suffix length_of_short (
        in_encoding "cid"
        ∷ in_encoding "source_font"
        ∷ in_encoding "mask_font"
        ∷ in_encoding "source_char"
        ∷ in_encoding "mask_char"
        ∷ in_encoding "fore_red"
        ∷ in_encoding "fore_green"
        ∷ in_encoding "fore_blue"
        ∷ in_encoding "back_red"
        ∷ in_encoding "back_green"
        ∷ in_encoding "back_blue"
        ∷ [])

  unfoldable pub parse_free_cursor : RequestParser
  parse_free_cursor =
      parse_own little_endian free_cursor 95 no_suffix length_of_short (in_encoding "cursor" ∷ [])

  unfoldable pub parse_recolor_cursor : RequestParser
  parse_recolor_cursor = parse_own little_endian recolor_cursor 96 no_suffix length_of_short (
      in_encoding "cursor"
      ∷ in_encoding "fore_red"
      ∷ in_encoding "fore_green"
      ∷ in_encoding "fore_blue"
      ∷ in_encoding "back_red"
      ∷ in_encoding "back_green"
      ∷ in_encoding "back_blue"
      ∷ [])

  unfoldable pub parse_query_best_size : RequestParser
  parse_query_best_size = parse_own little_endian query_best_size 97 no_suffix length_of_short (
      in_prefix "class_" ∷ in_encoding "drawable" ∷ in_encoding "width" ∷ in_encoding "height" ∷ [])
