-- ===== src/Parser/Requests/Contexts.antt =====
-- src/X11ProtocolParser__parseRequest.cpp: requests on pixmaps, graphics contexts and areas (opcodes 53 to 63).
use xtracepp.Base.{Bool, List, [], ◌∷◌}
use xtracepp.Protocol.{FieldType, byte_type, short_type, long_type, resource_id}
use xtracepp.Protocol.Requests.Contexts.{
  create_pixmap, free_pixmap, create_gc, change_gc, copy_gc, set_dashes, set_clip_rectangles,
  free_gc, clear_area, copy_area, copy_plane,
}
use xtracepp.Parser.ListMembers.{parse_fixed}
use xtracepp.Parser.Requests.{
  RequestParser, parse_own, encoding_member, in_prefix, in_encoding, length_of_short,
}
use xtracepp.Parser.Requests.Suffixes.{
  suffix_room, no_suffix, list_of, list_of_announced, list_of_value,
}

abbrev pub gc_values : List FieldType
gc_values =
    byte_type ∷ long_type ∷ long_type ∷ long_type ∷ short_type ∷ byte_type ∷ byte_type ∷ byte_type
    ∷ byte_type ∷ byte_type ∷ resource_id ∷ resource_id ∷ short_type ∷ short_type ∷ resource_id
    ∷ byte_type ∷ byte_type ∷ short_type ∷ short_type ∷ resource_id ∷ short_type ∷ byte_type
    ∷ byte_type ∷ []

module _ (little_endian : Bool) where
  unfoldable pub parse_create_pixmap : RequestParser
  parse_create_pixmap = parse_own little_endian create_pixmap 53 no_suffix length_of_short (
      in_prefix "depth"
      ∷ in_encoding "pid"
      ∷ in_encoding "drawable"
      ∷ in_encoding "width"
      ∷ in_encoding "height"
      ∷ [])

  unfoldable pub parse_free_pixmap : RequestParser
  parse_free_pixmap =
      parse_own little_endian free_pixmap 54 no_suffix length_of_short (in_encoding "pixmap" ∷ [])

  unfoldable pub parse_create_gc : RequestParser
  parse_create_gc =
      parse_own little_endian create_gc 55 (list_of_value gc_values) length_of_short
        (in_encoding "cid" ∷ in_encoding "drawable" ∷ [])

  unfoldable pub parse_change_gc : RequestParser
  parse_change_gc =
      parse_own little_endian change_gc 56 (list_of_value gc_values) length_of_short
        (in_encoding "gc" ∷ [])

  unfoldable pub parse_copy_gc : RequestParser
  parse_copy_gc =
      parse_own little_endian copy_gc 57 no_suffix length_of_short
        (in_encoding "src_gc" ∷ in_encoding "dst_gc" ∷ in_encoding "value_mask" ∷ [])

  unfoldable pub parse_set_dashes : RequestParser
  parse_set_dashes =
      parse_own little_endian set_dashes 58
        (list_of (λ o. parse_fixed 1) suffix_room (λ r. encoding_member r "dashes_len"))
        length_of_short (in_encoding "gc" ∷ in_encoding "dash_offset" ∷ [])

  unfoldable pub parse_set_clip_rectangles : RequestParser
  parse_set_clip_rectangles =
      parse_own little_endian set_clip_rectangles 59 (list_of_announced (λ o. parse_fixed 8) 8)
        length_of_short
        (in_prefix "ordering"
          ∷ in_encoding "gc"
          ∷ in_encoding "clip_x_origin"
          ∷ in_encoding "clip_y_origin"
          ∷ [])

  unfoldable pub parse_free_gc : RequestParser
  parse_free_gc =
      parse_own little_endian free_gc 60 no_suffix length_of_short (in_encoding "gc" ∷ [])

  unfoldable pub parse_clear_area : RequestParser
  parse_clear_area = parse_own little_endian clear_area 61 no_suffix length_of_short (
      in_prefix "exposures"
      ∷ in_encoding "window"
      ∷ in_encoding "x"
      ∷ in_encoding "y"
      ∷ in_encoding "width"
      ∷ in_encoding "height"
      ∷ [])

  unfoldable pub parse_copy_area : RequestParser
  parse_copy_area = parse_own little_endian copy_area 62 no_suffix length_of_short (
      in_encoding "src_drawable"
      ∷ in_encoding "dst_drawable"
      ∷ in_encoding "gc"
      ∷ in_encoding "src_x"
      ∷ in_encoding "src_y"
      ∷ in_encoding "dst_x"
      ∷ in_encoding "dst_y"
      ∷ in_encoding "width"
      ∷ in_encoding "height"
      ∷ [])

  unfoldable pub parse_copy_plane : RequestParser
  parse_copy_plane = parse_own little_endian copy_plane 63 no_suffix length_of_short (
      in_encoding "src_drawable"
      ∷ in_encoding "dst_drawable"
      ∷ in_encoding "gc"
      ∷ in_encoding "src_x"
      ∷ in_encoding "src_y"
      ∷ in_encoding "dst_x"
      ∷ in_encoding "dst_y"
      ∷ in_encoding "width"
      ∷ in_encoding "height"
      ∷ in_encoding "bit_plane"
      ∷ [])
