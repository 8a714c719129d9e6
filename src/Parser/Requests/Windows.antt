-- ===== src/Parser/Requests/Windows.antt =====
-- src/X11ProtocolParser__parseRequest.cpp: requests on windows (opcodes 1 to 15).
use xtracepp.Base.{Bool, List, [], ◌∷◌}
use xtracepp.Protocol.{
  FieldType, byte_type, short_type, long_type, resource_id, setofevent, setofdeviceevent,
}
use xtracepp.Protocol.Requests.Windows.{
  create_window, change_window_attributes, simple_window_request, change_save_set, reparent_window,
  configure_window, circulate_window, get_geometry,
}
use xtracepp.Parser.Requests.{
  RequestParser, parse_any, parse_own, parse_as, in_prefix, in_encoding, length_of_short,
}
use xtracepp.Parser.Requests.Suffixes.{no_suffix, list_of_value}

-- `WindowValueListRequest::value_types`.
abbrev pub window_values : List FieldType
window_values =
    resource_id ∷ long_type ∷ resource_id ∷ long_type ∷ byte_type ∷ byte_type ∷ byte_type
    ∷ long_type ∷ long_type ∷ byte_type ∷ byte_type ∷ setofevent ∷ setofdeviceevent ∷ resource_id
    ∷ resource_id ∷ []

abbrev pub configure_values : List FieldType
configure_values =
    short_type ∷ short_type ∷ short_type ∷ short_type ∷ short_type ∷ resource_id ∷ byte_type ∷ []

module _ (little_endian : Bool) where
  unfoldable pub parse_simple_window_request : RequestParser
  parse_simple_window_request =
      parse_any little_endian simple_window_request no_suffix length_of_short
        (in_encoding "window" ∷ [])

  unfoldable pub parse_create_window : RequestParser
  parse_create_window =
      parse_own little_endian create_window 1 (list_of_value window_values) length_of_short (
        in_prefix "depth"
        ∷ in_encoding "wid"
        ∷ in_encoding "parent"
        ∷ in_encoding "x"
        ∷ in_encoding "y"
        ∷ in_encoding "width"
        ∷ in_encoding "height"
        ∷ in_encoding "border_width"
        ∷ in_encoding "class_"
        ∷ in_encoding "visual"
        ∷ in_encoding "value_mask"
        ∷ [])

  unfoldable pub parse_change_window_attributes : RequestParser
  parse_change_window_attributes =
      parse_own little_endian change_window_attributes 2 (list_of_value window_values)
        length_of_short (in_encoding "window" ∷ in_encoding "value_mask" ∷ [])

  unfoldable pub parse_get_window_attributes : RequestParser
  parse_get_window_attributes = parse_as little_endian 3 parse_simple_window_request

  unfoldable pub parse_destroy_window : RequestParser
  parse_destroy_window = parse_as little_endian 4 parse_simple_window_request

  unfoldable pub parse_destroy_subwindows : RequestParser
  parse_destroy_subwindows = parse_as little_endian 5 parse_simple_window_request

  unfoldable pub parse_change_save_set : RequestParser
  parse_change_save_set =
      parse_own little_endian change_save_set 6 no_suffix length_of_short
        (in_prefix "mode" ∷ in_encoding "window" ∷ [])

  unfoldable pub parse_reparent_window : RequestParser
  parse_reparent_window =
      parse_own little_endian reparent_window 7 no_suffix length_of_short
        (in_encoding "window" ∷ in_encoding "window" ∷ in_encoding "x" ∷ in_encoding "y" ∷ [])

  unfoldable pub parse_map_window : RequestParser
  parse_map_window = parse_as little_endian 8 parse_simple_window_request

  unfoldable pub parse_map_subwindows : RequestParser
  parse_map_subwindows = parse_as little_endian 9 parse_simple_window_request

  unfoldable pub parse_unmap_window : RequestParser
  parse_unmap_window = parse_as little_endian 10 parse_simple_window_request

  unfoldable pub parse_unmap_subwindows : RequestParser
  parse_unmap_subwindows = parse_as little_endian 11 parse_simple_window_request

  unfoldable pub parse_configure_window : RequestParser
  parse_configure_window =
      parse_own little_endian configure_window 12 (list_of_value configure_values) length_of_short
        (in_encoding "window" ∷ in_encoding "value_mask" ∷ [])

  unfoldable pub parse_circulate_window : RequestParser
  parse_circulate_window =
      parse_own little_endian circulate_window 13 no_suffix length_of_short
        (in_prefix "direction" ∷ in_encoding "window" ∷ [])

  unfoldable pub parse_get_geometry : RequestParser
  parse_get_geometry =
      parse_own little_endian get_geometry 14 no_suffix length_of_short
        (in_encoding "drawable" ∷ [])

  unfoldable pub parse_query_tree : RequestParser
  parse_query_tree = parse_as little_endian 15 parse_simple_window_request
