-- ===== src/Parser/Requests/Control.antt =====
-- src/X11ProtocolParser__parseRequest.cpp: requests on extensions, the keyboard, the pointer and the server (opcodes 98 to 127).
use xtracepp.Base.{Bool, List, [], ◌∷◌, ◌*◌, ◌/◌, ◌%◌, ◌^◌, ◌==◌}
use xtracepp.Protocol.{FieldType, byte_type, short_type, resource_id}
use xtracepp.Protocol.Requests.Grabs.{simple_request}
use xtracepp.Protocol.Requests.Control.{
  query_extension, change_keyboard_mapping, get_keyboard_mapping, change_keyboard_control, bell,
  change_pointer_control, set_screen_saver, change_hosts, set_access_control, set_close_down_mode,
  kill_client, rotate_properties, force_screen_saver, set_pointer_mapping, set_modifier_mapping,
}
use xtracepp.Parser.ListMembers.{parse_fixed}
use xtracepp.Parser.Requests.{
  RequestParser, Parsing, parse_own, parse_as, prefix_member, encoding_member, in_prefix,
  in_encoding, length_of_short, exact_length,
}
use xtracepp.Parser.Requests.Suffixes.{
  announced_sz, no_suffix, string8, list_of, list_of_announced, stepped_over, asserting,
  list_of_value, parse_formatted,
}
use xtracepp.Parser.Requests.Grabs.{parse_simple_request}

abbrev pub keyboard_values : List FieldType
keyboard_values =
    byte_type ∷ byte_type ∷ short_type ∷ short_type ∷ byte_type ∷ byte_type ∷ byte_type ∷ byte_type
    ∷ []

-- `keysyms_ct == expected_keysyms_ct`, both `uint16_t`.
unfoldable pub expects_keysyms : Parsing → Bool
unfolding announced_sz prefix_member encoding_member
expects_keysyms r =
    announced_sz r / 4 % 2 ^ 16
    == prefix_member r "keycode_count" * encoding_member r "keysyms_per_keycode" % 2 ^ 16

unfoldable pub expects_keycodes : Parsing → Bool
unfolding announced_sz prefix_member
expects_keycodes r = announced_sz r % 2 ^ 16 == 8 * prefix_member r "keycodes_per_modifier" % 2 ^ 16

module _ (little_endian : Bool) where
  unfoldable pub parse_query_extension : RequestParser
  parse_query_extension =
      parse_own little_endian query_extension 98 (string8 (λ r. encoding_member r "name_len"))
        length_of_short []

  unfoldable pub parse_list_extensions : RequestParser
  parse_list_extensions = parse_as little_endian 99 (parse_simple_request little_endian)

  unfoldable pub parse_change_keyboard_mapping : RequestParser
  parse_change_keyboard_mapping =
      parse_own little_endian change_keyboard_mapping 100
        (asserting expects_keysyms (list_of_announced (λ o. parse_fixed 4) 4)) exact_length
        (in_prefix "keycode_count"
          ∷ in_encoding "first_keycode"
          ∷ in_encoding "keysyms_per_keycode"
          ∷ [])

  unfoldable pub parse_get_keyboard_mapping : RequestParser
  parse_get_keyboard_mapping =
      parse_own little_endian get_keyboard_mapping 101 no_suffix length_of_short
        (in_encoding "first_keycode" ∷ in_encoding "count" ∷ [])

  unfoldable pub parse_change_keyboard_control : RequestParser
  parse_change_keyboard_control =
      parse_own little_endian change_keyboard_control 102 (list_of_value keyboard_values)
        length_of_short []

  unfoldable pub parse_get_keyboard_control : RequestParser
  parse_get_keyboard_control = parse_as little_endian 103 (parse_simple_request little_endian)

  unfoldable pub parse_bell : RequestParser
  parse_bell = parse_own little_endian bell 104 no_suffix length_of_short (in_prefix "percent" ∷ [])

  unfoldable pub parse_change_pointer_control : RequestParser
  parse_change_pointer_control =
      parse_own little_endian change_pointer_control 105 no_suffix length_of_short (
        in_encoding "acceleration_numerator"
        ∷ in_encoding "acceleration_denominator"
        ∷ in_encoding "threshold"
        ∷ in_encoding "do_acceleration"
        ∷ in_encoding "do_threshold"
        ∷ [])

  unfoldable pub parse_get_pointer_control : RequestParser
  parse_get_pointer_control = parse_as little_endian 106 (parse_simple_request little_endian)

  unfoldable pub parse_set_screen_saver : RequestParser
  parse_set_screen_saver = parse_own little_endian set_screen_saver 107 no_suffix length_of_short (
      in_encoding "timeout"
      ∷ in_encoding "interval"
      ∷ in_encoding "prefer_blanking"
      ∷ in_encoding "allow_exposures"
      ∷ [])

  unfoldable pub parse_get_screen_saver : RequestParser
  parse_get_screen_saver = parse_as little_endian 108 (parse_simple_request little_endian)

  unfoldable pub parse_change_hosts : RequestParser
  parse_change_hosts =
      parse_own little_endian change_hosts 109
        (list_of (λ o. parse_fixed 1) announced_sz (λ r. encoding_member r "address_len"))
        exact_length (in_prefix "mode" ∷ in_encoding "family" ∷ [])

  unfoldable pub parse_list_hosts : RequestParser
  parse_list_hosts = parse_as little_endian 110 (parse_simple_request little_endian)

  unfoldable pub parse_set_access_control : RequestParser
  parse_set_access_control =
      parse_own little_endian set_access_control 111 no_suffix length_of_short
        (in_prefix "mode" ∷ [])

  unfoldable pub parse_set_close_down_mode : RequestParser
  parse_set_close_down_mode =
      parse_own little_endian set_close_down_mode 112 no_suffix length_of_short
        (in_prefix "mode" ∷ [])

  unfoldable pub parse_kill_client : RequestParser
  parse_kill_client =
      parse_own little_endian kill_client 113 no_suffix length_of_short
        (in_encoding "resource" ∷ [])

  unfoldable pub parse_rotate_properties : RequestParser
  parse_rotate_properties =
      parse_own little_endian rotate_properties 114
        (list_of (λ o. parse_formatted o resource_id) announced_sz
          (λ r. encoding_member r "properties_ct"))
        exact_length (in_encoding "window" ∷ in_encoding "delta" ∷ [])

  unfoldable pub parse_force_screen_saver : RequestParser
  parse_force_screen_saver =
      parse_own little_endian force_screen_saver 115 no_suffix length_of_short
        (in_prefix "mode" ∷ [])

  unfoldable pub parse_set_pointer_mapping : RequestParser
  parse_set_pointer_mapping =
      parse_own little_endian set_pointer_mapping 116
        (list_of (λ o. parse_fixed 1) announced_sz (λ r. prefix_member r "map_len")) exact_length []

  unfoldable pub parse_get_pointer_mapping : RequestParser
  parse_get_pointer_mapping = parse_as little_endian 117 (parse_simple_request little_endian)

  unfoldable pub parse_set_modifier_mapping : RequestParser
  parse_set_modifier_mapping =
      parse_own little_endian set_modifier_mapping 118
        (asserting expects_keycodes (list_of_announced (λ o. parse_fixed 1) 1)) exact_length
        (in_prefix "keycodes_per_modifier" ∷ [])

  unfoldable pub parse_get_modifier_mapping : RequestParser
  parse_get_modifier_mapping = parse_as little_endian 119 (parse_simple_request little_endian)

  unfoldable pub parse_no_operation : RequestParser
  parse_no_operation = parse_own little_endian simple_request 127 stepped_over exact_length []
