-- ===== src/Parser/Requests/Whole/Control.antt =====
-- The requests on extensions, the keyboard, the pointer and the server (opcodes 98 to 127) are parsed whole.
use xtracepp.Base.{refl, Bool}
use xtracepp.Protocol.{sizeof_struct}
use xtracepp.Parser.Requests.Control.{
  parse_bell, parse_change_hosts, parse_change_keyboard_control, parse_change_keyboard_mapping,
  parse_change_pointer_control, parse_force_screen_saver, parse_get_keyboard_control,
  parse_get_keyboard_mapping, parse_get_modifier_mapping, parse_get_pointer_control,
  parse_get_pointer_mapping, parse_get_screen_saver, parse_kill_client, parse_list_extensions,
  parse_list_hosts, parse_no_operation, parse_query_extension, parse_rotate_properties,
  parse_set_access_control, parse_set_close_down_mode, parse_set_modifier_mapping,
  parse_set_pointer_mapping, parse_set_screen_saver,
}
use xtracepp.Parser.Requests.Grabs.{parse_simple_request}
use xtracepp.Parser.Requests.Whole.Grabs.{parse_simple_request-IsWhole}
use xtracepp.Protocol.Requests.Control.{
  bell, change_hosts, change_keyboard_control, change_keyboard_mapping, change_pointer_control,
  force_screen_saver, get_keyboard_mapping, kill_client, query_extension, rotate_properties,
  set_access_control, set_close_down_mode, set_modifier_mapping, set_pointer_mapping,
  set_screen_saver,
}
use xtracepp.Protocol.Requests.Grabs.{simple_request}
use xtracepp.Parser.Requests.Control.{expects_keycodes, expects_keysyms}
use xtracepp.Parser.Requests.Whole.{IsWhole, parse_own-IsWhole, parse_as-IsWhole}
use xtracepp.Parser.Requests.Whole.Suffixes.{
  asserting-IsAligned, list_of-IsAligned, list_of_value-IsAligned, no_suffix-IsAligned,
  stepped_over-IsAligned, string8-IsAligned,
}

module _ (little_endian : Bool) where
  pub parse_query_extension-IsWhole : IsWhole little_endian (parse_query_extension little_endian)
  unfolding sizeof_struct parse_query_extension
  parse_query_extension-IsWhole =
      parse_own-IsWhole little_endian query_extension 98 _ _ _
        (record { two_bytes = refl; aligned = refl }) (string8-IsAligned _)

  pub parse_list_extensions-IsWhole : IsWhole little_endian (parse_list_extensions little_endian)
  unfolding parse_list_extensions
  parse_list_extensions-IsWhole =
      parse_as-IsWhole little_endian 99 (parse_simple_request little_endian)
        (parse_simple_request-IsWhole little_endian)

  pub parse_change_keyboard_mapping-IsWhole :
      IsWhole little_endian (parse_change_keyboard_mapping little_endian)
  unfolding sizeof_struct parse_change_keyboard_mapping
  parse_change_keyboard_mapping-IsWhole =
      parse_own-IsWhole little_endian change_keyboard_mapping 100 _ _ _
        (record { two_bytes = refl; aligned = refl })
        (asserting-IsAligned expects_keysyms _ (list_of-IsAligned _ _ _))

  pub parse_get_keyboard_mapping-IsWhole :
      IsWhole little_endian (parse_get_keyboard_mapping little_endian)
  unfolding sizeof_struct parse_get_keyboard_mapping
  parse_get_keyboard_mapping-IsWhole =
      parse_own-IsWhole little_endian get_keyboard_mapping 101 _ _ _
        (record { two_bytes = refl; aligned = refl }) no_suffix-IsAligned

  pub parse_change_keyboard_control-IsWhole :
      IsWhole little_endian (parse_change_keyboard_control little_endian)
  unfolding sizeof_struct parse_change_keyboard_control
  parse_change_keyboard_control-IsWhole =
      parse_own-IsWhole little_endian change_keyboard_control 102 _ _ _
        (record { two_bytes = refl; aligned = refl }) (list_of_value-IsAligned _)

  pub parse_get_keyboard_control-IsWhole :
      IsWhole little_endian (parse_get_keyboard_control little_endian)
  unfolding parse_get_keyboard_control
  parse_get_keyboard_control-IsWhole =
      parse_as-IsWhole little_endian 103 (parse_simple_request little_endian)
        (parse_simple_request-IsWhole little_endian)

  pub parse_bell-IsWhole : IsWhole little_endian (parse_bell little_endian)
  unfolding sizeof_struct parse_bell
  parse_bell-IsWhole =
      parse_own-IsWhole little_endian bell 104 _ _ _ (record { two_bytes = refl; aligned = refl })
        no_suffix-IsAligned

  pub parse_change_pointer_control-IsWhole :
      IsWhole little_endian (parse_change_pointer_control little_endian)
  unfolding sizeof_struct parse_change_pointer_control
  parse_change_pointer_control-IsWhole =
      parse_own-IsWhole little_endian change_pointer_control 105 _ _ _
        (record { two_bytes = refl; aligned = refl }) no_suffix-IsAligned

  pub parse_get_pointer_control-IsWhole :
      IsWhole little_endian (parse_get_pointer_control little_endian)
  unfolding parse_get_pointer_control
  parse_get_pointer_control-IsWhole =
      parse_as-IsWhole little_endian 106 (parse_simple_request little_endian)
        (parse_simple_request-IsWhole little_endian)

  pub parse_set_screen_saver-IsWhole : IsWhole little_endian (parse_set_screen_saver little_endian)
  unfolding sizeof_struct parse_set_screen_saver
  parse_set_screen_saver-IsWhole =
      parse_own-IsWhole little_endian set_screen_saver 107 _ _ _
        (record { two_bytes = refl; aligned = refl }) no_suffix-IsAligned

  pub parse_get_screen_saver-IsWhole : IsWhole little_endian (parse_get_screen_saver little_endian)
  unfolding parse_get_screen_saver
  parse_get_screen_saver-IsWhole =
      parse_as-IsWhole little_endian 108 (parse_simple_request little_endian)
        (parse_simple_request-IsWhole little_endian)

  pub parse_change_hosts-IsWhole : IsWhole little_endian (parse_change_hosts little_endian)
  unfolding sizeof_struct parse_change_hosts
  parse_change_hosts-IsWhole =
      parse_own-IsWhole little_endian change_hosts 109 _ _ _
        (record { two_bytes = refl; aligned = refl }) (list_of-IsAligned _ _ _)

  pub parse_list_hosts-IsWhole : IsWhole little_endian (parse_list_hosts little_endian)
  unfolding parse_list_hosts
  parse_list_hosts-IsWhole =
      parse_as-IsWhole little_endian 110 (parse_simple_request little_endian)
        (parse_simple_request-IsWhole little_endian)

  pub parse_set_access_control-IsWhole :
      IsWhole little_endian (parse_set_access_control little_endian)
  unfolding sizeof_struct parse_set_access_control
  parse_set_access_control-IsWhole =
      parse_own-IsWhole little_endian set_access_control 111 _ _ _
        (record { two_bytes = refl; aligned = refl }) no_suffix-IsAligned

  pub parse_set_close_down_mode-IsWhole :
      IsWhole little_endian (parse_set_close_down_mode little_endian)
  unfolding sizeof_struct parse_set_close_down_mode
  parse_set_close_down_mode-IsWhole =
      parse_own-IsWhole little_endian set_close_down_mode 112 _ _ _
        (record { two_bytes = refl; aligned = refl }) no_suffix-IsAligned

  pub parse_kill_client-IsWhole : IsWhole little_endian (parse_kill_client little_endian)
  unfolding sizeof_struct parse_kill_client
  parse_kill_client-IsWhole =
      parse_own-IsWhole little_endian kill_client 113 _ _ _
        (record { two_bytes = refl; aligned = refl }) no_suffix-IsAligned

  pub parse_rotate_properties-IsWhole :
      IsWhole little_endian (parse_rotate_properties little_endian)
  unfolding sizeof_struct parse_rotate_properties
  parse_rotate_properties-IsWhole =
      parse_own-IsWhole little_endian rotate_properties 114 _ _ _
        (record { two_bytes = refl; aligned = refl }) (list_of-IsAligned _ _ _)

  pub parse_force_screen_saver-IsWhole :
      IsWhole little_endian (parse_force_screen_saver little_endian)
  unfolding sizeof_struct parse_force_screen_saver
  parse_force_screen_saver-IsWhole =
      parse_own-IsWhole little_endian force_screen_saver 115 _ _ _
        (record { two_bytes = refl; aligned = refl }) no_suffix-IsAligned

  pub parse_set_pointer_mapping-IsWhole :
      IsWhole little_endian (parse_set_pointer_mapping little_endian)
  unfolding sizeof_struct parse_set_pointer_mapping
  parse_set_pointer_mapping-IsWhole =
      parse_own-IsWhole little_endian set_pointer_mapping 116 _ _ _
        (record { two_bytes = refl; aligned = refl }) (list_of-IsAligned _ _ _)

  pub parse_get_pointer_mapping-IsWhole :
      IsWhole little_endian (parse_get_pointer_mapping little_endian)
  unfolding parse_get_pointer_mapping
  parse_get_pointer_mapping-IsWhole =
      parse_as-IsWhole little_endian 117 (parse_simple_request little_endian)
        (parse_simple_request-IsWhole little_endian)

  pub parse_set_modifier_mapping-IsWhole :
      IsWhole little_endian (parse_set_modifier_mapping little_endian)
  unfolding sizeof_struct parse_set_modifier_mapping
  parse_set_modifier_mapping-IsWhole =
      parse_own-IsWhole little_endian set_modifier_mapping 118 _ _ _
        (record { two_bytes = refl; aligned = refl })
        (asserting-IsAligned expects_keycodes _ (list_of-IsAligned _ _ _))

  pub parse_get_modifier_mapping-IsWhole :
      IsWhole little_endian (parse_get_modifier_mapping little_endian)
  unfolding parse_get_modifier_mapping
  parse_get_modifier_mapping-IsWhole =
      parse_as-IsWhole little_endian 119 (parse_simple_request little_endian)
        (parse_simple_request-IsWhole little_endian)

  pub parse_no_operation-IsWhole : IsWhole little_endian (parse_no_operation little_endian)
  unfolding sizeof_struct parse_no_operation
  parse_no_operation-IsWhole =
      parse_own-IsWhole little_endian simple_request 127 _ _ _
        (record { two_bytes = refl; aligned = refl }) stepped_over-IsAligned
