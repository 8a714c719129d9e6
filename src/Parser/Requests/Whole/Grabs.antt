-- ===== src/Parser/Requests/Whole/Grabs.antt =====
-- The requests on grabs, the pointer and the input focus (opcodes 26 to 44) are parsed whole.
use xtracepp.Base.{refl, Bool}
use xtracepp.Protocol.{sizeof_struct}
use xtracepp.Parser.Requests.Grabs.{
  parse_allow_events, parse_change_active_pointer_grab, parse_get_input_focus,
  parse_get_motion_events, parse_grab_button, parse_grab_key, parse_grab_keyboard,
  parse_grab_pointer, parse_grab_server, parse_query_keymap, parse_query_pointer,
  parse_set_input_focus, parse_simple_request, parse_translate_coordinates, parse_ungrab_button,
  parse_ungrab_key, parse_ungrab_keyboard, parse_ungrab_pointer, parse_ungrab_server,
  parse_warp_pointer,
}
use xtracepp.Parser.Requests.Whole.Windows.{parse_simple_window_request-IsWhole}
use xtracepp.Parser.Requests.Windows.{parse_simple_window_request}
use xtracepp.Protocol.Requests.Grabs.{
  allow_events, change_active_pointer_grab, get_motion_events, grab_button, grab_key, grab_keyboard,
  grab_pointer, set_input_focus, simple_request, translate_coordinates, ungrab_button, ungrab_key,
  ungrab_keyboard, ungrab_pointer, warp_pointer,
}
use xtracepp.Parser.Requests.Whole.{IsWhole, parse_any-IsWhole, parse_own-IsWhole, parse_as-IsWhole}
use xtracepp.Parser.Requests.Whole.Suffixes.{no_suffix-IsAligned}

module _ (little_endian : Bool) where
  pub parse_simple_request-IsWhole : IsWhole little_endian (parse_simple_request little_endian)
  unfolding sizeof_struct parse_simple_request
  parse_simple_request-IsWhole =
      parse_any-IsWhole little_endian simple_request (record { two_bytes = refl; aligned = refl }) _
        no_suffix-IsAligned _ _

  pub parse_grab_pointer-IsWhole : IsWhole little_endian (parse_grab_pointer little_endian)
  unfolding sizeof_struct parse_grab_pointer
  parse_grab_pointer-IsWhole =
      parse_own-IsWhole little_endian grab_pointer 26 _ _ _
        (record { two_bytes = refl; aligned = refl }) no_suffix-IsAligned

  pub parse_ungrab_pointer-IsWhole : IsWhole little_endian (parse_ungrab_pointer little_endian)
  unfolding sizeof_struct parse_ungrab_pointer
  parse_ungrab_pointer-IsWhole =
      parse_own-IsWhole little_endian ungrab_pointer 27 _ _ _
        (record { two_bytes = refl; aligned = refl }) no_suffix-IsAligned

  pub parse_grab_button-IsWhole : IsWhole little_endian (parse_grab_button little_endian)
  unfolding sizeof_struct parse_grab_button
  parse_grab_button-IsWhole =
      parse_own-IsWhole little_endian grab_button 28 _ _ _
        (record { two_bytes = refl; aligned = refl }) no_suffix-IsAligned

  pub parse_ungrab_button-IsWhole : IsWhole little_endian (parse_ungrab_button little_endian)
  unfolding sizeof_struct parse_ungrab_button
  parse_ungrab_button-IsWhole =
      parse_own-IsWhole little_endian ungrab_button 29 _ _ _
        (record { two_bytes = refl; aligned = refl }) no_suffix-IsAligned

  pub parse_change_active_pointer_grab-IsWhole :
      IsWhole little_endian (parse_change_active_pointer_grab little_endian)
  unfolding sizeof_struct parse_change_active_pointer_grab
  parse_change_active_pointer_grab-IsWhole =
      parse_own-IsWhole little_endian change_active_pointer_grab 30 _ _ _
        (record { two_bytes = refl; aligned = refl }) no_suffix-IsAligned

  pub parse_grab_keyboard-IsWhole : IsWhole little_endian (parse_grab_keyboard little_endian)
  unfolding sizeof_struct parse_grab_keyboard
  parse_grab_keyboard-IsWhole =
      parse_own-IsWhole little_endian grab_keyboard 31 _ _ _
        (record { two_bytes = refl; aligned = refl }) no_suffix-IsAligned

  pub parse_ungrab_keyboard-IsWhole : IsWhole little_endian (parse_ungrab_keyboard little_endian)
  unfolding sizeof_struct parse_ungrab_keyboard
  parse_ungrab_keyboard-IsWhole =
      parse_own-IsWhole little_endian ungrab_keyboard 32 _ _ _
        (record { two_bytes = refl; aligned = refl }) no_suffix-IsAligned

  pub parse_grab_key-IsWhole : IsWhole little_endian (parse_grab_key little_endian)
  unfolding sizeof_struct parse_grab_key
  parse_grab_key-IsWhole =
      parse_own-IsWhole little_endian grab_key 33 _ _ _
        (record { two_bytes = refl; aligned = refl }) no_suffix-IsAligned

  pub parse_ungrab_key-IsWhole : IsWhole little_endian (parse_ungrab_key little_endian)
  unfolding sizeof_struct parse_ungrab_key
  parse_ungrab_key-IsWhole =
      parse_own-IsWhole little_endian ungrab_key 34 _ _ _
        (record { two_bytes = refl; aligned = refl }) no_suffix-IsAligned

  pub parse_allow_events-IsWhole : IsWhole little_endian (parse_allow_events little_endian)
  unfolding sizeof_struct parse_allow_events
  parse_allow_events-IsWhole =
      parse_own-IsWhole little_endian allow_events 35 _ _ _
        (record { two_bytes = refl; aligned = refl }) no_suffix-IsAligned

  pub parse_grab_server-IsWhole : IsWhole little_endian (parse_grab_server little_endian)
  unfolding parse_grab_server
  parse_grab_server-IsWhole =
      parse_as-IsWhole little_endian 36 (parse_simple_request little_endian)
        parse_simple_request-IsWhole

  pub parse_ungrab_server-IsWhole : IsWhole little_endian (parse_ungrab_server little_endian)
  unfolding parse_ungrab_server
  parse_ungrab_server-IsWhole =
      parse_as-IsWhole little_endian 37 (parse_simple_request little_endian)
        parse_simple_request-IsWhole

  pub parse_query_pointer-IsWhole : IsWhole little_endian (parse_query_pointer little_endian)
  unfolding parse_query_pointer
  parse_query_pointer-IsWhole =
      parse_as-IsWhole little_endian 38 (parse_simple_window_request little_endian)
        (parse_simple_window_request-IsWhole little_endian)

  pub parse_get_motion_events-IsWhole :
      IsWhole little_endian (parse_get_motion_events little_endian)
  unfolding sizeof_struct parse_get_motion_events
  parse_get_motion_events-IsWhole =
      parse_own-IsWhole little_endian get_motion_events 39 _ _ _
        (record { two_bytes = refl; aligned = refl }) no_suffix-IsAligned

  pub parse_translate_coordinates-IsWhole :
      IsWhole little_endian (parse_translate_coordinates little_endian)
  unfolding sizeof_struct parse_translate_coordinates
  parse_translate_coordinates-IsWhole =
      parse_own-IsWhole little_endian translate_coordinates 40 _ _ _
        (record { two_bytes = refl; aligned = refl }) no_suffix-IsAligned

  pub parse_warp_pointer-IsWhole : IsWhole little_endian (parse_warp_pointer little_endian)
  unfolding sizeof_struct parse_warp_pointer
  parse_warp_pointer-IsWhole =
      parse_own-IsWhole little_endian warp_pointer 41 _ _ _
        (record { two_bytes = refl; aligned = refl }) no_suffix-IsAligned

  pub parse_set_input_focus-IsWhole : IsWhole little_endian (parse_set_input_focus little_endian)
  unfolding sizeof_struct parse_set_input_focus
  parse_set_input_focus-IsWhole =
      parse_own-IsWhole little_endian set_input_focus 42 _ _ _
        (record { two_bytes = refl; aligned = refl }) no_suffix-IsAligned

  pub parse_get_input_focus-IsWhole : IsWhole little_endian (parse_get_input_focus little_endian)
  unfolding parse_get_input_focus
  parse_get_input_focus-IsWhole =
      parse_as-IsWhole little_endian 43 (parse_simple_request little_endian)
        parse_simple_request-IsWhole

  pub parse_query_keymap-IsWhole : IsWhole little_endian (parse_query_keymap little_endian)
  unfolding parse_query_keymap
  parse_query_keymap-IsWhole =
      parse_as-IsWhole little_endian 44 (parse_simple_request little_endian)
        parse_simple_request-IsWhole
