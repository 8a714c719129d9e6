-- ===== src/Parser/Requests/Grabs.antt =====
-- src/X11ProtocolParser__parseRequest.cpp: requests on grabs, the pointer and the input focus (opcodes 26 to 44).
use xtracepp.Base.{Bool, [], ◌∷◌}
use xtracepp.Protocol.Requests.Grabs.{
  grab_pointer, ungrab_pointer, grab_button, ungrab_button, change_active_pointer_grab,
  grab_keyboard, ungrab_keyboard, grab_key, ungrab_key, allow_events, simple_request,
  get_motion_events, translate_coordinates, warp_pointer, set_input_focus,
}
use xtracepp.Parser.Requests.{
  RequestParser, parse_any, parse_own, parse_as, in_prefix, in_encoding, length_of_short,
}
use xtracepp.Parser.Requests.Suffixes.{no_suffix}
use xtracepp.Parser.Requests.Windows.{parse_simple_window_request}

module _ (little_endian : Bool) where
  unfoldable pub parse_simple_request : RequestParser
  parse_simple_request = parse_any little_endian simple_request no_suffix length_of_short []

  unfoldable pub parse_grab_pointer : RequestParser
  parse_grab_pointer = parse_own little_endian grab_pointer 26 no_suffix length_of_short (
      in_prefix "owner_events"
      ∷ in_encoding "grab_window"
      ∷ in_encoding "event_mask"
      ∷ in_encoding "pointer_mode"
      ∷ in_encoding "keyboard_mode"
      ∷ in_encoding "confine_to"
      ∷ in_encoding "cursor"
      ∷ in_encoding "time"
      ∷ [])

  unfoldable pub parse_ungrab_pointer : RequestParser
  parse_ungrab_pointer =
      parse_own little_endian ungrab_pointer 27 no_suffix length_of_short (in_encoding "time" ∷ [])

  unfoldable pub parse_grab_button : RequestParser
  parse_grab_button = parse_own little_endian grab_button 28 no_suffix length_of_short (
      in_prefix "owner_events"
      ∷ in_encoding "grab_window"
      ∷ in_encoding "event_mask"
      ∷ in_encoding "pointer_mode"
      ∷ in_encoding "keyboard_mode"
      ∷ in_encoding "confine_to"
      ∷ in_encoding "cursor"
      ∷ in_encoding "button"
      ∷ in_encoding "modifiers"
      ∷ [])

  unfoldable pub parse_ungrab_button : RequestParser
  parse_ungrab_button =
      parse_own little_endian ungrab_button 29 no_suffix length_of_short
        (in_prefix "button" ∷ in_encoding "grab_window" ∷ in_encoding "modifiers" ∷ [])

  unfoldable pub parse_change_active_pointer_grab : RequestParser
  parse_change_active_pointer_grab =
      parse_own little_endian change_active_pointer_grab 30 no_suffix length_of_short
        (in_encoding "cursor" ∷ in_encoding "time" ∷ in_encoding "event_mask" ∷ [])

  unfoldable pub parse_grab_keyboard : RequestParser
  parse_grab_keyboard = parse_own little_endian grab_keyboard 31 no_suffix length_of_short (
      in_prefix "owner_events"
      ∷ in_encoding "grab_window"
      ∷ in_encoding "time"
      ∷ in_encoding "pointer_mode"
      ∷ in_encoding "keyboard_mode"
      ∷ [])

  unfoldable pub parse_ungrab_keyboard : RequestParser
  parse_ungrab_keyboard =
      parse_own little_endian ungrab_keyboard 32 no_suffix length_of_short (in_encoding "time" ∷ [])

  unfoldable pub parse_grab_key : RequestParser
  parse_grab_key = parse_own little_endian grab_key 33 no_suffix length_of_short (
      in_prefix "owner_events"
      ∷ in_encoding "modifiers"
      ∷ in_encoding "key"
      ∷ in_encoding "pointer_mode"
      ∷ in_encoding "keyboard_mode"
      ∷ [])

  unfoldable pub parse_ungrab_key : RequestParser
  parse_ungrab_key =
      parse_own little_endian ungrab_key 34 no_suffix length_of_short
        (in_prefix "key" ∷ in_encoding "grab_window" ∷ in_encoding "modifiers" ∷ [])

  unfoldable pub parse_allow_events : RequestParser
  parse_allow_events =
      parse_own little_endian allow_events 35 no_suffix length_of_short
        (in_prefix "mode" ∷ in_encoding "time" ∷ [])

  unfoldable pub parse_grab_server : RequestParser
  parse_grab_server = parse_as little_endian 36 parse_simple_request

  unfoldable pub parse_ungrab_server : RequestParser
  parse_ungrab_server = parse_as little_endian 37 parse_simple_request

  unfoldable pub parse_query_pointer : RequestParser
  parse_query_pointer = parse_as little_endian 38 (parse_simple_window_request little_endian)

  unfoldable pub parse_get_motion_events : RequestParser
  parse_get_motion_events =
      parse_own little_endian get_motion_events 39 no_suffix length_of_short
        (in_encoding "window" ∷ in_encoding "start" ∷ in_encoding "stop" ∷ [])

  unfoldable pub parse_translate_coordinates : RequestParser
  parse_translate_coordinates =
      parse_own little_endian translate_coordinates 40 no_suffix length_of_short (
        in_encoding "src_window"
        ∷ in_encoding "dst_window"
        ∷ in_encoding "src_x"
        ∷ in_encoding "src_y"
        ∷ [])

  unfoldable pub parse_warp_pointer : RequestParser
  parse_warp_pointer = parse_own little_endian warp_pointer 41 no_suffix length_of_short (
      in_encoding "src_window"
      ∷ in_encoding "dst_window"
      ∷ in_encoding "src_x"
      ∷ in_encoding "src_y"
      ∷ in_encoding "src_width"
      ∷ in_encoding "src_height"
      ∷ in_encoding "dst_x"
      ∷ in_encoding "dst_y"
      ∷ [])

  unfoldable pub parse_set_input_focus : RequestParser
  parse_set_input_focus =
      parse_own little_endian set_input_focus 42 no_suffix length_of_short
        (in_prefix "revert_to" ∷ in_encoding "focus" ∷ in_encoding "time" ∷ [])

  unfoldable pub parse_get_input_focus : RequestParser
  parse_get_input_focus = parse_as little_endian 43 parse_simple_request

  unfoldable pub parse_query_keymap : RequestParser
  parse_query_keymap = parse_as little_endian 44 parse_simple_request
