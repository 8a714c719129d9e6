-- ===== src/Parser/Events.antt =====
-- src/X11ProtocolParser__parseEvent.cpp and src/X11ProtocolParser__core_events.cpp: a function for each
-- event of the core protocol, which answers the bytes that it parsed, and the table of them by code.
pub mod Fixed
use Prim.Native.String.{String}
use xtracepp.Base.{
  ℕ, ◌%◌, Bool, List, [], ◌∷◌, leb, ◌==◌, drop, find, Option, none, some, Outcome, ok, aborted,
  require, ◌>>=◌, ◌>>◌,
}
use xtracepp.Session.{Connection}
use xtracepp.Parser.Fields.{u8}
use xtracepp.Parser.Messages.{order_of}
use xtracepp.Parser.ListMembers.{parse_list_of, parse_fixed}
use xtracepp.Protocol.{Struct, sizeof_struct}
use xtracepp.Protocol.Events.{
  input_event, motion_notify_event, boundary_event, focus_event, keymap_notify_event, expose_event,
  graphics_exposure_event, no_exposure_event, visibility_notify_event, create_notify_event,
  destroy_notify_event, unmap_notify_event, map_notify_event, map_request_event,
  reparent_notify_event, configure_notify_event, configure_request_event, gravity_notify_event,
  resize_request_event, circulate_notify_event, circulate_request_event, property_notify_event,
  selection_clear_event, selection_request_event, selection_notify_event, colormap_notify_event,
  client_message_event, mapping_notify_event,
}
use xtracepp.Parser.Replies.{replying, format_members}

abbrev pub EventParser : Type 0
EventParser = Connection → List ℕ → ℕ → Outcome ℕ

module _ (little_endian : Bool) where
  -- The code less its top bit, which tells that a client made the event.
  unfoldable pub event_code : Connection → List ℕ → ℕ
  unfolding u8
  event_code conn d = u8 (order_of little_endian conn) d 0 % 128

  -- The functions of `impl`, which test no code.
  unfoldable pub any_event : Struct → List String → EventParser
  unfolding sizeof_struct format_members
  any_event s shown conn d sz = do
    require (leb 32 sz)
    require (sizeof_struct s == 32)
    format_members (replying little_endian s conn d sz) shown
    ok (sizeof_struct s)

  -- Those for an event with a struct of its own.
  unfoldable pub own_event : Struct → ℕ → List String → EventParser
  unfolding sizeof_struct format_members event_code
  own_event s code shown conn d sz = do
    require (leb 32 sz)
    require (event_code conn d == code)
    require (sizeof_struct s == 32)
    format_members (replying little_endian s conn d sz) shown
    ok (sizeof_struct s)

  -- Those that hand the event to a function of `impl`.
  unfoldable pub event_as : ℕ → EventParser → EventParser
  unfolding event_code
  event_as code base conn d sz = do
    require (leb 4 sz)
    require (event_code conn d == code)
    base conn d sz

  unfoldable pub parse_input_event : EventParser
  parse_input_event = any_event input_event (
      "header.detail" ∷ "time" ∷ "root" ∷ "event" ∷ "child" ∷ "root_x" ∷ "root_y" ∷ "event_x"
      ∷ "event_y" ∷ "state" ∷ "same_screen" ∷ [])

  unfoldable pub parse_key_press_event : EventParser
  parse_key_press_event = event_as 2 parse_input_event

  unfoldable pub parse_key_release_event : EventParser
  parse_key_release_event = event_as 3 parse_input_event

  unfoldable pub parse_button_press_event : EventParser
  parse_button_press_event = event_as 4 parse_input_event

  unfoldable pub parse_button_release_event : EventParser
  parse_button_release_event = event_as 5 parse_input_event

  unfoldable pub parse_motion_notify_event : EventParser
  parse_motion_notify_event = own_event motion_notify_event 6 (
      "header.detail" ∷ "time" ∷ "root" ∷ "event" ∷ "child" ∷ "root_x" ∷ "root_y" ∷ "event_x"
      ∷ "event_y" ∷ "state" ∷ "same_screen" ∷ [])

  unfoldable pub parse_boundary_event : EventParser
  parse_boundary_event = any_event boundary_event (
      "header.detail" ∷ "time" ∷ "root" ∷ "event" ∷ "child" ∷ "root_x" ∷ "root_y" ∷ "event_x"
      ∷ "event_y" ∷ "state" ∷ "mode" ∷ "focus_same_screen_mask" ∷ [])

  unfoldable pub parse_enter_notify_event : EventParser
  parse_enter_notify_event = event_as 7 parse_boundary_event

  unfoldable pub parse_leave_notify_event : EventParser
  parse_leave_notify_event = event_as 8 parse_boundary_event

  unfoldable pub parse_focus_event : EventParser
  parse_focus_event = any_event focus_event ("header.detail" ∷ "event" ∷ "mode" ∷ [])

  unfoldable pub parse_focus_in_event : EventParser
  parse_focus_in_event = event_as 9 parse_focus_event

  unfoldable pub parse_focus_out_event : EventParser
  parse_focus_out_event = event_as 10 parse_focus_event

  -- The 31 bytes of the keys are a list that is parsed beside the struct.
  unfoldable pub parse_keymap_notify_event : EventParser
  unfolding parse_list_of parse_fixed
  parse_keymap_notify_event conn d sz = do
    bytes_parsed ← own_event keymap_notify_event 11 [] conn d sz
    keys ← parse_list_of (parse_fixed 1) 31 (drop 1 d) 31
    ok bytes_parsed

  unfoldable pub parse_expose_event : EventParser
  parse_expose_event =
      own_event expose_event 12 ("window" ∷ "x" ∷ "y" ∷ "width" ∷ "height" ∷ "count" ∷ [])

  unfoldable pub parse_graphics_exposure_event : EventParser
  parse_graphics_exposure_event =
      own_event graphics_exposure_event 13 (
        "drawable" ∷ "x" ∷ "y" ∷ "width" ∷ "height" ∷ "minor_opcode" ∷ "count" ∷ "major_opcode"
        ∷ [])

  unfoldable pub parse_no_exposure_event : EventParser
  parse_no_exposure_event =
      own_event no_exposure_event 14 ("drawable" ∷ "minor_opcode" ∷ "major_opcode" ∷ [])

  unfoldable pub parse_visibility_notify_event : EventParser
  parse_visibility_notify_event = own_event visibility_notify_event 15 ("window" ∷ "state" ∷ [])

  unfoldable pub parse_create_notify_event : EventParser
  parse_create_notify_event = own_event create_notify_event 16 (
      "parent" ∷ "window" ∷ "x" ∷ "y" ∷ "width" ∷ "height" ∷ "border_width" ∷ "override_redirect"
      ∷ [])

  unfoldable pub parse_destroy_notify_event : EventParser
  parse_destroy_notify_event = own_event destroy_notify_event 17 ("event" ∷ "window" ∷ [])

  unfoldable pub parse_unmap_notify_event : EventParser
  parse_unmap_notify_event =
      own_event unmap_notify_event 18 ("event" ∷ "window" ∷ "from_configure" ∷ [])

  unfoldable pub parse_map_notify_event : EventParser
  parse_map_notify_event =
      own_event map_notify_event 19 ("event" ∷ "window" ∷ "override_redirect" ∷ [])

  unfoldable pub parse_map_request_event : EventParser
  parse_map_request_event = own_event map_request_event 20 ("parent" ∷ "window" ∷ [])

  unfoldable pub parse_reparent_notify_event : EventParser
  parse_reparent_notify_event =
      own_event reparent_notify_event 21
        ("event" ∷ "window" ∷ "parent" ∷ "x" ∷ "y" ∷ "override_redirect" ∷ [])

  unfoldable pub parse_configure_notify_event : EventParser
  parse_configure_notify_event = own_event configure_notify_event 22 (
      "event" ∷ "window" ∷ "above_sibling" ∷ "x" ∷ "y" ∷ "width" ∷ "height" ∷ "border_width"
      ∷ "override_redirect" ∷ [])

  unfoldable pub parse_configure_request_event : EventParser
  parse_configure_request_event = own_event configure_request_event 23 (
      "header.stack_mode" ∷ "parent" ∷ "window" ∷ "sibling" ∷ "x" ∷ "y" ∷ "width" ∷ "height"
      ∷ "border_width" ∷ "value_mask" ∷ [])

  unfoldable pub parse_gravity_notify_event : EventParser
  parse_gravity_notify_event =
      own_event gravity_notify_event 24 ("event" ∷ "window" ∷ "x" ∷ "y" ∷ [])

  unfoldable pub parse_resize_request_event : EventParser
  parse_resize_request_event =
      own_event resize_request_event 25 ("window" ∷ "width" ∷ "height" ∷ [])

  unfoldable pub parse_circulate_notify_event : EventParser
  parse_circulate_notify_event =
      own_event circulate_notify_event 26 ("event" ∷ "window" ∷ "place" ∷ [])

  unfoldable pub parse_circulate_request_event : EventParser
  parse_circulate_request_event =
      own_event circulate_request_event 27 ("parent" ∷ "window" ∷ "place" ∷ [])

  unfoldable pub parse_property_notify_event : EventParser
  parse_property_notify_event =
      own_event property_notify_event 28 ("window" ∷ "atom" ∷ "time" ∷ "state" ∷ [])

  unfoldable pub parse_selection_clear_event : EventParser
  parse_selection_clear_event =
      own_event selection_clear_event 29 ("time" ∷ "owner" ∷ "selection" ∷ [])

  unfoldable pub parse_selection_request_event : EventParser
  parse_selection_request_event =
      own_event selection_request_event 30
        ("time" ∷ "owner" ∷ "requestor" ∷ "selection" ∷ "target" ∷ "property" ∷ [])

  unfoldable pub parse_selection_notify_event : EventParser
  parse_selection_notify_event =
      own_event selection_notify_event 31
        ("time" ∷ "requestor" ∷ "selection" ∷ "target" ∷ "property" ∷ [])

  unfoldable pub parse_colormap_notify_event : EventParser
  parse_colormap_notify_event =
      own_event colormap_notify_event 32 ("window" ∷ "colormap" ∷ "new_" ∷ "state" ∷ [])

  unfoldable pub parse_client_message_event : EventParser
  parse_client_message_event =
      own_event client_message_event 33 ("header.format" ∷ "window" ∷ "type" ∷ [])

  unfoldable pub parse_mapping_notify_event : EventParser
  parse_mapping_notify_event =
      own_event mapping_notify_event 34 ("request" ∷ "first_keycode" ∷ "count" ∷ [])

  abbrev pub core_events : List (ℕ × EventParser)
  core_events =
      (2, parse_key_press_event)
      ∷ (3, parse_key_release_event)
      ∷ (4, parse_button_press_event)
      ∷ (5, parse_button_release_event)
      ∷ (6, parse_motion_notify_event)
      ∷ (7, parse_enter_notify_event)
      ∷ (8, parse_leave_notify_event)
      ∷ (9, parse_focus_in_event)
      ∷ (10, parse_focus_out_event)
      ∷ (11, parse_keymap_notify_event)
      ∷ (12, parse_expose_event)
      ∷ (13, parse_graphics_exposure_event)
      ∷ (14, parse_no_exposure_event)
      ∷ (15, parse_visibility_notify_event)
      ∷ (16, parse_create_notify_event)
      ∷ (17, parse_destroy_notify_event)
      ∷ (18, parse_unmap_notify_event)
      ∷ (19, parse_map_notify_event)
      ∷ (20, parse_map_request_event)
      ∷ (21, parse_reparent_notify_event)
      ∷ (22, parse_configure_notify_event)
      ∷ (23, parse_configure_request_event)
      ∷ (24, parse_gravity_notify_event)
      ∷ (25, parse_resize_request_event)
      ∷ (26, parse_circulate_notify_event)
      ∷ (27, parse_circulate_request_event)
      ∷ (28, parse_property_notify_event)
      ∷ (29, parse_selection_clear_event)
      ∷ (30, parse_selection_request_event)
      ∷ (31, parse_selection_notify_event)
      ∷ (32, parse_colormap_notify_event)
      ∷ (33, parse_client_message_event)
      ∷ (34, parse_mapping_notify_event)
      ∷ []

  -- `_event_codes.at( code )` throws for a code that is not there, which nothing catches.
  abbrev parser_or_throw : Option EventParser → EventParser
  parser_or_throw none = λ conn d sz. aborted
  parser_or_throw (some parser) = parser

  unfoldable pub event_at : ℕ → EventParser
  unfolding find
  event_at code = parser_or_throw (find code core_events)
