-- ===== src/Protocol/Requests/Grabs.antt =====
-- src/include/protocol/requests.hpp: requests on grabs, the pointer and the input focus (opcodes 26 to 44).
use xtracepp.Base.{[], ◌∷◌, none, some}
use xtracepp.Protocol.{
  byte_type, long_type, resource_id, setofkeymask, setofpointerevent, short_type, unused,
}
use xtracepp.Protocol.Requests.{Layout}

abbrev pub grab_pointer : Layout
grab_pointer = record {
  prefix = ("opcode", byte_type) ∷ ("owner_events", byte_type) ∷ [];
  encoding = some (
      ("grab_window", resource_id)
      ∷ ("event_mask", setofpointerevent)
      ∷ ("pointer_mode", byte_type)
      ∷ ("keyboard_mode", byte_type)
      ∷ ("confine_to", resource_id)
      ∷ ("cursor", resource_id)
      ∷ ("time", long_type)
      ∷ []);
}

abbrev pub ungrab_pointer : Layout
ungrab_pointer = record {
  prefix = ("opcode", byte_type) ∷ ("unused", unused 1) ∷ [];
  encoding = some (("time", long_type) ∷ []);
}

abbrev pub grab_button : Layout
grab_button = record {
  prefix = ("opcode", byte_type) ∷ ("owner_events", byte_type) ∷ [];
  encoding = some (
      ("grab_window", resource_id)
      ∷ ("event_mask", setofpointerevent)
      ∷ ("pointer_mode", byte_type)
      ∷ ("keyboard_mode", byte_type)
      ∷ ("confine_to", resource_id)
      ∷ ("cursor", resource_id)
      ∷ ("button", byte_type)
      ∷ ("unused", unused 1)
      ∷ ("modifiers", setofkeymask)
      ∷ []);
}

abbrev pub ungrab_button : Layout
ungrab_button = record {
  prefix = ("opcode", byte_type) ∷ ("button", byte_type) ∷ [];
  encoding =
      some (("grab_window", resource_id) ∷ ("modifiers", setofkeymask) ∷ ("unused", unused 2) ∷ []);
}

abbrev pub change_active_pointer_grab : Layout
change_active_pointer_grab = record {
  prefix = ("opcode", byte_type) ∷ ("unused", unused 1) ∷ [];
  encoding = some (
      ("cursor", resource_id)
      ∷ ("time", long_type)
      ∷ ("event_mask", setofpointerevent)
      ∷ ("unused", unused 2)
      ∷ []);
}

abbrev pub grab_keyboard : Layout
grab_keyboard = record {
  prefix = ("opcode", byte_type) ∷ ("owner_events", byte_type) ∷ [];
  encoding = some (
      ("grab_window", resource_id)
      ∷ ("time", long_type)
      ∷ ("pointer_mode", byte_type)
      ∷ ("keyboard_mode", byte_type)
      ∷ ("unused", unused 2)
      ∷ []);
}

abbrev pub ungrab_keyboard : Layout
ungrab_keyboard = record {
  prefix = ("opcode", byte_type) ∷ ("unused", unused 1) ∷ [];
  encoding = some (("time", long_type) ∷ []);
}

abbrev pub grab_key : Layout
grab_key = record {
  prefix = ("opcode", byte_type) ∷ ("owner_events", byte_type) ∷ [];
  encoding = some (
      ("grab_window", resource_id)
      ∷ ("modifiers", setofkeymask)
      ∷ ("key", byte_type)
      ∷ ("pointer_mode", byte_type)
      ∷ ("keyboard_mode", byte_type)
      ∷ ("unused", unused 3)
      ∷ []);
}

abbrev pub ungrab_key : Layout
ungrab_key = record {
  prefix = ("opcode", byte_type) ∷ ("key", byte_type) ∷ [];
  encoding =
      some (("grab_window", resource_id) ∷ ("modifiers", setofkeymask) ∷ ("unused", unused 2) ∷ []);
}

abbrev pub allow_events : Layout
allow_events = record {
  prefix = ("opcode", byte_type) ∷ ("mode", byte_type) ∷ [];
  encoding = some (("time", long_type) ∷ []);
}

abbrev pub simple_request : Layout
simple_request = record {
  prefix = ("opcode", byte_type) ∷ ("unused", unused 1) ∷ [];
  encoding = none;
}

abbrev pub get_motion_events : Layout
get_motion_events = record {
  prefix = ("opcode", byte_type) ∷ ("unused", unused 1) ∷ [];
  encoding = some (("window", resource_id) ∷ ("start", long_type) ∷ ("stop", long_type) ∷ []);
}

abbrev pub translate_coordinates : Layout
translate_coordinates = record {
  prefix = ("opcode", byte_type) ∷ ("unused", unused 1) ∷ [];
  encoding = some (
      ("src_window", resource_id)
      ∷ ("dst_window", resource_id)
      ∷ ("src_x", short_type)
      ∷ ("src_y", short_type)
      ∷ []);
}

abbrev pub warp_pointer : Layout
warp_pointer = record {
  prefix = ("opcode", byte_type) ∷ ("unused", unused 1) ∷ [];
  encoding = some (
      ("src_window", resource_id)
      ∷ ("dst_window", resource_id)
      ∷ ("src_x", short_type)
      ∷ ("src_y", short_type)
      ∷ ("src_width", short_type)
      ∷ ("src_height", short_type)
      ∷ ("dst_x", short_type)
      ∷ ("dst_y", short_type)
      ∷ []);
}

abbrev pub set_input_focus : Layout
set_input_focus = record {
  prefix = ("opcode", byte_type) ∷ ("revert_to", byte_type) ∷ [];
  encoding = some (("focus", resource_id) ∷ ("time", long_type) ∷ []);
}
