-- ===== src/Protocol/Requests/Control.antt =====
-- src/include/protocol/requests.hpp: requests on extensions, the keyboard, the pointer and the server (opcodes 98 to 127).
use xtracepp.Base.{[], ◌∷◌, none, some}
use xtracepp.Protocol.{byte_type, long_type, resource_id, short_type, unused}
use xtracepp.Protocol.Requests.{Layout}

abbrev pub query_extension : Layout
query_extension = record {
  prefix = ("opcode", byte_type) ∷ ("unused", unused 1) ∷ [];
  encoding = some (("name_len", short_type) ∷ ("unused", unused 2) ∷ []);
}

abbrev pub change_keyboard_mapping : Layout
change_keyboard_mapping = record {
  prefix = ("opcode", byte_type) ∷ ("keycode_count", byte_type) ∷ [];
  encoding = some (
      ("first_keycode", byte_type)
      ∷ ("keysyms_per_keycode", byte_type)
      ∷ ("unused", unused 2)
      ∷ []);
}

abbrev pub get_keyboard_mapping : Layout
get_keyboard_mapping = record {
  prefix = ("opcode", byte_type) ∷ ("unused", unused 1) ∷ [];
  encoding = some (("first_keycode", byte_type) ∷ ("count", byte_type) ∷ ("unused", unused 2) ∷ []);
}

abbrev pub change_keyboard_control : Layout
change_keyboard_control = record {
  prefix = ("opcode", byte_type) ∷ ("unused", unused 1) ∷ [];
  encoding = some (("value_mask", long_type) ∷ []);
}

abbrev pub bell : Layout
bell = record { prefix = ("opcode", byte_type) ∷ ("percent", byte_type) ∷ []; encoding = none }

abbrev pub change_pointer_control : Layout
change_pointer_control = record {
  prefix = ("opcode", byte_type) ∷ ("unused", unused 1) ∷ [];
  encoding = some (
      ("acceleration_numerator", short_type)
      ∷ ("acceleration_denominator", short_type)
      ∷ ("threshold", short_type)
      ∷ ("do_acceleration", byte_type)
      ∷ ("do_threshold", byte_type)
      ∷ []);
}

abbrev pub set_screen_saver : Layout
set_screen_saver = record {
  prefix = ("opcode", byte_type) ∷ ("unused", unused 1) ∷ [];
  encoding = some (
      ("timeout", short_type)
      ∷ ("interval", short_type)
      ∷ ("prefer_blanking", byte_type)
      ∷ ("allow_exposures", byte_type)
      ∷ ("unused", unused 2)
      ∷ []);
}

abbrev pub change_hosts : Layout
change_hosts = record {
  prefix = ("opcode", byte_type) ∷ ("mode", byte_type) ∷ [];
  encoding = some (("family", byte_type) ∷ ("unused", unused 1) ∷ ("address_len", short_type) ∷ []);
}

abbrev pub set_access_control : Layout
set_access_control = record {
  prefix = ("opcode", byte_type) ∷ ("mode", byte_type) ∷ [];
  encoding = none;
}

abbrev pub set_close_down_mode : Layout
set_close_down_mode = record {
  prefix = ("opcode", byte_type) ∷ ("mode", byte_type) ∷ [];
  encoding = none;
}

abbrev pub kill_client : Layout
kill_client = record {
  prefix = ("opcode", byte_type) ∷ ("unused", unused 1) ∷ [];
  encoding = some (("resource", long_type) ∷ []);
}

abbrev pub rotate_properties : Layout
rotate_properties = record {
  prefix = ("opcode", byte_type) ∷ ("unused", unused 1) ∷ [];
  encoding =
      some (("window", resource_id) ∷ ("properties_ct", short_type) ∷ ("delta", short_type) ∷ []);
}

abbrev pub force_screen_saver : Layout
force_screen_saver = record {
  prefix = ("opcode", byte_type) ∷ ("mode", byte_type) ∷ [];
  encoding = none;
}

abbrev pub set_pointer_mapping : Layout
set_pointer_mapping = record {
  prefix = ("opcode", byte_type) ∷ ("map_len", byte_type) ∷ [];
  encoding = none;
}

abbrev pub set_modifier_mapping : Layout
set_modifier_mapping = record {
  prefix = ("opcode", byte_type) ∷ ("keycodes_per_modifier", byte_type) ∷ [];
  encoding = none;
}
