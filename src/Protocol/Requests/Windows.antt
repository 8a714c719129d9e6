-- ===== src/Protocol/Requests/Windows.antt =====
-- src/include/protocol/requests.hpp: requests on windows (opcodes 1 to 15).
use xtracepp.Base.{[], ◌∷◌, some}
use xtracepp.Protocol.{byte_type, long_type, resource_id, short_type, unused}
use xtracepp.Protocol.Requests.{Layout}

abbrev pub create_window : Layout
create_window = record {
  prefix = ("opcode", byte_type) ∷ ("depth", byte_type) ∷ [];
  encoding = some (
      ("wid", resource_id)
      ∷ ("parent", resource_id)
      ∷ ("x", short_type)
      ∷ ("y", short_type)
      ∷ ("width", short_type)
      ∷ ("height", short_type)
      ∷ ("border_width", short_type)
      ∷ ("class_", short_type)
      ∷ ("visual", resource_id)
      ∷ ("value_mask", long_type)
      ∷ []);
}

abbrev pub change_window_attributes : Layout
change_window_attributes = record {
  prefix = ("opcode", byte_type) ∷ ("unused", unused 1) ∷ [];
  encoding = some (("window", resource_id) ∷ ("value_mask", long_type) ∷ []);
}

abbrev pub simple_window_request : Layout
simple_window_request = record {
  prefix = ("opcode", byte_type) ∷ ("unused", unused 1) ∷ [];
  encoding = some (("window", resource_id) ∷ []);
}

abbrev pub change_save_set : Layout
change_save_set = record {
  prefix = ("opcode", byte_type) ∷ ("mode", byte_type) ∷ [];
  encoding = some (("window", resource_id) ∷ []);
}

abbrev pub reparent_window : Layout
reparent_window = record {
  prefix = ("opcode", byte_type) ∷ ("unused", unused 1) ∷ [];
  encoding = some (
      ("window", resource_id)
      ∷ ("parent", resource_id)
      ∷ ("x", short_type)
      ∷ ("y", short_type)
      ∷ []);
}

abbrev pub configure_window : Layout
configure_window = record {
  prefix = ("opcode", byte_type) ∷ ("unused", unused 1) ∷ [];
  encoding =
      some (("window", resource_id) ∷ ("value_mask", short_type) ∷ ("unused", unused 2) ∷ []);
}

abbrev pub circulate_window : Layout
circulate_window = record {
  prefix = ("opcode", byte_type) ∷ ("direction", byte_type) ∷ [];
  encoding = some (("window", resource_id) ∷ []);
}

abbrev pub get_geometry : Layout
get_geometry = record {
  prefix = ("opcode", byte_type) ∷ ("unused", unused 1) ∷ [];
  encoding = some (("drawable", resource_id) ∷ []);
}
