-- ===== src/Protocol/Requests/Properties.antt =====
-- src/include/protocol/requests.hpp: requests on atoms, properties and selections (opcodes 16 to 25).
use xtracepp.Base.{[], ◌∷◌, some}
use xtracepp.Protocol.{byte_type, long_type, resource_id, setofevent, short_type, unused}
use xtracepp.Protocol.Requests.{Layout}

abbrev pub intern_atom : Layout
intern_atom = record {
  prefix = ("opcode", byte_type) ∷ ("only_if_exists", byte_type) ∷ [];
  encoding = some (("name_len", short_type) ∷ ("unused", unused 2) ∷ []);
}

abbrev pub get_atom_name : Layout
get_atom_name = record {
  prefix = ("opcode", byte_type) ∷ ("unused", unused 1) ∷ [];
  encoding = some (("atom", resource_id) ∷ []);
}

abbrev pub change_property : Layout
change_property = record {
  prefix = ("opcode", byte_type) ∷ ("mode", byte_type) ∷ [];
  encoding = some (
      ("window", resource_id)
      ∷ ("property", resource_id)
      ∷ ("type", resource_id)
      ∷ ("format", byte_type)
      ∷ ("unused", unused 3)
      ∷ ("data_fmt_unit_len", long_type)
      ∷ []);
}

abbrev pub delete_property : Layout
delete_property = record {
  prefix = ("opcode", byte_type) ∷ ("unused", unused 1) ∷ [];
  encoding = some (("window", resource_id) ∷ ("property", resource_id) ∷ []);
}

abbrev pub get_property : Layout
get_property = record {
  prefix = ("opcode", byte_type) ∷ ("delete_", byte_type) ∷ [];
  encoding = some (
      ("window", resource_id)
      ∷ ("property", resource_id)
      ∷ ("type", resource_id)
      ∷ ("long_offset", long_type)
      ∷ ("long_length", long_type)
      ∷ []);
}

abbrev pub set_selection_owner : Layout
set_selection_owner = record {
  prefix = ("opcode", byte_type) ∷ ("unused", unused 1) ∷ [];
  encoding = some (("owner", resource_id) ∷ ("selection", resource_id) ∷ ("time", long_type) ∷ []);
}

abbrev pub get_selection_owner : Layout
get_selection_owner = record {
  prefix = ("opcode", byte_type) ∷ ("unused", unused 1) ∷ [];
  encoding = some (("selection", resource_id) ∷ []);
}

abbrev pub convert_selection : Layout
convert_selection = record {
  prefix = ("opcode", byte_type) ∷ ("unused", unused 1) ∷ [];
  encoding = some (
      ("requestor", resource_id)
      ∷ ("selection", resource_id)
      ∷ ("target", resource_id)
      ∷ ("property", resource_id)
      ∷ ("time", long_type)
      ∷ []);
}

abbrev pub send_event : Layout
send_event = record {
  prefix = ("opcode", byte_type) ∷ ("propagate", byte_type) ∷ [];
  encoding = some (("destination", resource_id) ∷ ("event_mask", setofevent) ∷ []);
}
