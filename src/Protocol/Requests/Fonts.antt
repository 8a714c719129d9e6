-- ===== src/Protocol/Requests/Fonts.antt =====
-- src/include/protocol/requests.hpp: requests on fonts (opcodes 45 to 52).
use xtracepp.Base.{[], ◌∷◌, some}
use xtracepp.Protocol.{byte_type, resource_id, short_type, unused}
use xtracepp.Protocol.Requests.{Layout}

abbrev pub open_font : Layout
open_font = record {
  prefix = ("opcode", byte_type) ∷ ("unused", unused 1) ∷ [];
  encoding = some (("fid", resource_id) ∷ ("name_len", short_type) ∷ ("unused", unused 2) ∷ []);
}

abbrev pub close_font : Layout
close_font = record {
  prefix = ("opcode", byte_type) ∷ ("unused", unused 1) ∷ [];
  encoding = some (("font", resource_id) ∷ []);
}

abbrev pub query_font : Layout
query_font = record {
  prefix = ("opcode", byte_type) ∷ ("unused", unused 1) ∷ [];
  encoding = some (("font", resource_id) ∷ []);
}

abbrev pub query_text_extents : Layout
query_text_extents = record {
  prefix = ("opcode", byte_type) ∷ ("odd_length", byte_type) ∷ [];
  encoding = some (("font", resource_id) ∷ []);
}

abbrev pub list_fonts_request : Layout
list_fonts_request = record {
  prefix = ("opcode", byte_type) ∷ ("unused", unused 1) ∷ [];
  encoding = some (("max_names", short_type) ∷ ("pattern_len", short_type) ∷ []);
}

abbrev pub set_font_path : Layout
set_font_path = record {
  prefix = ("opcode", byte_type) ∷ ("unused", unused 1) ∷ [];
  encoding = some (("path_ct", short_type) ∷ ("unused", unused 2) ∷ []);
}
