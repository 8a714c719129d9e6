-- ===== src/Protocol/Requests/Contexts.antt =====
-- src/include/protocol/requests.hpp: requests on pixmaps, graphics contexts and areas (opcodes 53 to 63).
use xtracepp.Base.{[], ◌∷◌, some}
use xtracepp.Protocol.{byte_type, long_type, resource_id, short_type, unused}
use xtracepp.Protocol.Requests.{Layout}

abbrev pub create_pixmap : Layout
create_pixmap = record {
  prefix = ("opcode", byte_type) ∷ ("depth", byte_type) ∷ [];
  encoding = some (
      ("pid", resource_id)
      ∷ ("drawable", resource_id)
      ∷ ("width", short_type)
      ∷ ("height", short_type)
      ∷ []);
}

abbrev pub free_pixmap : Layout
free_pixmap = record {
  prefix = ("opcode", byte_type) ∷ ("unused", unused 1) ∷ [];
  encoding = some (("pixmap", resource_id) ∷ []);
}

abbrev pub create_gc : Layout
create_gc = record {
  prefix = ("opcode", byte_type) ∷ ("unused", unused 1) ∷ [];
  encoding =
      some (("cid", resource_id) ∷ ("drawable", resource_id) ∷ ("value_mask", long_type) ∷ []);
}

abbrev pub change_gc : Layout
change_gc = record {
  prefix = ("opcode", byte_type) ∷ ("unused", unused 1) ∷ [];
  encoding = some (("gc", resource_id) ∷ ("value_mask", long_type) ∷ []);
}

abbrev pub copy_gc : Layout
copy_gc = record {
  prefix = ("opcode", byte_type) ∷ ("unused", unused 1) ∷ [];
  encoding =
      some (("src_gc", resource_id) ∷ ("dst_gc", resource_id) ∷ ("value_mask", long_type) ∷ []);
}

abbrev pub set_dashes : Layout
set_dashes = record {
  prefix = ("opcode", byte_type) ∷ ("unused", unused 1) ∷ [];
  encoding =
      some (("gc", resource_id) ∷ ("dash_offset", short_type) ∷ ("dashes_len", short_type) ∷ []);
}

abbrev pub set_clip_rectangles : Layout
set_clip_rectangles = record {
  prefix = ("opcode", byte_type) ∷ ("ordering", byte_type) ∷ [];
  encoding =
      some
        (("gc", resource_id) ∷ ("clip_x_origin", short_type) ∷ ("clip_y_origin", short_type) ∷ []);
}

abbrev pub free_gc : Layout
free_gc = record {
  prefix = ("opcode", byte_type) ∷ ("unused", unused 1) ∷ [];
  encoding = some (("gc", resource_id) ∷ []);
}

abbrev pub clear_area : Layout
clear_area = record {
  prefix = ("opcode", byte_type) ∷ ("exposures", byte_type) ∷ [];
  encoding = some (
      ("window", resource_id)
      ∷ ("x", short_type)
      ∷ ("y", short_type)
      ∷ ("width", short_type)
      ∷ ("height", short_type)
      ∷ []);
}

abbrev pub copy_area : Layout
copy_area = record {
  prefix = ("opcode", byte_type) ∷ ("unused", unused 1) ∷ [];
  encoding = some (
      ("src_drawable", resource_id)
      ∷ ("dst_drawable", resource_id)
      ∷ ("gc", resource_id)
      ∷ ("src_x", short_type)
      ∷ ("src_y", short_type)
      ∷ ("dst_x", short_type)
      ∷ ("dst_y", short_type)
      ∷ ("width", short_type)
      ∷ ("height", short_type)
      ∷ []);
}

abbrev pub copy_plane : Layout
copy_plane = record {
  prefix = ("opcode", byte_type) ∷ ("unused", unused 1) ∷ [];
  encoding = some (
      ("src_drawable", resource_id)
      ∷ ("dst_drawable", resource_id)
      ∷ ("gc", resource_id)
      ∷ ("src_x", short_type)
      ∷ ("src_y", short_type)
      ∷ ("dst_x", short_type)
      ∷ ("dst_y", short_type)
      ∷ ("width", short_type)
      ∷ ("height", short_type)
      ∷ ("bit_plane", long_type)
      ∷ []);
}
