-- ===== src/Protocol/Requests/Drawing.antt =====
-- src/include/protocol/requests.hpp: requests on drawing, images and text (opcodes 64 to 77).
use xtracepp.Base.{[], ◌∷◌, some}
use xtracepp.Protocol.{byte_type, long_type, resource_id, short_type, unused}
use xtracepp.Protocol.Requests.{Layout}

abbrev pub poly_point_request : Layout
poly_point_request = record {
  prefix = ("opcode", byte_type) ∷ ("coordinate_mode", byte_type) ∷ [];
  encoding = some (("drawable", resource_id) ∷ ("gc", resource_id) ∷ []);
}

abbrev pub poly_segment : Layout
poly_segment = record {
  prefix = ("opcode", byte_type) ∷ ("unused", unused 1) ∷ [];
  encoding = some (("drawable", resource_id) ∷ ("gc", resource_id) ∷ []);
}

abbrev pub poly_rectangle : Layout
poly_rectangle = record {
  prefix = ("opcode", byte_type) ∷ ("unused", unused 1) ∷ [];
  encoding = some (("drawable", resource_id) ∷ ("gc", resource_id) ∷ []);
}

abbrev pub poly_arc : Layout
poly_arc = record {
  prefix = ("opcode", byte_type) ∷ ("unused", unused 1) ∷ [];
  encoding = some (("drawable", resource_id) ∷ ("gc", resource_id) ∷ []);
}

abbrev pub fill_poly : Layout
fill_poly = record {
  prefix = ("opcode", byte_type) ∷ ("unused", unused 1) ∷ [];
  encoding = some (
      ("drawable", resource_id)
      ∷ ("gc", resource_id)
      ∷ ("shape", byte_type)
      ∷ ("coordinate_mode", byte_type)
      ∷ ("unused", unused 2)
      ∷ []);
}

abbrev pub poly_fill_rectangle : Layout
poly_fill_rectangle = record {
  prefix = ("opcode", byte_type) ∷ ("unused", unused 1) ∷ [];
  encoding = some (("drawable", resource_id) ∷ ("gc", resource_id) ∷ []);
}

abbrev pub poly_fill_arc : Layout
poly_fill_arc = record {
  prefix = ("opcode", byte_type) ∷ ("unused", unused 1) ∷ [];
  encoding = some (("drawable", resource_id) ∷ ("gc", resource_id) ∷ []);
}

abbrev pub put_image : Layout
put_image = record {
  prefix = ("opcode", byte_type) ∷ ("format", byte_type) ∷ [];
  encoding = some (
      ("drawable", resource_id)
      ∷ ("gc", resource_id)
      ∷ ("width", short_type)
      ∷ ("height", short_type)
      ∷ ("dst_x", short_type)
      ∷ ("dst_y", short_type)
      ∷ ("left_pad", byte_type)
      ∷ ("depth", byte_type)
      ∷ ("unused", unused 2)
      ∷ []);
}

abbrev pub get_image : Layout
get_image = record {
  prefix = ("opcode", byte_type) ∷ ("format", byte_type) ∷ [];
  encoding = some (
      ("drawable", resource_id)
      ∷ ("x", short_type)
      ∷ ("y", short_type)
      ∷ ("width", short_type)
      ∷ ("height", short_type)
      ∷ ("plane_mask", long_type)
      ∷ []);
}

abbrev pub poly_text_request : Layout
poly_text_request = record {
  prefix = ("opcode", byte_type) ∷ ("unused", unused 1) ∷ [];
  encoding = some (
      ("drawable", resource_id) ∷ ("gc", resource_id) ∷ ("x", short_type) ∷ ("y", short_type) ∷ []);
}

abbrev pub poly_text8 : Layout
poly_text8 = record {
  prefix = ("opcode", byte_type) ∷ ("unused", unused 1) ∷ [];
  encoding = some (
      ("drawable", resource_id) ∷ ("gc", resource_id) ∷ ("x", short_type) ∷ ("y", short_type) ∷ []);
}

abbrev pub poly_text16 : Layout
poly_text16 = record {
  prefix = ("opcode", byte_type) ∷ ("unused", unused 1) ∷ [];
  encoding = some (
      ("drawable", resource_id) ∷ ("gc", resource_id) ∷ ("x", short_type) ∷ ("y", short_type) ∷ []);
}

abbrev pub image_text8 : Layout
image_text8 = record {
  prefix = ("opcode", byte_type) ∷ ("string_len", byte_type) ∷ [];
  encoding = some (
      ("drawable", resource_id) ∷ ("gc", resource_id) ∷ ("x", short_type) ∷ ("y", short_type) ∷ []);
}

abbrev pub image_text16 : Layout
image_text16 = record {
  prefix = ("opcode", byte_type) ∷ ("string_2B_len", byte_type) ∷ [];
  encoding = some (
      ("drawable", resource_id) ∷ ("gc", resource_id) ∷ ("x", short_type) ∷ ("y", short_type) ∷ []);
}
