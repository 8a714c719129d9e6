-- ===== src/Protocol/Requests/Colors.antt =====
-- src/include/protocol/requests.hpp: requests on colormaps, colors and cursors (opcodes 78 to 97).
use xtracepp.Base.{[], ◌∷◌, some}
use xtracepp.Protocol.{byte_type, long_type, resource_id, short_type, unused}
use xtracepp.Protocol.Requests.{Layout}

abbrev pub create_colormap : Layout
create_colormap = record {
  prefix = ("opcode", byte_type) ∷ ("alloc", byte_type) ∷ [];
  encoding = some (("mid", resource_id) ∷ ("window", resource_id) ∷ ("visual", resource_id) ∷ []);
}

abbrev pub simple_cmap_request : Layout
simple_cmap_request = record {
  prefix = ("opcode", byte_type) ∷ ("unused", unused 1) ∷ [];
  encoding = some (("cmap", resource_id) ∷ []);
}

abbrev pub copy_colormap_and_free : Layout
copy_colormap_and_free = record {
  prefix = ("opcode", byte_type) ∷ ("unused", unused 1) ∷ [];
  encoding = some (("mid", resource_id) ∷ ("src_cmap", resource_id) ∷ []);
}

abbrev pub alloc_color : Layout
alloc_color = record {
  prefix = ("opcode", byte_type) ∷ ("unused", unused 1) ∷ [];
  encoding = some (
      ("cmap", resource_id)
      ∷ ("red", short_type)
      ∷ ("green", short_type)
      ∷ ("blue", short_type)
      ∷ ("unused", unused 2)
      ∷ []);
}

abbrev pub alloc_named_color : Layout
alloc_named_color = record {
  prefix = ("opcode", byte_type) ∷ ("unused", unused 1) ∷ [];
  encoding = some (("cmap", resource_id) ∷ ("name_len", short_type) ∷ ("unused", unused 2) ∷ []);
}

abbrev pub alloc_color_cells : Layout
alloc_color_cells = record {
  prefix = ("opcode", byte_type) ∷ ("contiguous", byte_type) ∷ [];
  encoding = some (("cmap", resource_id) ∷ ("colors", short_type) ∷ ("planes", short_type) ∷ []);
}

abbrev pub alloc_color_planes : Layout
alloc_color_planes = record {
  prefix = ("opcode", byte_type) ∷ ("contiguous", byte_type) ∷ [];
  encoding = some (
      ("cmap", resource_id)
      ∷ ("colors", short_type)
      ∷ ("reds", short_type)
      ∷ ("greens", short_type)
      ∷ ("blues", short_type)
      ∷ []);
}

abbrev pub free_colors : Layout
free_colors = record {
  prefix = ("opcode", byte_type) ∷ ("unused", unused 1) ∷ [];
  encoding = some (("cmap", resource_id) ∷ ("plane_mask", long_type) ∷ []);
}

abbrev pub store_colors : Layout
store_colors = record {
  prefix = ("opcode", byte_type) ∷ ("unused", unused 1) ∷ [];
  encoding = some (("cmap", resource_id) ∷ []);
}

abbrev pub store_named_color : Layout
store_named_color = record {
  prefix = ("opcode", byte_type) ∷ ("do_rgb_mask", byte_type) ∷ [];
  encoding = some (
      ("cmap", resource_id)
      ∷ ("pixel", long_type)
      ∷ ("name_len", short_type)
      ∷ ("unused", unused 2)
      ∷ []);
}

abbrev pub query_colors : Layout
query_colors = record {
  prefix = ("opcode", byte_type) ∷ ("unused", unused 1) ∷ [];
  encoding = some (("cmap", resource_id) ∷ []);
}

abbrev pub lookup_color : Layout
lookup_color = record {
  prefix = ("opcode", byte_type) ∷ ("unused", unused 1) ∷ [];
  encoding = some (("cmap", resource_id) ∷ ("name_len", short_type) ∷ ("unused", unused 2) ∷ []);
}

abbrev pub create_cursor : Layout
create_cursor = record {
  prefix = ("opcode", byte_type) ∷ ("unused", unused 1) ∷ [];
  encoding = some (
      ("cid", resource_id)
      ∷ ("source", resource_id)
      ∷ ("mask", resource_id)
      ∷ ("fore_red", short_type)
      ∷ ("fore_green", short_type)
      ∷ ("fore_blue", short_type)
      ∷ ("back_red", short_type)
      ∷ ("back_green", short_type)
      ∷ ("back_blue", short_type)
      ∷ ("x", short_type)
      ∷ ("y", short_type)
      ∷ []);
}

abbrev pub create_glyph_cursor : Layout
create_glyph_cursor = record {
  prefix = ("opcode", byte_type) ∷ ("unused", unused 1) ∷ [];
  encoding = some (
      ("cid", resource_id)
      ∷ ("source_font", resource_id)
      ∷ ("mask_font", resource_id)
      ∷ ("source_char", short_type)
      ∷ ("mask_char", short_type)
      ∷ ("fore_red", short_type)
      ∷ ("fore_green", short_type)
      ∷ ("fore_blue", short_type)
      ∷ ("back_red", short_type)
      ∷ ("back_green", short_type)
      ∷ ("back_blue", short_type)
      ∷ []);
}

abbrev pub free_cursor : Layout
free_cursor = record {
  prefix = ("opcode", byte_type) ∷ ("unused", unused 1) ∷ [];
  encoding = some (("cursor", resource_id) ∷ []);
}

abbrev pub recolor_cursor : Layout
recolor_cursor = record {
  prefix = ("opcode", byte_type) ∷ ("unused", unused 1) ∷ [];
  encoding = some (
      ("cursor", resource_id)
      ∷ ("fore_red", short_type)
      ∷ ("fore_green", short_type)
      ∷ ("fore_blue", short_type)
      ∷ ("back_red", short_type)
      ∷ ("back_green", short_type)
      ∷ ("back_blue", short_type)
      ∷ []);
}

abbrev pub query_best_size : Layout
query_best_size = record {
  prefix = ("opcode", byte_type) ∷ ("class_", byte_type) ∷ [];
  encoding = some (("drawable", resource_id) ∷ ("width", short_type) ∷ ("height", short_type) ∷ []);
}
