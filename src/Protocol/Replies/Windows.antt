-- ===== src/Protocol/Replies/Windows.antt =====
-- src/include/protocol/requests.hpp: replies on windows, atoms, properties and selections.
use xtracepp.Base.{[], ◌∷◌}
use xtracepp.Protocol.{
  Struct, byte_type, long_type, resource_id, setofdeviceevent, setofevent, short_type, unused,
}

abbrev pub get_window_attributes_reply : Struct
get_window_attributes_reply =
    ("header.reply", byte_type)
    ∷ ("header.backing_store", byte_type)
    ∷ ("header.sequence_num", short_type)
    ∷ ("header.extra_aligned_units", long_type)
    ∷ ("visual", resource_id)
    ∷ ("class_", short_type)
    ∷ ("bit_gravity", byte_type)
    ∷ ("win_gravity", byte_type)
    ∷ ("backing_planes", long_type)
    ∷ ("backing_pixel", long_type)
    ∷ ("save_under", byte_type)
    ∷ ("map_is_installed", byte_type)
    ∷ ("map_state", byte_type)
    ∷ ("override_redirect", byte_type)
    ∷ ("colormap", resource_id)
    ∷ ("all_event_masks", setofevent)
    ∷ ("your_event_mask", setofevent)
    ∷ ("do_not_propagate_mask", setofdeviceevent)
    ∷ ("unused", unused 2)
    ∷ []

abbrev pub get_geometry_reply : Struct
get_geometry_reply =
    ("header.reply", byte_type)
    ∷ ("header.depth", byte_type)
    ∷ ("header.sequence_num", short_type)
    ∷ ("header.extra_aligned_units", long_type)
    ∷ ("root", resource_id)
    ∷ ("x", short_type)
    ∷ ("y", short_type)
    ∷ ("width", short_type)
    ∷ ("height", short_type)
    ∷ ("border_width", short_type)
    ∷ ("unused", unused 10)
    ∷ []

abbrev pub query_tree_reply : Struct
query_tree_reply =
    ("header.reply", byte_type)
    ∷ ("unused", unused 1)
    ∷ ("header.sequence_num", short_type)
    ∷ ("header.extra_aligned_units", long_type)
    ∷ ("root", resource_id)
    ∷ ("parent", resource_id)
    ∷ ("children_ct", short_type)
    ∷ ("unused", unused 14)
    ∷ []

abbrev pub intern_atom_reply : Struct
intern_atom_reply =
    ("header.reply", byte_type)
    ∷ ("unused", unused 1)
    ∷ ("header.sequence_num", short_type)
    ∷ ("header.extra_aligned_units", long_type)
    ∷ ("atom", resource_id)
    ∷ ("unused", unused 20)
    ∷ []

abbrev pub get_atom_name_reply : Struct
get_atom_name_reply =
    ("header.reply", byte_type)
    ∷ ("unused", unused 1)
    ∷ ("header.sequence_num", short_type)
    ∷ ("header.extra_aligned_units", long_type)
    ∷ ("name_len", short_type)
    ∷ ("unused", unused 22)
    ∷ []

abbrev pub get_property_reply : Struct
get_property_reply =
    ("header.reply", byte_type)
    ∷ ("header.format", byte_type)
    ∷ ("header.sequence_num", short_type)
    ∷ ("header.extra_aligned_units", long_type)
    ∷ ("type", resource_id)
    ∷ ("bytes_after", long_type)
    ∷ ("value_fmt_unit_len", long_type)
    ∷ ("unused", unused 12)
    ∷ []

abbrev pub list_properties_reply : Struct
list_properties_reply =
    ("header.reply", byte_type)
    ∷ ("unused", unused 1)
    ∷ ("header.sequence_num", short_type)
    ∷ ("header.extra_aligned_units", long_type)
    ∷ ("atoms_ct", short_type)
    ∷ ("unused", unused 22)
    ∷ []

abbrev pub get_selection_owner_reply : Struct
get_selection_owner_reply =
    ("header.reply", byte_type)
    ∷ ("unused", unused 1)
    ∷ ("header.sequence_num", short_type)
    ∷ ("header.extra_aligned_units", long_type)
    ∷ ("owner", resource_id)
    ∷ ("unused", unused 20)
    ∷ []
