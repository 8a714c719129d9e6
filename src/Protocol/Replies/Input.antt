-- ===== src/Protocol/Replies/Input.antt =====
-- src/include/protocol/requests.hpp: replies on grabs, the pointer and the input focus.
use xtracepp.Base.{[], ◌∷◌}
use xtracepp.Protocol.{
  Struct, byte_type, long_type, resource_id, setofkeybutmask, short_type, unused,
}

abbrev pub grab_pointer_reply : Struct
grab_pointer_reply =
    ("header.reply", byte_type)
    ∷ ("header.status", byte_type)
    ∷ ("header.sequence_num", short_type)
    ∷ ("header.extra_aligned_units", long_type)
    ∷ ("unused", unused 24)
    ∷ []

abbrev pub grab_keyboard_reply : Struct
grab_keyboard_reply =
    ("header.reply", byte_type)
    ∷ ("header.status", byte_type)
    ∷ ("header.sequence_num", short_type)
    ∷ ("header.extra_aligned_units", long_type)
    ∷ ("unused", unused 24)
    ∷ []

abbrev pub query_pointer_reply : Struct
query_pointer_reply =
    ("header.reply", byte_type)
    ∷ ("header.same_screen", byte_type)
    ∷ ("header.sequence_num", short_type)
    ∷ ("header.extra_aligned_units", long_type)
    ∷ ("root", resource_id)
    ∷ ("child", resource_id)
    ∷ ("root_x", short_type)
    ∷ ("root_y", short_type)
    ∷ ("win_x", short_type)
    ∷ ("win_y", short_type)
    ∷ ("mask", setofkeybutmask)
    ∷ ("unused", unused 6)
    ∷ []

abbrev pub get_motion_events_reply : Struct
get_motion_events_reply =
    ("header.reply", byte_type)
    ∷ ("unused", unused 1)
    ∷ ("header.sequence_num", short_type)
    ∷ ("header.extra_aligned_units", long_type)
    ∷ ("events_ct", long_type)
    ∷ ("unused", unused 20)
    ∷ []

abbrev pub translate_coordinates_reply : Struct
translate_coordinates_reply =
    ("header.reply", byte_type)
    ∷ ("header.same_screen", byte_type)
    ∷ ("header.sequence_num", short_type)
    ∷ ("header.extra_aligned_units", long_type)
    ∷ ("child", resource_id)
    ∷ ("dst_x", short_type)
    ∷ ("dst_y", short_type)
    ∷ ("unused", unused 16)
    ∷ []

abbrev pub get_input_focus_reply : Struct
get_input_focus_reply =
    ("header.reply", byte_type)
    ∷ ("header.revert_to", byte_type)
    ∷ ("header.sequence_num", short_type)
    ∷ ("header.extra_aligned_units", long_type)
    ∷ ("focus", resource_id)
    ∷ ("unused", unused 20)
    ∷ []

abbrev pub query_keymap_reply : Struct
query_keymap_reply =
    ("header.reply", byte_type)
    ∷ ("unused", unused 1)
    ∷ ("header.sequence_num", short_type)
    ∷ ("header.extra_aligned_units", long_type)
    ∷ ("keys", unused 32)
    ∷ []
