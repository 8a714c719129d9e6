-- ===== src/Protocol/Replies/Control.antt =====
-- src/include/protocol/requests.hpp: replies on extensions, the keyboard, the pointer and the server.
use xtracepp.Base.{[], ◌∷◌}
use xtracepp.Protocol.{Struct, byte_type, long_type, short_type, unused}

abbrev pub query_extension_reply : Struct
query_extension_reply =
    ("header.reply", byte_type)
    ∷ ("unused", unused 1)
    ∷ ("header.sequence_num", short_type)
    ∷ ("header.extra_aligned_units", long_type)
    ∷ ("present", byte_type)
    ∷ ("major_opcode", byte_type)
    ∷ ("first_event", byte_type)
    ∷ ("first_error", byte_type)
    ∷ ("unused", unused 20)
    ∷ []

abbrev pub list_extensions_reply : Struct
list_extensions_reply =
    ("header.reply", byte_type)
    ∷ ("header.names_ct", byte_type)
    ∷ ("header.sequence_num", short_type)
    ∷ ("header.extra_aligned_units", long_type)
    ∷ ("unused", unused 24)
    ∷ []

abbrev pub get_keyboard_mapping_reply : Struct
get_keyboard_mapping_reply =
    ("header.reply", byte_type)
    ∷ ("header.keysyms_per_keycode", byte_type)
    ∷ ("header.sequence_num", short_type)
    ∷ ("header.extra_aligned_units", long_type)
    ∷ ("unused", unused 24)
    ∷ []

abbrev pub get_keyboard_control_reply : Struct
get_keyboard_control_reply =
    ("header.reply", byte_type)
    ∷ ("header.global_auto_repeat", byte_type)
    ∷ ("header.sequence_num", short_type)
    ∷ ("header.extra_aligned_units", long_type)
    ∷ ("led_mask", long_type)
    ∷ ("key_click_percent", byte_type)
    ∷ ("bell_percent", byte_type)
    ∷ ("bell_pitch", short_type)
    ∷ ("bell_duration", short_type)
    ∷ ("unused", unused 2)
    ∷ ("auto_repeats", unused 32)
    ∷ []

abbrev pub get_pointer_control_reply : Struct
get_pointer_control_reply =
    ("header.reply", byte_type)
    ∷ ("unused", unused 1)
    ∷ ("header.sequence_num", short_type)
    ∷ ("header.extra_aligned_units", long_type)
    ∷ ("acceleration_numerator", short_type)
    ∷ ("acceleration_denominator", short_type)
    ∷ ("threshold", short_type)
    ∷ ("unused", unused 18)
    ∷ []

abbrev pub get_screen_saver_reply : Struct
get_screen_saver_reply =
    ("header.reply", byte_type)
    ∷ ("unused", unused 1)
    ∷ ("header.sequence_num", short_type)
    ∷ ("header.extra_aligned_units", long_type)
    ∷ ("timeout", short_type)
    ∷ ("interval", short_type)
    ∷ ("prefer_blanking", byte_type)
    ∷ ("allow_exposures", byte_type)
    ∷ ("unused", unused 18)
    ∷ []

abbrev pub list_hosts_reply : Struct
list_hosts_reply =
    ("header.reply", byte_type)
    ∷ ("header.mode", byte_type)
    ∷ ("header.sequence_num", short_type)
    ∷ ("header.extra_aligned_units", long_type)
    ∷ ("hosts_ct", short_type)
    ∷ ("unused", unused 22)
    ∷ []

abbrev pub set_pointer_mapping_reply : Struct
set_pointer_mapping_reply =
    ("header.reply", byte_type)
    ∷ ("header.status", byte_type)
    ∷ ("header.sequence_num", short_type)
    ∷ ("header.extra_aligned_units", long_type)
    ∷ ("unused", unused 24)
    ∷ []

abbrev pub get_pointer_mapping_reply : Struct
get_pointer_mapping_reply =
    ("header.reply", byte_type)
    ∷ ("header.map_len", byte_type)
    ∷ ("header.sequence_num", short_type)
    ∷ ("header.extra_aligned_units", long_type)
    ∷ ("unused", unused 24)
    ∷ []

abbrev pub set_modifier_mapping_reply : Struct
set_modifier_mapping_reply =
    ("header.reply", byte_type)
    ∷ ("header.status", byte_type)
    ∷ ("header.sequence_num", short_type)
    ∷ ("header.extra_aligned_units", long_type)
    ∷ ("unused", unused 24)
    ∷ []

abbrev pub get_modifier_mapping_reply : Struct
get_modifier_mapping_reply =
    ("header.reply", byte_type)
    ∷ ("header.keycodes_per_modifier", byte_type)
    ∷ ("header.sequence_num", short_type)
    ∷ ("header.extra_aligned_units", long_type)
    ∷ ("unused", unused 24)
    ∷ []
