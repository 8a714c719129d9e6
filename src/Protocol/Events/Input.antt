-- ===== src/Protocol/Events/Input.antt =====
-- src/include/protocol/events.hpp: the structs of the events on input, pointer borders and the focus.
use xtracepp.Base.{[], ◌∷◌}
use xtracepp.Protocol.{
  Struct, byte_type, short_type, long_type, unused, resource_id, setofkeybutmask,
}

abbrev pub input_event : Struct
input_event =
    ("header.code", byte_type)
    ∷ ("header.detail", byte_type)
    ∷ ("header.sequence_num", short_type)
    ∷ ("time", long_type)
    ∷ ("root", resource_id)
    ∷ ("event", resource_id)
    ∷ ("child", resource_id)
    ∷ ("root_x", short_type)
    ∷ ("root_y", short_type)
    ∷ ("event_x", short_type)
    ∷ ("event_y", short_type)
    ∷ ("state", setofkeybutmask)
    ∷ ("same_screen", byte_type)
    ∷ ("unused", unused 1)
    ∷ []

abbrev pub motion_notify_event : Struct
motion_notify_event =
    ("header.code", byte_type)
    ∷ ("header.detail", byte_type)
    ∷ ("header.sequence_num", short_type)
    ∷ ("time", long_type)
    ∷ ("root", resource_id)
    ∷ ("event", resource_id)
    ∷ ("child", resource_id)
    ∷ ("root_x", short_type)
    ∷ ("root_y", short_type)
    ∷ ("event_x", short_type)
    ∷ ("event_y", short_type)
    ∷ ("state", setofkeybutmask)
    ∷ ("same_screen", byte_type)
    ∷ ("unused", unused 1)
    ∷ []

abbrev pub boundary_event : Struct
boundary_event =
    ("header.code", byte_type)
    ∷ ("header.detail", byte_type)
    ∷ ("header.sequence_num", short_type)
    ∷ ("time", long_type)
    ∷ ("root", resource_id)
    ∷ ("event", resource_id)
    ∷ ("child", resource_id)
    ∷ ("root_x", short_type)
    ∷ ("root_y", short_type)
    ∷ ("event_x", short_type)
    ∷ ("event_y", short_type)
    ∷ ("state", setofkeybutmask)
    ∷ ("mode", byte_type)
    ∷ ("focus_same_screen_mask", byte_type)
    ∷ []

abbrev pub focus_event : Struct
focus_event =
    ("header.code", byte_type)
    ∷ ("header.detail", byte_type)
    ∷ ("header.sequence_num", short_type)
    ∷ ("event", resource_id)
    ∷ ("mode", byte_type)
    ∷ ("unused", unused 23)
    ∷ []

abbrev pub keymap_notify_event : Struct
keymap_notify_event = ("header.code", byte_type) ∷ ("keys", unused 31) ∷ []
