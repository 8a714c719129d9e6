-- ===== src/Protocol/Events/Windows.antt =====
-- src/include/protocol/events.hpp: the structs of the events on windows.
use xtracepp.Base.{[], ◌∷◌}
use xtracepp.Protocol.{Struct, byte_type, short_type, unused, resource_id}

abbrev pub expose_event : Struct
expose_event =
    ("header.code", byte_type)
    ∷ ("unused", unused 1)
    ∷ ("header.sequence_num", short_type)
    ∷ ("window", resource_id)
    ∷ ("x", short_type)
    ∷ ("y", short_type)
    ∷ ("width", short_type)
    ∷ ("height", short_type)
    ∷ ("count", short_type)
    ∷ ("unused", unused 14)
    ∷ []

abbrev pub graphics_exposure_event : Struct
graphics_exposure_event =
    ("header.code", byte_type)
    ∷ ("unused", unused 1)
    ∷ ("header.sequence_num", short_type)
    ∷ ("drawable", resource_id)
    ∷ ("x", short_type)
    ∷ ("y", short_type)
    ∷ ("width", short_type)
    ∷ ("height", short_type)
    ∷ ("minor_opcode", short_type)
    ∷ ("count", short_type)
    ∷ ("major_opcode", byte_type)
    ∷ ("unused", unused 11)
    ∷ []

abbrev pub no_exposure_event : Struct
no_exposure_event =
    ("header.code", byte_type)
    ∷ ("unused", unused 1)
    ∷ ("header.sequence_num", short_type)
    ∷ ("drawable", resource_id)
    ∷ ("minor_opcode", short_type)
    ∷ ("major_opcode", byte_type)
    ∷ ("unused", unused 21)
    ∷ []

abbrev pub visibility_notify_event : Struct
visibility_notify_event =
    ("header.code", byte_type)
    ∷ ("unused", unused 1)
    ∷ ("header.sequence_num", short_type)
    ∷ ("window", resource_id)
    ∷ ("state", byte_type)
    ∷ ("unused", unused 23)
    ∷ []

abbrev pub create_notify_event : Struct
create_notify_event =
    ("header.code", byte_type)
    ∷ ("unused", unused 1)
    ∷ ("header.sequence_num", short_type)
    ∷ ("parent", resource_id)
    ∷ ("window", resource_id)
    ∷ ("x", short_type)
    ∷ ("y", short_type)
    ∷ ("width", short_type)
    ∷ ("height", short_type)
    ∷ ("border_width", short_type)
    ∷ ("override_redirect", byte_type)
    ∷ ("unused", unused 9)
    ∷ []

abbrev pub destroy_notify_event : Struct
destroy_notify_event =
    ("header.code", byte_type)
    ∷ ("unused", unused 1)
    ∷ ("header.sequence_num", short_type)
    ∷ ("event", resource_id)
    ∷ ("window", resource_id)
    ∷ ("unused", unused 20)
    ∷ []

abbrev pub unmap_notify_event : Struct
unmap_notify_event =
    ("header.code", byte_type)
    ∷ ("unused", unused 1)
    ∷ ("header.sequence_num", short_type)
    ∷ ("event", resource_id)
    ∷ ("window", resource_id)
    ∷ ("from_configure", byte_type)
    ∷ ("unused", unused 19)
    ∷ []

abbrev pub map_notify_event : Struct
map_notify_event =
    ("header.code", byte_type)
    ∷ ("unused", unused 1)
    ∷ ("header.sequence_num", short_type)
    ∷ ("event", resource_id)
    ∷ ("window", resource_id)
    ∷ ("override_redirect", byte_type)
    ∷ ("unused", unused 19)
    ∷ []

abbrev pub map_request_event : Struct
map_request_event =
    ("header.code", byte_type)
    ∷ ("unused", unused 1)
    ∷ ("header.sequence_num", short_type)
    ∷ ("parent", resource_id)
    ∷ ("window", resource_id)
    ∷ ("unused", unused 20)
    ∷ []

abbrev pub reparent_notify_event : Struct
reparent_notify_event =
    ("header.code", byte_type)
    ∷ ("unused", unused 1)
    ∷ ("header.sequence_num", short_type)
    ∷ ("event", resource_id)
    ∷ ("window", resource_id)
    ∷ ("parent", resource_id)
    ∷ ("x", short_type)
    ∷ ("y", short_type)
    ∷ ("override_redirect", byte_type)
    ∷ ("unused", unused 11)
    ∷ []

abbrev pub configure_notify_event : Struct
configure_notify_event =
    ("header.code", byte_type)
    ∷ ("unused", unused 1)
    ∷ ("header.sequence_num", short_type)
    ∷ ("event", resource_id)
    ∷ ("window", resource_id)
    ∷ ("above_sibling", resource_id)
    ∷ ("x", short_type)
    ∷ ("y", short_type)
    ∷ ("width", short_type)
    ∷ ("height", short_type)
    ∷ ("border_width", short_type)
    ∷ ("override_redirect", byte_type)
    ∷ ("unused", unused 5)
    ∷ []

abbrev pub configure_request_event : Struct
configure_request_event =
    ("header.code", byte_type)
    ∷ ("header.stack_mode", byte_type)
    ∷ ("header.sequence_num", short_type)
    ∷ ("parent", resource_id)
    ∷ ("window", resource_id)
    ∷ ("sibling", resource_id)
    ∷ ("x", short_type)
    ∷ ("y", short_type)
    ∷ ("width", short_type)
    ∷ ("height", short_type)
    ∷ ("border_width", short_type)
    ∷ ("value_mask", short_type)
    ∷ ("unused", unused 4)
    ∷ []

abbrev pub gravity_notify_event : Struct
gravity_notify_event =
    ("header.code", byte_type)
    ∷ ("unused", unused 1)
    ∷ ("header.sequence_num", short_type)
    ∷ ("event", resource_id)
    ∷ ("window", resource_id)
    ∷ ("x", short_type)
    ∷ ("y", short_type)
    ∷ ("unused", unused 16)
    ∷ []

abbrev pub resize_request_event : Struct
resize_request_event =
    ("header.code", byte_type)
    ∷ ("unused", unused 1)
    ∷ ("header.sequence_num", short_type)
    ∷ ("window", resource_id)
    ∷ ("width", short_type)
    ∷ ("height", short_type)
    ∷ ("unused", unused 20)
    ∷ []

abbrev pub circulate_notify_event : Struct
circulate_notify_event =
    ("header.code", byte_type)
    ∷ ("unused", unused 1)
    ∷ ("header.sequence_num", short_type)
    ∷ ("event", resource_id)
    ∷ ("window", resource_id)
    ∷ ("unused", unused 4)
    ∷ ("place", byte_type)
    ∷ ("unused", unused 15)
    ∷ []

abbrev pub circulate_request_event : Struct
circulate_request_event =
    ("header.code", byte_type)
    ∷ ("unused", unused 1)
    ∷ ("header.sequence_num", short_type)
    ∷ ("parent", resource_id)
    ∷ ("window", resource_id)
    ∷ ("unused", unused 4)
    ∷ ("place", byte_type)
    ∷ ("unused", unused 15)
    ∷ []
