-- ===== src/Protocol/Events/Clients.antt =====
-- src/include/protocol/events.hpp: the structs of the events on properties, selections and clients.
use xtracepp.Base.{[], ◌∷◌}
use xtracepp.Protocol.{Struct, byte_type, short_type, long_type, unused, resource_id}

abbrev pub property_notify_event : Struct
property_notify_event =
    ("header.code", byte_type)
    ∷ ("unused", unused 1)
    ∷ ("header.sequence_num", short_type)
    ∷ ("window", resource_id)
    ∷ ("atom", resource_id)
    ∷ ("time", long_type)
    ∷ ("state", byte_type)
    ∷ ("unused", unused 15)
    ∷ []

abbrev pub selection_clear_event : Struct
selection_clear_event =
    ("header.code", byte_type)
    ∷ ("unused", unused 1)
    ∷ ("header.sequence_num", short_type)
    ∷ ("time", long_type)
    ∷ ("owner", resource_id)
    ∷ ("selection", resource_id)
    ∷ ("unused", unused 16)
    ∷ []

abbrev pub selection_request_event : Struct
selection_request_event =
    ("header.code", byte_type)
    ∷ ("unused", unused 1)
    ∷ ("header.sequence_num", short_type)
    ∷ ("time", long_type)
    ∷ ("owner", resource_id)
    ∷ ("requestor", resource_id)
    ∷ ("selection", resource_id)
    ∷ ("target", resource_id)
    ∷ ("property", resource_id)
    ∷ ("unused", unused 4)
    ∷ []

abbrev pub selection_notify_event : Struct
selection_notify_event =
    ("header.code", byte_type)
    ∷ ("unused", unused 1)
    ∷ ("header.sequence_num", short_type)
    ∷ ("time", long_type)
    ∷ ("requestor", resource_id)
    ∷ ("selection", resource_id)
    ∷ ("target", resource_id)
    ∷ ("property", resource_id)
    ∷ ("unused", unused 8)
    ∷ []

abbrev pub colormap_notify_event : Struct
colormap_notify_event =
    ("header.code", byte_type)
    ∷ ("unused", unused 1)
    ∷ ("header.sequence_num", short_type)
    ∷ ("window", resource_id)
    ∷ ("colormap", resource_id)
    ∷ ("new_", byte_type)
    ∷ ("state", byte_type)
    ∷ ("unused", unused 18)
    ∷ []

abbrev pub client_message_event : Struct
client_message_event =
    ("header.code", byte_type)
    ∷ ("header.format", byte_type)
    ∷ ("header.sequence_num", short_type)
    ∷ ("window", resource_id)
    ∷ ("type", resource_id)
    ∷ ("data", unused 20)
    ∷ []

abbrev pub mapping_notify_event : Struct
mapping_notify_event =
    ("header.code", byte_type)
    ∷ ("unused", unused 1)
    ∷ ("header.sequence_num", short_type)
    ∷ ("request", byte_type)
    ∷ ("first_keycode", byte_type)
    ∷ ("count", byte_type)
    ∷ ("unused", unused 25)
    ∷ []
