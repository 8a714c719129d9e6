-- ===== src/Protocol/Errors.antt =====
-- src/include/protocol/errors.hpp: the structs of the errors, each 32 bytes.
use xtracepp.Base.{[], ◌∷◌}
use xtracepp.Protocol.{Struct, byte_type, short_type, long_type, unused}

abbrev pub simple_error : Struct
simple_error =
    ("header.error", byte_type)
    ∷ ("header.code", byte_type)
    ∷ ("header.sequence_num", short_type)
    ∷ ("unused", unused 4)
    ∷ ("minor_opcode", short_type)
    ∷ ("major_opcode", byte_type)
    ∷ ("unused", unused 21)
    ∷ []

abbrev pub resource_id_error : Struct
resource_id_error =
    ("header.error", byte_type)
    ∷ ("header.code", byte_type)
    ∷ ("header.sequence_num", short_type)
    ∷ ("bad_resource_id", long_type)
    ∷ ("minor_opcode", short_type)
    ∷ ("major_opcode", byte_type)
    ∷ ("unused", unused 21)
    ∷ []

abbrev pub value_error : Struct
value_error =
    ("header.error", byte_type)
    ∷ ("header.code", byte_type)
    ∷ ("header.sequence_num", short_type)
    ∷ ("bad_value", long_type)
    ∷ ("minor_opcode", short_type)
    ∷ ("major_opcode", byte_type)
    ∷ ("unused", unused 21)
    ∷ []

abbrev pub atom_error : Struct
atom_error =
    ("header.error", byte_type)
    ∷ ("header.code", byte_type)
    ∷ ("header.sequence_num", short_type)
    ∷ ("bad_atom_id", long_type)
    ∷ ("minor_opcode", short_type)
    ∷ ("major_opcode", byte_type)
    ∷ ("unused", unused 21)
    ∷ []
