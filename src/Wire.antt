-- ===== src/Wire.antt =====
-- src/include/X11ProtocolParser.hpp, `Alignment` and `_ordered`: how the fields of an X11 message
-- lie in its bytes.
pub mod Alignment
pub mod ByteOrder
