-- ===== src/Protocol/Replies.antt =====
-- src/include/protocol/requests.hpp: the structs that the replies are read through, each with the
-- members of its header first.
pub mod Windows
pub mod Input
pub mod Fonts
pub mod Colors
pub mod Control
use xtracepp.Base.{[], ◌∷◌, none}
use xtracepp.Protocol.{FieldType, plain}

-- `CHARINFO`.
abbrev pub charinfo : FieldType
charinfo = plain 12

-- `FONTPROP`: an ATOM, whose zero bits are asserted, and a value.
abbrev pub fontprop : FieldType
fontprop = record { sizeof = 8; zero_bits = (29, 3) ∷ []; exempt = none }
