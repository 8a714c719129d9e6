-- ===== src/Protocol/Requests.antt =====
-- src/include/protocol/requests.hpp: the structs that a request is read through.
pub mod Windows
pub mod Properties
pub mod Grabs
pub mod Fonts
pub mod Contexts
pub mod Drawing
pub mod Colors
pub mod Control
use xtracepp.Base.{ℕ, ◌+◌, [], Option, none, some}
use xtracepp.Protocol.{Struct, sizeof_struct}

-- `Prefix`, and `Encoding` where the request has one: behind the length for all but the requests that
-- are their header alone.
pub record Layout : Type 0 where
  pub prefix : Struct
  pub encoding : Option Struct

abbrev pub encoding_of : Option Struct → Struct
encoding_of none = []
encoding_of (some s) = s

-- `BASE_ENCODING_SZ`: the prefix, a 16-bit length and the encoding.
unfoldable pub base_encoding_sz : Layout → ℕ
unfolding sizeof_struct
base_encoding_sz l = sizeof_struct l.prefix + 2 + sizeof_struct (encoding_of l.encoding)

-- `BASE_BIG_ENCODING_SZ`: the length is the flag and a 32-bit length.
unfoldable pub base_big_encoding_sz : Layout → ℕ
unfolding sizeof_struct
base_big_encoding_sz l = sizeof_struct l.prefix + 6 + sizeof_struct (encoding_of l.encoding)
