-- ===== src/Parser/Fields.antt =====
-- Fields of a message, read with the byte order of the host and of the client.
use xtracepp.Base.{ℕ, ◌^◌, ◌<◌, Bool, List, arith}
use xtracepp.Wire.ByteOrder.{
  byte_at, field16, field32, bswap16, bswap32, ordered8, ordered16, ordered32,
}

-- `little_endian` of the host, and `byteswap` of the connection.
pub record Order : Type 0 where
  pub little_endian : Bool
  pub byteswap : Bool

unfoldable pub u8 : Order → List ℕ → ℕ → ℕ
unfolding ordered8
u8 o d i = ordered8 (byte_at d i) o.byteswap

unfoldable pub u16 : Order → List ℕ → ℕ → ℕ
unfolding ordered16 field16
u16 o d i = ordered16 (field16 o.little_endian d i) o.byteswap

unfoldable pub u32 : Order → List ℕ → ℕ → ℕ
unfolding ordered32 field32
u32 o d i = ordered32 (field32 o.little_endian d i) o.byteswap

pub u16-lt : (o : Order) (d : List ℕ) (i : ℕ) → u16 o d i < 2 ^ 16
unfolding u16 field16 ordered16 bswap16
u16-lt o d i = ground arith

pub u32-lt : (o : Order) (d : List ℕ) (i : ℕ) → u32 o d i < 2 ^ 32
unfolding u32 field32 ordered32 bswap32 bswap16
u32-lt o d i = ground arith
