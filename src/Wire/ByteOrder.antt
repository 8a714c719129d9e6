-- ===== src/Wire/ByteOrder.antt =====
-- src/include/X11ProtocolParser.hpp, `little_endian` and `_ordered`: fields are read from memory in
-- the byte order of the host, and swapped if the client asked for the other one.
use xtracepp.Base.{
  ℕ, ◌+◌, ◌*◌, ◌/◌, ◌%◌, ◌^◌, ◌<◌, ◌≡◌, refl, ◌∙◌, Bool, true, false, not, List, arith, ◌==◌,
  if◌then◌else◌, get_or,
}

-- The `uint8_t` at a place of the memory that starts at `bytes`. Reading past its end has no meaning
-- in C++; 0 here.
abbrev pub byte_at : List ℕ → ℕ → ℕ
byte_at bytes i = get_or bytes i 0 % 256

-- The two readings of 2, 4 and 8 bytes, first byte lowest or first byte highest.
abbrev pub lsb16 : List ℕ → ℕ → ℕ
lsb16 d i = byte_at d i + byte_at d (i + 1) * 256

abbrev pub msb16 : List ℕ → ℕ → ℕ
msb16 d i = byte_at d i * 256 + byte_at d (i + 1)

abbrev pub lsb32 : List ℕ → ℕ → ℕ
lsb32 d i = lsb16 d i + lsb16 d (i + 2) * 2 ^ 16

abbrev pub msb32 : List ℕ → ℕ → ℕ
msb32 d i = msb16 d i * 2 ^ 16 + msb16 d (i + 2)

-- `reinterpret_cast` to a field, on a host of either byte order.
unfoldable pub field16 : Bool → List ℕ → ℕ → ℕ
field16 little_endian d i = if little_endian then lsb16 d i else msb16 d i

unfoldable pub field32 : Bool → List ℕ → ℕ → ℕ
field32 little_endian d i = if little_endian then lsb32 d i else msb32 d i

-- `__builtin_bswap16` and `__builtin_bswap32`.
unfoldable pub bswap16 : ℕ → ℕ
bswap16 v = v % 256 * 256 + v / 256 % 256

unfoldable pub bswap32 : ℕ → ℕ
unfolding bswap16
bswap32 v = bswap16 (v % 2 ^ 16) * 2 ^ 16 + bswap16 (v / 2 ^ 16 % 2 ^ 16)

-- `_ordered` at `uint8_t`, `uint16_t` and `uint32_t`.
unfoldable pub ordered8 : ℕ → Bool → ℕ
ordered8 v byteswap = if byteswap then v else v

unfoldable pub ordered16 : ℕ → Bool → ℕ
unfolding bswap16
ordered16 v byteswap = if byteswap then bswap16 v else v

unfoldable pub ordered32 : ℕ → Bool → ℕ
unfolding bswap32
ordered32 v byteswap = if byteswap then bswap32 v else v

abbrev pub bool_ne : Bool → Bool → Bool
bool_ne true b = not b
bool_ne false b = b

-- `byteswap` as `logClientMessages` sets it from the first byte of the client's first message.
unfoldable pub byteswap_for : Bool → ℕ → Bool
byteswap_for little_endian byte_order = bool_ne little_endian (byte_order == b'l')

pub ordered16_twice : (v : ℕ) (s : Bool) → v < 2 ^ 16 → ordered16 (ordered16 v s) s ≡ v
unfolding ordered16
ordered16_twice v true h = omega arith
ordered16_twice v false h = refl

pub ordered32_twice : (v : ℕ) (s : Bool) → v < 2 ^ 32 → ordered32 (ordered32 v s) s ≡ v
unfolding ordered32
ordered32_twice v true h = omega arith
ordered32_twice v false h = refl

bswap16-lsb : (a b : ℕ) → a < 256 → b < 256 → bswap16 (a + b * 256) ≡ a * 256 + b
unfolding bswap16
bswap16-lsb a b h k = omega arith

bswap16-msb : (a b : ℕ) → a < 256 → b < 256 → bswap16 (a * 256 + b) ≡ a + b * 256
unfolding bswap16
bswap16-msb a b h k = omega arith

bswap32-halves :
    (lo hi : ℕ)
    → lo < 2 ^ 16
    → hi < 2 ^ 16
    → bswap32 (lo + hi * 2 ^ 16) ≡ bswap16 lo * 2 ^ 16 + bswap16 hi
unfolding bswap32
bswap32-halves lo hi h k = omega arith

bswap32-msb_halves :
    (hi lo : ℕ)
    → hi < 2 ^ 16
    → lo < 2 ^ 16
    → bswap32 (hi * 2 ^ 16 + lo) ≡ bswap16 hi + bswap16 lo * 2 ^ 16
unfolding bswap32
bswap32-msb_halves hi lo h k = omega arith

abbrev chosen : Bool → ℕ → ℕ → ℕ
chosen lsb_first l m = if lsb_first then l else m

-- A swap is made exactly when host and client disagree, and undoes the wrong reading.
swap_right :
    (swap : ℕ → ℕ) (little_endian lsb_first : Bool) (l m : ℕ)
    → swap l ≡ m
    → swap m ≡ l
    → (if bool_ne little_endian lsb_first
        then swap (chosen little_endian l m)
        else chosen little_endian l m)
      ≡ chosen lsb_first l m
swap_right swap true true l m p q = refl
swap_right swap true false l m p q = p
swap_right swap false true l m p q = q
swap_right swap false false l m p q = refl

-- With the client's byte order in force, a field of two bytes reads the same on hosts of either order.
pub ordered16-field16 :
    (little_endian : Bool) (byte_order : ℕ) (d : List ℕ) (i : ℕ)
    → ordered16 (field16 little_endian d i) (byteswap_for little_endian byte_order)
      ≡ (if byte_order == b'l' then lsb16 d i else msb16 d i)
unfolding field16 byteswap_for
ordered16-field16 little_endian byte_order d i =
    unfold ordered16 in
    swap_right bswap16 little_endian (byte_order == b'l') (lsb16 d i) (msb16 d i)
      (bswap16-lsb (byte_at d i) (byte_at d (i + 1)) (omega arith) (omega arith))
      (bswap16-msb (byte_at d i) (byte_at d (i + 1)) (omega arith) (omega arith))

-- With the client's byte order in force, a field of four bytes reads the same on hosts of either
-- order.
pub ordered32-field32 :
    (little_endian : Bool) (byte_order : ℕ) (d : List ℕ) (i : ℕ)
    → ordered32 (field32 little_endian d i) (byteswap_for little_endian byte_order)
      ≡ (if byte_order == b'l' then lsb32 d i else msb32 d i)
unfolding field32 byteswap_for
ordered32-field32 little_endian byte_order d i =
    let lo : ℕ = lsb16 d i in
    let hi : ℕ = lsb16 d (i + 2) in
    let lo_swap = bswap16-lsb (byte_at d i) (byte_at d (i + 1)) (omega arith) (omega arith) in
    let hi_swap =
      bswap16-lsb (byte_at d (i + 2)) (byte_at d (i + 2 + 1)) (omega arith) (omega arith) in
    let lo_back = bswap16-msb (byte_at d i) (byte_at d (i + 1)) (omega arith) (omega arith) in
    let hi_back =
      bswap16-msb (byte_at d (i + 2)) (byte_at d (i + 2 + 1)) (omega arith) (omega arith) in
    unfold ordered32 in
    swap_right bswap32 little_endian (byte_order == b'l') (lsb32 d i) (msb32 d i)
      (bswap32-halves lo hi (omega arith) (omega arith) ∙ omega (arith, lo_swap, hi_swap))
      (bswap32-msb_halves (msb16 d i) (msb16 d (i + 2)) (omega arith) (omega arith)
        ∙ omega (arith, lo_back, hi_back))
