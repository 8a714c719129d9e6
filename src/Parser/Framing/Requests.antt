-- ===== src/Parser/Framing/Requests.antt =====
-- src/X11ProtocolParser.cpp: the size that `logClientMessages` finds for the next request.
use xtracepp.Base.{
  ℕ, zero, suc, ◌+◌, ◌%◌, ◌^◌, ◌≤◌, ◌<◌, ◌≡◌, refl, ap, inl, inr, Bool, true, false, List, [], ◌∷◌,
  ◌++◌, arith, ltb, ◌==◌, le→not_ltb, ==_iff, Bool-cases, length, take, get_or, some, ok,
  if◌then◌else◌,
}
use xtracepp.Buffer.{SocketBuffer, unknown_sz, size, message_size_set, set_message_size}
use xtracepp.Wire.Alignment.{aligned_size, aligned_size_exact}
use xtracepp.Wire.ByteOrder.{byte_at, field16, field32}
use xtracepp.Session.{Connection}
use xtracepp.Parser.Fields.{Order, u8, u16, u32, u16-lt, u32-lt}
use xtracepp.Parser.Messages.{order_of}
use xtracepp.Parser.Framing.{size_request}

byte_at-take :
    (n i : ℕ) (d m rest : List ℕ) → take n d ≡ m ++ rest → i < length m → byte_at d i ≡ byte_at m i
byte_at-take n i d m rest e h = ap (λ (t : ℕ). t % 256) (same n i d m rest e h)
  where
    same :
        (n i : ℕ) (d m rest : List ℕ)
        → take n d ≡ m ++ rest
        → i < length m
        → get_or d i 0 ≡ get_or m i 0
    same n i d [] rest e h = absurd (omega arith)
    same zero i d (y ∷ m) rest e h = cc
    same (suc n) i [] (y ∷ m) rest e h = cc
    same (suc n) zero (x ∷ d) (y ∷ m) rest e h = cc
    same (suc n) (suc i) (x ∷ d) (y ∷ m) rest e h =
        let tails : take n d ≡ m ++ rest = cc in same n i d m rest tails (omega arith)

module _ (n : ℕ) (d m rest : List ℕ) (e : take n d ≡ m ++ rest) where
  u8-take : (o : Order) (i : ℕ) → i < length m → u8 o d i ≡ u8 o m i
  unfolding u8
  u8-take o i h = rw (byte_at-take n i d m rest e h) refl

  field16-take : (le : Bool) (i : ℕ) → i + 1 < length m → field16 le d i ≡ field16 le m i
  unfolding field16
  field16-take le i h =
      rw (byte_at-take n i d m rest e (omega arith), byte_at-take n (i + 1) d m rest e h) refl

  u16-take : (o : Order) (i : ℕ) → i + 1 < length m → u16 o d i ≡ u16 o m i
  unfolding u16
  u16-take o i h = rw (field16-take o.little_endian i h) refl

  u32-take : (o : Order) (i : ℕ) → i + 2 + 1 < length m → u32 o d i ≡ u32 o m i
  unfolding u32 field32
  u32-take o i h =
      rw
        (
          byte_at-take n i d m rest e (omega arith),
          byte_at-take n (i + 1) d m rest e (omega arith),
          byte_at-take n (i + 2) d m rest e (omega arith),
          byte_at-take n (i + 2 + 1) d m rest e h,
        )
        refl

-- The size that the header of a request announces.
unfoldable pub request_size : Order → List ℕ → ℕ
unfolding field16 aligned_size u16 u32
request_size o m =
    if field16 o.little_endian m 2 == 0 then aligned_size (u32 o m 4) else aligned_size (u16 o m 2)

-- The bytes are enough to tell the size of the request.
abbrev pub header_sz : Order → List ℕ → ℕ
header_sz o m = if field16 o.little_endian m 2 == 0 then 8 else 4

-- A whole request, and one that is cut off behind its header.
pub record IsRequest (o : Order) (m : List ℕ) : Type 0 where
  pub has_prefix : 4 ≤ length m
  pub has_header : header_sz o m ≤ length m
  pub whole : length m ≡ request_size o m

pub record IsCut (o : Order) (m : List ℕ) : Type 0 where
  pub has_prefix : 4 ≤ length m
  pub has_header : header_sz o m ≤ length m
  pub cut : length m < request_size o m

pub request_size-lt : (o : Order) (m : List ℕ) → request_size o m < 2 ^ 34
unfolding request_size
request_size-lt o m = ground (
  arith,
  u16-lt o m 2,
  u32-lt o m 4,
  aligned_size_exact (u16 o m 2),
  aligned_size_exact (u32 o m 4),
)

request_size-take :
    (n : ℕ) (o : Order) (d m rest : List ℕ)
    → take n d ≡ m ++ rest
    → 4 ≤ length m
    → header_sz o m ≤ length m
    → request_size o d ≡ request_size o m
unfolding request_size
request_size-take n o d m rest e h k =
    let same_field : field16 o.little_endian d 2 ≡ field16 o.little_endian m 2 =
      field16-take n d m rest e o.little_endian 2 (omega arith) in
    elim (Bool-cases (field16 o.little_endian m 2 == 0)) [
      | inl big ↦
          let header : 8 ≤ length m = rw big at k in
          rw (same_field, big) (ap aligned_size (u32-take n d m rest e o 4 (omega arith)))
      | inr plain ↦ rw (u16-take n d m rest e o 2 (omega arith), same_field, plain) refl
    ]

-- Once the header is there, the size that the loop finds is the announced one.
pub size_request_lem :
    (n : ℕ) (little_endian : Bool) (conn : Connection) (b : SocketBuffer) (d m rest : List ℕ)
    → b.next_message_sz ≡ unknown_sz
    → take n d ≡ m ++ rest
    → 4 ≤ length m
    → header_sz (order_of little_endian conn) m ≤ length m
    → length m ≤ size b
    → size_request little_endian conn b d
      ≡ ok
          (some (conn, record b { next_message_sz = request_size (order_of little_endian conn) m }))
unfolding size_request set_message_size message_size_set
size_request_lem n little_endian conn b d m rest unset e h k inside =
    let o = order_of little_endian conn in
    let sz : ℕ = request_size o m in
    let same_field : field16 little_endian d 2 ≡ field16 little_endian m 2 =
      field16-take n d m rest e little_endian 2 (omega arith) in
    let four : ltb (size b) 4 ≡ false = le→not_ltb (size b) 4 (omega arith) in
    let fits : (sz == unknown_sz) ≡ false = ground (arith, request_size-lt o m) in
    let free : (b.next_message_sz == unknown_sz) ≡ true = (==_iff _ _).1 unset in
    elim (Bool-cases (field16 little_endian m 2 == 0)) [
      | inl big ↦
          let eight : ltb (size b) 8 ≡ false =
            let header : 8 ≤ length m = rw big at k in le→not_ltb (size b) 8 (omega arith) in
          let same : aligned_size (u32 o d 4) ≡ sz =
            unfold request_size in
            rw big (
              ap aligned_size (
                u32-take n d m rest e o 4
                  (let header : 8 ≤ length m = rw big at k in omega arith))) in
          rw (four, same_field, big, eight, same, fits, free) refl
      | inr plain ↦
          let same : aligned_size (u16 o m 2) ≡ sz = unfold request_size in rw plain refl in
          rw (four, u16-take n d m rest e o 2 (omega arith), same, same_field, plain, fits, free)
            refl
    ]
