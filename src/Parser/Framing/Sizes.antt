-- ===== src/Parser/Framing/Sizes.antt =====
-- The loops of src/X11ProtocolParser.cpp: the sizes that they find, and that no empty message passes.
use xtracepp.Base.{
  ℕ, ◌+◌, ◌≤◌, ◌<◌, ◌≡◌, refl, subst, ◌⊎◌, inl, inr, Bool, true, false, List, arith, ltb, leb, ◌==◌,
  leb→le, Bool-cases, some, Outcome, ok, require, ◌>>=◌, ◌>>◌, >>=-eq-ok, size_mod, if◌then◌else◌,
}
use xtracepp.Buffer.{SocketBuffer, size, unknown_sz, message_size_set, set_message_size}
use xtracepp.Wire.Alignment.{pad, pad-lt, aligned_size, aligned_size_exact}
use xtracepp.Wire.ByteOrder.{byte_at, field16, byteswap_for}
use xtracepp.Session.{Connection, Status, unestablished, open_, closed, failed, authentication}
use xtracepp.Parser.Fields.{u8, u16, u32, u16-lt, u32-lt}
use xtracepp.Parser.Setup.{known_order}
use xtracepp.Parser.Messages.{
  MessageParsers, order_of, log_request, log_reply, log_event, log_error,
}
use xtracepp.Parser.Framing.{
  Sizing, size_initiation, size_request, size_client, size_init_response, size_response,
  size_server, log_client, log_response, log_server,
}
use xtracepp.Parser.Framing.Rounds.{TakesBytes, SetsSize}

-- What `SetsSize` asks of one answer.
abbrev Sized : Status → Connection → SocketBuffer → Sizing → Type 0
Sized status conn b (ok (some (conn', c))) =
    (m : ℕ) × (c ≡ record b { next_message_sz = m })
    × ((m < size_mod) ⊎ (m ≡ b.next_message_sz))
    × (conn'.status ≡ conn.status)
    × ((0 < m) ⊎ ((status ≡ open_) ⊎ (m ≡ b.next_message_sz)))
Sized status conn b _ = Unit

Sized-unchanged :
    (status : Status) (conn : Connection) (b : SocketBuffer)
    → Sized status conn b (ok (some (conn, b)))
Sized-unchanged status conn b = (b.next_message_sz, refl, inr refl, refl, inr (inr refl))

abbrev with_conn : Connection → SocketBuffer → Sizing
with_conn conn b = ok (some (conn, b))

Sized-set :
    (status : Status) (conn conn' : Connection) (b : SocketBuffer) (m : ℕ)
    → m < size_mod
    → conn'.status ≡ conn.status
    → (0 < m) ⊎ (status ≡ open_)
    → Sized status conn b (set_message_size b m >>= with_conn conn')
unfolding set_message_size
Sized-set status conn conn' b m small same some_bytes = elim (Bool-cases (m == unknown_sz)) [
  | inl unknown ↦ rw unknown tt
  | inr known ↦ elim (Bool-cases (message_size_set b)) [
    | inl is_set ↦ rw (known, is_set) tt
    | inr unset ↦
        rw (known, unset)
          (m, refl, inl small, same, elim some_bytes [ inl h ↦ inl h | inr h ↦ inr (inl h) ])
  ]
]

answer :
    (status : Status) (conn conn' : Connection) (b c : SocketBuffer) (r : Sizing)
    → Sized status conn b r
    → r ≡ ok (some (conn', c))
    → Sized status conn b (ok (some (conn', c)))
answer status conn conn' b c r h e = subst (Sized status conn b) e h

module _ (little_endian : Bool) (conn : Connection) (b : SocketBuffer) (d : List ℕ) where
  size_initiation-Sized : Sized unestablished conn b (size_initiation little_endian conn b d)
  unfolding size_initiation
  size_initiation-Sized = elim (Bool-cases (ltb (size b) 12)) [
    | inl short ↦ rw short (Sized-unchanged unestablished conn b)
    | inr enough ↦ elim (Bool-cases (known_order (byte_at d 0))) [
      | inr unknown ↦ rw (enough, unknown) tt
      | inl known ↦
          let conn' = record conn { byteswap = byteswap_for little_endian (byte_at d 0) } in
          let o = order_of little_endian conn' in
          rw (enough, known)
            (Sized-set unestablished conn conn' b (12 + pad (u16 o d 6) + pad (u16 o d 8))
              (omega (arith, u16-lt o d 6, u16-lt o d 8, pad-lt (u16 o d 6), pad-lt (u16 o d 8)))
              refl (inl (omega arith)))
    ]
  ]

  size_request-Sized : Sized open_ conn b (size_request little_endian conn b d)
  unfolding size_request aligned_size
  size_request-Sized = elim (Bool-cases (ltb (size b) 4)) [
    | inl short ↦ rw short (Sized-unchanged open_ conn b)
    | inr enough ↦ elim (Bool-cases (field16 little_endian d 2 == 0)) [
      | inr plain ↦ rw (enough, plain) (Sized-set open_ conn conn b _ (omega arith) refl (inr refl))
      | inl big ↦ elim (Bool-cases (ltb (size b) 8)) [
        | inl short ↦ rw (enough, big, short) (Sized-unchanged open_ conn b)
        | inr more ↦
            rw (enough, big, more) (Sized-set open_ conn conn b _ (omega arith) refl (inr refl))
      ]
    ]
  ]

  size_init_response-Sized : Sized unestablished conn b (size_init_response little_endian conn b d)
  unfolding size_init_response
  size_init_response-Sized = elim (Bool-cases (ltb (size b) 8)) [
    | inl short ↦ rw short (Sized-unchanged unestablished conn b)
    | inr enough ↦
        let n : ℕ = u16 (order_of little_endian conn) d 6 in
        rw enough (
          Sized-set unestablished conn conn b (8 + aligned_size n)
            (omega (arith, u16-lt (order_of little_endian conn) d 6, aligned_size_exact n)) refl
            (inl (omega arith)))
  ]

  size_response-Sized : Sized open_ conn b (size_response little_endian conn b d)
  unfolding size_response
  size_response-Sized = elim (Bool-cases (ltb (size b) 4)) [
    | inl short ↦ rw short (Sized-unchanged open_ conn b)
    | inr enough ↦
        let o = order_of little_endian conn in
        let n : ℕ = u32 o d 4 in
        rw enough (
          Sized-set open_ conn conn b (if u8 o d 0 == 1 then 32 + aligned_size n else 32)
            (ground (arith, u32-lt o d 4, aligned_size_exact n)) refl (inr refl))
  ]

module _ (little_endian : Bool) where
  pub size_client-SetsSize : SetsSize (size_client little_endian)
  unfolding size_client
  size_client-SetsSize unestablished conn conn' b c d e =
      answer unestablished conn conn' b c _ (size_initiation-Sized little_endian conn b d) e
  size_client-SetsSize open_ conn conn' b c d e =
      answer open_ conn conn' b c _ (size_request-Sized little_endian conn b d) e
  size_client-SetsSize authentication conn conn' b c d e = cc
  size_client-SetsSize closed conn conn' b c d e =
      answer closed conn conn' b c _ (Sized-unchanged closed conn b) e
  size_client-SetsSize failed conn conn' b c d e =
      answer failed conn conn' b c _ (Sized-unchanged failed conn b) e

  pub size_server-SetsSize : SetsSize (size_server little_endian)
  unfolding size_server
  size_server-SetsSize unestablished conn conn' b c d e =
      answer unestablished conn conn' b c _ (size_init_response-Sized little_endian conn b d) e
  size_server-SetsSize open_ conn conn' b c d e =
      answer open_ conn conn' b c _ (size_response-Sized little_endian conn b d) e
  size_server-SetsSize authentication conn conn' b c d e = cc
  size_server-SetsSize closed conn conn' b c d e =
      answer closed conn conn' b c _ (Sized-unchanged closed conn b) e
  size_server-SetsSize failed conn conn' b c d e =
      answer failed conn conn' b c _ (Sized-unchanged failed conn b) e

require-true : (t : Bool) → require t ≡ ok tt → t ≡ true
require-true true e = refl
require-true false e = cc

-- A chain that starts with a test on the size.
require-le :
    {A : Type 0} (n sz : ℕ) (k : Outcome A) {r : A} → (require (leb n sz) >> k) ≡ ok r → n ≤ sz
require-le n sz k e =
    let (_, tested, _) = >>=-eq-ok (require (leb n sz)) _ e in
    leb→le n sz (require-true (leb n sz) tested)

module _ {P : Type 0} (parsers : MessageParsers P) (little_endian : Bool) where
  pub log_client-TakesBytes : TakesBytes (log_client parsers little_endian)
  unfolding log_client log_request
  log_client-TakesBytes p conn d sz r e =
      let (_, logged, _) = >>=-eq-ok (log_request parsers little_endian p conn d sz) _ e in
      omega (arith, require-le 4 sz _ logged)

  log_error-le :
      (p : P) (conn : Connection) (d : List ℕ) (sz : ℕ) {r : Connection × ℕ}
      → log_error parsers little_endian p conn d sz ≡ ok r
      → 32 ≤ sz
  unfolding log_error
  log_error-le p conn d sz e = require-le 32 sz _ e

  log_reply-le :
      (p : P) (conn : Connection) (d : List ℕ) (sz : ℕ) {r : P × Connection × List ℕ × ℕ}
      → log_reply parsers little_endian p conn d sz ≡ ok r
      → 32 ≤ sz
  unfolding log_reply
  log_reply-le p conn d sz e = require-le 32 sz _ e

  log_event-le :
      (p : P) (conn : Connection) (d : List ℕ) (sz : ℕ) {r : ℕ}
      → log_event parsers little_endian p conn d sz ≡ ok r
      → 32 ≤ sz
  unfolding log_event
  log_event-le p conn d sz e = require-le 32 sz _ e

  pub log_server-TakesBytes : TakesBytes (log_server parsers little_endian)
  unfolding log_server log_response
  log_server-TakesBytes p conn d sz r e =
      by_prefix (u8 (order_of little_endian conn) d 0 == 0)
        (u8 (order_of little_endian conn) d 0 == 1) e
    where
      by_prefix :
          (is_error is_reply : Bool)
          → (if is_error
              then (do
                (after, n) ← log_error parsers little_endian p conn d sz
                ok (p, after, d, n))
              else if is_reply
              then log_reply parsers little_endian p conn d sz
              else (do n ← log_event parsers little_endian p conn d sz; ok (p, conn, d, n)))
            ≡ ok r
          → 0 < sz
      by_prefix true is_reply h =
          let (_, logged, _) = >>=-eq-ok (log_error parsers little_endian p conn d sz) _ h in
          omega (arith, log_error-le p conn d sz logged)
      by_prefix false true h = omega (arith, log_reply-le p conn d sz h)
      by_prefix false false h =
          let (_, logged, _) = >>=-eq-ok (log_event parsers little_endian p conn d sz) _ h in
          omega (arith, log_event-le p conn d sz logged)
