-- ===== src/Proxy/Polling/Sides.antt =====
-- src/ProxyX11Server.cpp: what a pass of `_processPolledSockets` over one side leaves in the buffers.
use xtracepp.Base.{
  ℕ, ◌+◌, ◌-◌, ◌≤◌, ◌<◌, ◌≡◌, sym, ap, subst, ◌∙◌, ◌⊎◌, inl, inr, true, false, arith, ltb, leb,
  ◌==◌, Bool-cases, length, Option, none, some, Outcome, ok, aborted, exited, ◌>>=◌, size_mod,
  ==_iff,
}
use xtracepp.Buffer.{
  SocketBuffer, SocketError, Received, recv_failed, received, Sent, send_failed, sent, block_sz,
  unknown_sz, unparsed, incomplete_message, message_size_set, is_empty, read, read_n, write,
  write_n, bytes_to_read, contents,
}
use xtracepp.Buffer.Wellformed.{IsValid, unparsed_exact, reserve_lem}
use xtracepp.Buffer.Transfer.{read_n_received, length-contents}
use xtracepp.Buffer.Removal.{Removed, write_n_lem}
use xtracepp.Buffer.Readiness.{IsSettled}
use xtracepp.Session.{Connection}
use xtracepp.Parser.Framing.{Logged, start}
use xtracepp.Parser.Framing.Loops.{LoopResult}
use xtracepp.Proxy.{Proxied}
use xtracepp.Proxy.Polling.{SideOutcome, LogMessages, after_read, after_write}

-- What a buffer has to be between two calls of `poll`.
pub record IsKept (b : SocketBuffer) : Type 0 where
  pub valid : IsValid b
  pub settled : IsSettled b
  pub some_bytes : 0 < b.next_message_sz

-- The next read asks for no more bytes than the awaited message still lacks, and the vector that
-- it may grow to fits a `size_t`.
pub record CanRead (b : SocketBuffer) : Type 0 where
  pub in_order : b.bytes_read - b.bytes_written ≤ b.next_message_sz
  pub room : length b.storage + bytes_to_read b + block_sz < size_mod

-- `recv` stores no more bytes than it is asked for.
abbrev pub Obeys : Received → ℕ → Type 0
Obeys recv_failed n = Unit
Obeys (received bytes) n = length bytes ≤ n

-- A read keeps the invariant of the buffer, whatever `recv` answers.
abbrev pub ReadResult : Outcome (SocketBuffer × ℕ × Option SocketError) → Type 0
ReadResult (ok (b, n, error)) = IsValid b × (0 < b.next_message_sz)
ReadResult aborted = ⊥
ReadResult exited = ⊥

pub read-ReadResult :
    (b : SocketBuffer) (answer : Received)
    → IsKept b
    → CanRead b
    → Obeys answer (bytes_to_read b)
    → ReadResult (read b answer)
unfolding read
read-ReadResult b (received bytes) k c obeys =
    let (d, done, a) = read_n_received b (bytes_to_read b) bytes k.valid obeys c.room in
    rw done (a.valid, omega (arith, a.message_kept, k.some_bytes))
read-ReadResult b recv_failed k c obeys =
    let (st, reserved, r) = reserve_lem b (bytes_to_read b) k.valid c.room in
    unfold read_n in
    rw reserved (
      record {
        parsed_within = k.valid.parsed_within;
        stored = omega (arith, r.room);
        bounded = omega (arith, r.limit, c.room);
        message_bounded = k.valid.message_bounded;
        reset = k.valid.reset;
      },
      k.some_bytes,
    )

-- A write of the parsed bytes keeps a buffer as it has to be.
abbrev pub WriteResult : Outcome (SocketBuffer × ℕ × Option SocketError) → Type 0
WriteResult (ok (b, n, error)) = IsKept b
WriteResult aborted = Unit
WriteResult exited = Unit

written-IsSettled :
    (b c : SocketBuffer)
    → IsKept b
    → IsValid c
    → unparsed c ≡ unparsed b
    → ((c.next_message_sz ≡ unknown_sz) × (length (contents c) ≡ 0))
      ⊎ (c.next_message_sz ≡ b.next_message_sz)
    → IsSettled c
written-IsSettled b c k v same (inl (_, empty)) =
    inl (omega (arith, unparsed_exact v, length-contents v))
written-IsSettled b c k v same (inr message) = elim k.settled [
  | inl done ↦ inl (same ∙ done)
  | inr waits ↦ inr (
      unfold incomplete_message in
      unfold message_size_set in
      rw (same, message) (unfold incomplete_message in unfold message_size_set in waits))
]

pub write-WriteResult : (b : SocketBuffer) (answer : Sent) → IsKept b → WriteResult (write b answer)
unfolding write write_n
write-WriteResult b send_failed k =
    let all : leb b.bytes_parsed b.bytes_parsed ≡ true = ground arith in rw all k
write-WriteResult b (sent n) k =
    let all : leb b.bytes_parsed b.bytes_parsed ≡ true = ground arith in
    elim (Bool-cases (n == b.bytes_parsed)) [
      | inr short ↦ rw (all, short) tt
      | inl whole ↦
          let same : n ≡ b.bytes_parsed = (==_iff n b.bytes_parsed).0 whole in
          let (c, done, r, left) = write_n_lem b b.bytes_parsed k.valid (omega arith) in
          subst (λ (t : ℕ). WriteResult (write_n b b.bytes_parsed (sent t))) (sym same)
            (subst WriteResult (sym done) (kept c r left))
    ]
  where
    kept :
        (c : SocketBuffer)
        → Removed b b.bytes_parsed (b.bytes_parsed - b.bytes_parsed) c
        → unparsed c ≡ unparsed b
        → IsKept c
    kept c r left = record {
      valid = r.valid;
      settled = written-IsSettled b c k r.valid left (elim r.message_kept [
        | inl (fresh, empty) ↦ inl (fresh, ap length empty)
        | inr (same, _) ↦ inr same
      ]);
      some_bytes = elim r.message_kept [
        | inl (fresh, _) ↦ omega arith
        | inr (same, _) ↦ omega (arith, k.some_bytes)
      ];
    }

-- Both buffers of a connection.
abbrev pub BothKept : Proxied → Type 0
BothKept c = IsKept c.client_buffer × IsKept c.server_buffer

-- Unless the connection is to be closed, or an assert fails, both buffers are as they have to be.
abbrev pub SideResult : {P : Type 0} → SideOutcome P → Type 0
SideResult (ok (p, c, closing)) = closing ≡ false → BothKept c
SideResult aborted = Unit
SideResult exited = Unit

abbrev pub PutKeeps : (SocketBuffer → Proxied → Proxied) → Type 0
PutKeeps put =
    (b : SocketBuffer) (c : Proxied) (conn : Connection)
    → IsKept b
    → BothKept c
    → BothKept (put b (record c { conn = conn }))

-- What is proved of the two loops of the parser.
abbrev pub LogKeeps : {P : Type 0} → LogMessages P → Type 0
LogKeeps {P} log =
    (p : P) (conn : Connection) (b : SocketBuffer)
    → IsValid b
    → 0 < b.next_message_sz
    → (r : Outcome (Logged P)) × (log p conn b ≡ some r) × LoopResult (start p conn b) r

module _ {P : Type 0} (put : SocketBuffer → Proxied → Proxied) (keeps : PutKeeps put) where
  pub after_write-SideResult :
      (p : P) (c : Proxied) (r : SocketBuffer × ℕ × Option SocketError)
      → IsKept r.0
      → BothKept c
      → SideResult (after_write put p c r)
  unfolding after_write
  after_write-SideResult p c (b, n, none) k both = elim (Bool-cases (ltb 0 n)) [
    | inl some_sent ↦ rw some_sent (λ _. keeps b c c.conn k both)
    | inr none_sent ↦ rw none_sent tt
  ]
  after_write-SideResult p c (b, n, some error) k both = λ (e : true ≡ false). cc

  pub after_read-SideResult :
      (log : LogMessages P) (p : P) (c : Proxied) (r : SocketBuffer × ℕ × Option SocketError)
      → LogKeeps log
      → IsValid r.0
      → 0 < r.0.next_message_sz
      → BothKept c
      → SideResult (after_read log put p c r)
  unfolding after_read
  after_read-SideResult log p c (b, n, some error) logs v h both = λ (e : true ≡ false). cc
  after_read-SideResult log p c (b, n, none) logs v h both = elim (Bool-cases (n == 0)) [
    | inl ended_stream ↦ rw ended_stream (λ (e : true ≡ false). cc)
    | inr some_read ↦ elim (Bool-cases (is_empty b)) [
      | inl empty ↦ rw (some_read, empty) tt
      | inr holds ↦
          let (r, done, l) = logs p c.conn b v h in rw (some_read, holds, done) (logged r l)
    ]
  ]
    where
      logged :
          (r : Outcome (Logged P))
          → LoopResult (start p c.conn b) r
          → SideResult (
              r >>= λ (l : Logged P).
              ok (l.final.parser, put l.final.buffer (record c { conn = l.final.conn }), l.error))
      logged (ok l) (after, settled) = λ no_error.
          keeps l.final.buffer c l.final.conn
            (record {
              valid = after.framed.valid;
              settled = settled no_error;
              some_bytes = after.framed.some_bytes;
            })
            both
      logged aborted h = tt
      logged exited h = tt
