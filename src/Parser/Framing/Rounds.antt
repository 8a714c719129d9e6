-- ===== src/Parser/Framing/Rounds.antt =====
-- The loops of src/X11ProtocolParser.cpp: what one round does to the buffer.
use xtracepp.Base.{
  ℕ, ◌+◌, ◌-◌, ◌≤◌, ◌<◌, ◌≡◌, refl, sym, subst, ◌∙◌, ◌⊎◌, inl, inr, Bool, true, false, List, arith,
  leb, ◌==◌, ==_iff, Bool-cases, take, length-take, if◌then◌else◌, none, some, Outcome, ok, aborted,
  exited, ◌>>=◌, add_size, size_mod, add_size_exact,
}
use xtracepp.Buffer.{
  SocketBuffer, size, unparsed, message_size_set, incomplete_message, mark_message_parsed,
}
use xtracepp.Buffer.Bytes.{length-blit}
use xtracepp.Buffer.Wellformed.{IsValid, size_exact, unparsed_exact}
use xtracepp.Buffer.Readiness.{IsSettled}
use xtracepp.Session.{Connection, Status, open_}
use xtracepp.Parser.Framing.{
  Framed, Round, stops, refuses, goes_on, Sizing, bytes_from, finish_message, finish_round,
  sized_round, round_of,
}

abbrev pub Log : Type 0 → Type 0
Log P = Status → P → Connection → List ℕ → ℕ → Outcome (P × Connection × List ℕ × ℕ)

-- A message that an open connection accepts is not empty.
abbrev pub TakesBytes : {P : Type 0} → Log P → Type 0
TakesBytes {P} log =
    (p : P) (conn : Connection) (d : List ℕ) (sz : ℕ) (r : P × Connection × List ℕ × ℕ)
    → log open_ p conn d sz ≡ ok r
    → 0 < sz

-- Looking for the size sets `_next_message_sz` alone, to a size that may be 0 only on an open
-- connection.
abbrev pub SetsSize : (Status → Connection → SocketBuffer → List ℕ → Sizing) → Type 0
SetsSize sizes =
    (status : Status) (conn conn' : Connection) (b c : SocketBuffer) (d : List ℕ)
    → sizes status conn b d ≡ ok (some (conn', c))
    → (m : ℕ) × (c ≡ record b { next_message_sz = m })
      × ((m < size_mod) ⊎ (m ≡ b.next_message_sz))
      × (conn'.status ≡ conn.status)
      × ((0 < m) ⊎ ((status ≡ open_) ⊎ (m ≡ b.next_message_sz)))

module _ {P : Type 0} where
  -- The buffer is valid, `data` is not past the parsed bytes, and a known message is not empty.
  pub record IsFramed (s : Framed P) : Type 0 where
    pub valid : IsValid s.buffer
    pub within : s.data_ ≤ s.buffer.bytes_written + s.buffer.bytes_parsed
    pub some_bytes : 0 < s.buffer.next_message_sz

  -- `t` comes after `s`: nothing was read or written, and `total` counts what was parsed.
  pub record After (s t : Framed P) : Type 0 where
    pub framed : IsFramed t
    pub read_kept : t.buffer.bytes_read ≡ s.buffer.bytes_read
    pub written_kept : t.buffer.bytes_written ≡ s.buffer.bytes_written
    pub parsed_more : s.buffer.bytes_parsed ≤ t.buffer.bytes_parsed
    pub counted : t.total + s.buffer.bytes_parsed ≡ s.total + t.buffer.bytes_parsed

  abbrev pub RoundResult : Framed P → Outcome (Round P) → Type 0
  RoundResult s (ok (stops t)) = After s t × IsSettled t.buffer
  RoundResult s (ok (refuses t)) = After s t
  RoundResult s (ok (goes_on t)) = After s t × (s.buffer.bytes_parsed < t.buffer.bytes_parsed)
  RoundResult s aborted = Unit
  RoundResult s exited = Unit

  finish_message-RoundResult :
      (s : Framed P) (r : P × Connection × List ℕ × ℕ)
      → IsValid s.buffer
      → s.data_ ≤ s.buffer.bytes_written + s.buffer.bytes_parsed
      → s.buffer.bytes_parsed < size s.buffer
      → 0 < s.buffer.next_message_sz
      → incomplete_message s.buffer ≡ false
      → message_size_set s.buffer ≡ true
      → RoundResult s (finish_message s r)
  unfolding finish_message mark_message_parsed incomplete_message
  finish_message-RoundResult s (q, conn, message, n) v within more some_bytes whole is_set =
      let b = s.buffer in
      let sz : ℕ = b.next_message_sz in
      let inside : b.bytes_parsed + sz ≤ b.bytes_read - b.bytes_written =
        ground (arith, size_exact v, unparsed_exact v) in
      let marked : add_size b.bytes_parsed sz ≡ b.bytes_parsed + sz =
        add_size_exact b.bytes_parsed sz (omega (arith, v.stored, v.bounded)) in
      elim (Bool-cases (n == sz)) [
        | inr differs ↦ rw differs tt
        | inl same ↦ elim (Bool-cases (leb (add_size b.bytes_parsed sz) (size b))) [
          | inr beyond ↦ rw (same, is_set, beyond) tt
          | inl fits ↦
              let exact : n ≡ sz = (==_iff n sz).0 same in
              let st_length =
                length-blit b.storage s.data_ (take sz message)
                  (omega (arith, length-take sz message, v.stored, v.parsed_within)) in
              rw (same, is_set, fits)
                (
                  record {
                    framed = record {
                      valid = record {
                        parsed_within = omega (arith, v.parsed_within);
                        stored = omega (arith, v.stored);
                        bounded = omega (arith, v.bounded);
                        message_bounded = omega arith;
                        reset = v.reset;
                      };
                      within = omega arith;
                      some_bytes = omega arith;
                    };
                    read_kept = refl;
                    written_kept = refl;
                    parsed_more = omega arith;
                    counted = omega arith;
                  },
                  omega arith,
                )
        ]
      ]

  pub After-refl : (s : Framed P) → IsFramed s → After s s
  After-refl s f = record {
    framed = f;
    read_kept = refl;
    written_kept = refl;
    parsed_more = omega arith;
    counted = refl;
  }

  -- A message of 0 bytes is not taken by an open connection, which is the only one to find it.
  finish_round-RoundResult :
      (log : Log P) (s : Framed P)
      → TakesBytes log
      → IsValid s.buffer
      → s.data_ ≤ s.buffer.bytes_written + s.buffer.bytes_parsed
      → s.buffer.bytes_parsed < size s.buffer
      → (0 < s.buffer.next_message_sz) ⊎ (s.conn.status ≡ open_)
      → RoundResult s (finish_round log s)
  unfolding finish_round message_size_set
  finish_round-RoundResult log s takes v within more some_or_open =
      let b = s.buffer in
      let sz : ℕ = b.next_message_sz in
      let d = bytes_from b s.data_ in
      let framed : (0 < sz) → After s s =
        λ h. After-refl s (record { valid = v; within = within; some_bytes = h }) in
      let unparsed_some : 0 < unparsed b = omega (arith, size_exact v, unparsed_exact v) in
      elim (Bool-cases (message_size_set b)) [
        | inr unset ↦
            let waits : incomplete_message b ≡ true = unfold incomplete_message in ground arith in
            rw unset (framed (unfold message_size_set in ground arith), inr waits)
        | inl is_set ↦ elim (Bool-cases (incomplete_message b)) [
          | inl waits ↦
              rw (waits, is_set) (framed (unfold incomplete_message in ground arith), inr waits)
          | inr whole ↦
              rw (whole, is_set) (logged (log s.conn.status s.parser s.conn d sz) whole is_set refl)
        ]
      ]
    where
      logged :
          (m : Outcome (P × Connection × List ℕ × ℕ))
          → incomplete_message s.buffer ≡ false
          → message_size_set s.buffer ≡ true
          → log s.conn.status s.parser s.conn (bytes_from s.buffer s.data_) s.buffer.next_message_sz
            ≡ m
          → RoundResult s (m >>= finish_message s)
      logged (ok r) whole is_set e =
          let some_bytes : 0 < s.buffer.next_message_sz = elim some_or_open [
            | inl h ↦ h
            | inr at_open ↦ takes s.parser s.conn _ _ r (
                subst
                  (λ (t : Status).
                    log t s.parser s.conn (bytes_from s.buffer s.data_) s.buffer.next_message_sz
                    ≡ ok r)
                  at_open e)
          ] in
          finish_message-RoundResult s r v within more some_bytes whole is_set
      logged aborted whole is_set e = tt
      logged exited whole is_set e = tt

  resized :
      {s t : Framed P} {conn : Connection} {m : ℕ}
      → After (record s { conn = conn; buffer = record s.buffer { next_message_sz = m } }) t
      → After s t
  resized a = record {
    framed = a.framed;
    read_kept = a.read_kept;
    written_kept = a.written_kept;
    parsed_more = a.parsed_more;
    counted = a.counted;
  }

  RoundResult-resized :
      (s : Framed P) (conn : Connection) (m : ℕ) (r : Outcome (Round P))
      → RoundResult (record s { conn = conn; buffer = record s.buffer { next_message_sz = m } }) r
      → RoundResult s r
  RoundResult-resized s conn m (ok (stops t)) (a, settled) = (resized a, settled)
  RoundResult-resized s conn m (ok (refuses t)) a = resized a
  RoundResult-resized s conn m (ok (goes_on t)) (a, more) = (resized a, more)
  RoundResult-resized s conn m aborted h = tt
  RoundResult-resized s conn m exited h = tt

  -- With the size set before, the message is not empty; else the size is looked for.
  pub round_of-RoundResult :
      (sizes : Status → Connection → SocketBuffer → List ℕ → Sizing) (log : Log P) (s : Framed P)
      → SetsSize sizes
      → TakesBytes log
      → IsFramed s
      → s.buffer.bytes_parsed < size s.buffer
      → RoundResult s (round_of sizes log s)
  unfolding round_of
  round_of-RoundResult sizes log s sets takes f more = chosen (message_size_set s.buffer)
    where
      message_fits : {m : ℕ} → (m < size_mod) ⊎ (m ≡ s.buffer.next_message_sz) → m < size_mod
      message_fits (inl h) = h
      message_fits (inr kept) = omega (arith, f.valid.message_bounded)

      sized :
          (m : Sizing)
          → sizes s.conn.status s.conn s.buffer (bytes_from s.buffer s.data_) ≡ m
          → RoundResult s (sized_round log s m)
      sized (ok none) e = After-refl s f
      sized (ok (some (conn, c))) e =
          let (m, same, bound, status_kept, some_bytes) =
            sets s.conn.status s.conn conn s.buffer c (bytes_from s.buffer s.data_) e in
          let t : Framed P = record s {
            conn = conn;
            buffer = record s.buffer { next_message_sz = m };
          } in
          subst
            (λ (b : SocketBuffer).
              RoundResult s (finish_round log (record s { conn = conn; buffer = b })))
            (sym same)
            (RoundResult-resized s conn m (finish_round log t) (
              finish_round-RoundResult log t takes
                (record {
                  parsed_within = f.valid.parsed_within;
                  stored = f.valid.stored;
                  bounded = f.valid.bounded;
                  message_bounded = message_fits bound;
                  reset = f.valid.reset;
                })
                f.within more
                (elim some_bytes [
                  | inl h ↦ inl h
                  | inr (inl at_open) ↦ inr (status_kept ∙ at_open)
                  | inr (inr kept) ↦ inl (omega (arith, f.some_bytes))
                ])))
      sized aborted e = tt
      sized exited e = tt

      chosen :
          (is_set : Bool)
          → RoundResult s (
              if is_set
              then finish_round log s
              else sized_round log s
                  (sizes s.conn.status s.conn s.buffer (bytes_from s.buffer s.data_)))
      chosen true = finish_round-RoundResult log s takes f.valid f.within more (inl f.some_bytes)
      chosen false = sized (sizes s.conn.status s.conn s.buffer (bytes_from s.buffer s.data_)) refl
