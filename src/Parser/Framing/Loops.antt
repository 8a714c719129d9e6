-- ===== src/Parser/Framing/Loops.antt =====
-- src/X11ProtocolParser.cpp: `logClientMessages` and `logServerMessages` come to an end, and leave a
-- buffer that the poll loop can go on with.
use xtracepp.Base.{
  ℕ, zero, suc, ◌+◌, ◌<◌, ◌≡◌, refl, ◌∙◌, inl, inr, Bool, true, false, arith, ltb, ltb→lt,
  Bool-cases, some, Outcome, ok, aborted, exited,
}
use xtracepp.Buffer.{SocketBuffer, size}
use xtracepp.Buffer.Wellformed.{IsValid, size_exact, unparsed_exact}
use xtracepp.Buffer.Readiness.{IsSettled}
use xtracepp.Session.{Connection}
use xtracepp.Parser.Messages.{MessageParsers}
use xtracepp.Parser.Framing.{
  Framed, Round, stops, refuses, goes_on, Logged, frame_loop, start, client_round, server_round,
  size_client, size_server, log_client, log_server, log_client_messages, log_server_messages,
  round_of,
}
use xtracepp.Parser.Framing.Rounds.{IsFramed, After, After-refl, RoundResult, round_of-RoundResult}
use xtracepp.Parser.Framing.Sizes.{
  size_client-SetsSize, size_server-SetsSize, log_client-TakesBytes, log_server-TakesBytes,
}

module _ {P : Type 0} where
  -- What the loop leaves where no assert failed: the bytes read and written are those it started
  -- with, `total` counts the bytes that it parsed, and without an error it is settled.
  abbrev pub LoopResult : Framed P → Outcome (Logged P) → Type 0
  LoopResult s (ok l) = After s l.final × (l.error ≡ false → IsSettled l.final.buffer)
  LoopResult s aborted = Unit
  LoopResult s exited = Unit

  After-trans : {s t u : Framed P} → After s t → After t u → After s u
  After-trans a b = record {
    framed = b.framed;
    read_kept = b.read_kept ∙ a.read_kept;
    written_kept = b.written_kept ∙ a.written_kept;
    parsed_more = omega (arith, a.parsed_more, b.parsed_more);
    counted = omega (arith, a.counted, b.counted);
  }

  LoopResult-trans :
      {s t : Framed P} (r : Outcome (Logged P)) → After s t → LoopResult t r → LoopResult s r
  LoopResult-trans (ok l) a (b, settled) = (After-trans a b, settled)
  LoopResult-trans aborted a h = tt
  LoopResult-trans exited a h = tt

  frame_loop_lem :
      (round : Framed P → Outcome (Round P))
      → ((s : Framed P)
          → IsFramed s
          → s.buffer.bytes_parsed < size s.buffer
          → RoundResult s (round s))
      → (fuel : ℕ) (s : Framed P) → IsFramed s
      → size s.buffer < s.buffer.bytes_parsed + fuel
      → (r : Outcome (Logged P)) × (frame_loop round fuel s ≡ some r) × LoopResult s r
  unfolding frame_loop
  frame_loop_lem round steps zero s f h =
      absurd (omega (arith, size_exact f.valid, f.valid.parsed_within))
  frame_loop_lem round steps (suc fuel) s f h =
      elim (Bool-cases (ltb s.buffer.bytes_parsed (size s.buffer))) [
        | inr done ↦ (
          ok (record { final = s; error = false }),
          rw (done, frame_loop) refl,
          (After-refl s f, λ _. inl (ground (arith, size_exact f.valid, unparsed_exact f.valid))),
        )
        | inl more ↦
            rw (more, frame_loop)
              (after (frame_loop_lem round steps fuel) (round s)
                (steps s f (ltb→lt s.buffer.bytes_parsed (size s.buffer) more)))
      ]
    where
      after :
          ((t : Framed P)
            → IsFramed t
            → size t.buffer < t.buffer.bytes_parsed + fuel
            → (r : Outcome (Logged P)) × (frame_loop round fuel t ≡ some r) × LoopResult t r)
          → (m : Outcome (Round P)) → RoundResult s m
          → (r : Outcome (Logged P)) × ((elim m [
            | ok x ↦ elim x [
              | stops t ↦ some (ok (record { final = t; error = false }))
              | refuses t ↦ some (ok (record { final = t; error = true }))
              | goes_on t ↦ frame_loop round fuel t
            ]
            | aborted ↦ some aborted
            | exited ↦ some exited
          ])
              ≡ some r)
            × LoopResult s r
      after rest (ok (stops t)) (a, settled) = (_, refl, (a, λ _. settled))
      after rest (ok (refuses t)) a = (_, refl, (a, λ (e : true ≡ false). cc))
      after rest (ok (goes_on t)) (a, more) =
          let (r, ends, l) = rest t a.framed (
            omega (
              arith,
              size_exact f.valid,
              size_exact a.framed.valid,
              a.read_kept,
              a.written_kept,
            )) in
          (r, ends, LoopResult-trans r a l)
      after rest aborted h = (aborted, refl, tt)
      after rest exited h = (exited, refl, tt)

module _ {P : Type 0} (parsers : MessageParsers P) (little_endian : Bool) where
  start-IsFramed :
      (p : P) (conn : Connection) (b : SocketBuffer)
      → IsValid b
      → 0 < b.next_message_sz
      → IsFramed (start p conn b)
  start-IsFramed p conn b v h = record { valid = v; within = omega arith; some_bytes = h }

  -- From a valid buffer that waits for no empty message, whatever bytes a client sends and whatever
  -- the message parsers answer, the loop ends within its fuel, and what it leaves is as
  -- `LoopResult` says.
  pub log_client_messages_lem :
      (p : P) (conn : Connection) (b : SocketBuffer)
      → IsValid b
      → 0 < b.next_message_sz
      → (r : Outcome (Logged P)) × (log_client_messages parsers little_endian p conn b ≡ some r)
        × LoopResult (start p conn b) r
  unfolding log_client_messages client_round
  log_client_messages_lem p conn b v h =
      frame_loop_lem (round_of (size_client little_endian) (log_client parsers little_endian))
        (λ s f more.
          round_of-RoundResult (size_client little_endian) (log_client parsers little_endian) s
            (size_client-SetsSize little_endian) (log_client-TakesBytes parsers little_endian) f
            more)
        (suc (size b)) (start p conn b) (start-IsFramed p conn b v h) (omega arith)

  -- From a valid buffer that waits for no empty message, whatever bytes the server sends and
  -- whatever the message parsers answer and write, the loop ends within its fuel, and what it
  -- leaves is as `LoopResult` says.
  pub log_server_messages_lem :
      (p : P) (conn : Connection) (b : SocketBuffer)
      → IsValid b
      → 0 < b.next_message_sz
      → (r : Outcome (Logged P)) × (log_server_messages parsers little_endian p conn b ≡ some r)
        × LoopResult (start p conn b) r
  unfolding log_server_messages server_round
  log_server_messages_lem p conn b v h =
      frame_loop_lem (round_of (size_server little_endian) (log_server parsers little_endian))
        (λ s f more.
          round_of-RoundResult (size_server little_endian) (log_server parsers little_endian) s
            (size_server-SetsSize little_endian) (log_server-TakesBytes parsers little_endian) f
            more)
        (suc (size b)) (start p conn b) (start-IsFramed p conn b v h) (omega arith)
