-- ===== src/Parser/Framing/Streams.antt =====
-- src/X11ProtocolParser.cpp: `logClientMessages` on a stream of requests of an open connection.
use xtracepp.Base.{
  ℕ, suc, ◌+◌, ◌<◌, ◌≡◌, refl, Bool, false, List, [], ◌∷◌, ◌++◌, lt→ltb, length, some, ok,
}
use xtracepp.Buffer.{size}
use xtracepp.Session.{next_sequence}
use xtracepp.Parser.Messages.{MessageParsers}
use xtracepp.Parser.Framing.{Framed, Logged, frame_loop, client_round, stops}
use xtracepp.Parser.Framing.Whole.{pending}

-- The requests one behind the other, and then `tail`.
abbrev pub joined : List (List ℕ) → List ℕ → List ℕ
joined [] tail = tail
joined (m ∷ ms) tail = m ++ joined ms tail

abbrev pub joined_sz : List (List ℕ) → ℕ
joined_sz [] = 0
joined_sz (m ∷ ms) = length m + joined_sz ms

-- The sequence number after as many requests.
abbrev pub numbered : List (List ℕ) → ℕ → ℕ
numbered [] s = s
numbered (m ∷ ms) s = numbered ms (next_sequence s)

module _ {P : Type 0} where
  -- The loop's end: all requests are parsed and numbered, and `tail` waits.
  pub record Finished (s : Framed P) (ms : List (List ℕ)) (tail : List ℕ) (l : Logged P)
      : Type 0 where
    pub no_error : l.error ≡ false
    pub counted : l.final.total ≡ s.total + joined_sz ms
    pub marked : l.final.buffer.bytes_parsed ≡ s.buffer.bytes_parsed + joined_sz ms
    pub numbers : l.final.conn.sequence ≡ numbered ms s.conn.sequence
    pub waits : pending l.final ≡ tail
    pub storage_kept : l.final.buffer.storage ≡ s.buffer.storage

module _ {P : Type 0} (parsers : MessageParsers P) (little_endian : Bool) where
  pub loop_stops :
      (fuel : ℕ) (s t : Framed P)
      → s.buffer.bytes_parsed < size s.buffer
      → client_round parsers little_endian s ≡ ok (stops t)
      → frame_loop (client_round parsers little_endian) (suc fuel) s
        ≡ some (ok (record { final = t; error = false }))
  unfolding frame_loop
  loop_stops fuel s t more e = rw (lt→ltb _ _ more, frame_loop, e) refl
