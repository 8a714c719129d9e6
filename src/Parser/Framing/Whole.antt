-- ===== src/Parser/Framing/Whole.antt =====
-- src/X11ProtocolParser.cpp: a round of `logClientMessages` on a request of an open connection.
use xtracepp.Base.{
  ℕ, ◌+◌, ◌≤◌, ◌≡◌, refl, sym, ap, ◌∙◌, Bool, true, false, List, [], ◌++◌, arith, leb, ◌==◌, le→leb,
  ==_iff, length, length-append, length-take, length-drop, take, drop, drop-drop, drop-take,
  drop-append_length, some, Outcome, ok, ◌>>=◌, add_size, add_size_exact,
}
use xtracepp.Buffer.{
  unknown_sz, size, unparsed, message_size_set, incomplete_message, mark_message_parsed,
}
use xtracepp.Buffer.Bytes.{blit_same}
use xtracepp.Buffer.Wellformed.{IsValid, size_exact, unparsed_exact}
use xtracepp.Session.{Connection, Status, open_, next_sequence, register_request}
use xtracepp.Parser.Fields.{Order, u8}
use xtracepp.Parser.Messages.{MessageParsers, order_of, log_request}
use xtracepp.Parser.Framing.{
  Framed, stops, goes_on, bytes_from, size_client, log_client, finish_message, finish_round,
  round_of, client_round, sized_round,
}
use xtracepp.Parser.Framing.Requests.{
  request_size, header_sz, IsRequest, IsCut, request_size-lt, size_request_lem,
}

-- What is documented of the functions that parse requests: they take a message whole, and leave the
-- state, the byte order and the sequence number of the connection.
pub record TakesWhole {P : Type 0} (parsers : MessageParsers P) : Type 0 where
  pub after : ℕ → ℕ → P → Connection → List ℕ → ℕ → P × Connection
  pub answers :
      (major minor : ℕ) (p : P) (conn : Connection) (d : List ℕ) (sz : ℕ)
      → let (q, c) = after major minor p conn d sz in
        (parsers.request major minor p conn d sz ≡ ok (q, c, sz))
        × (c.status ≡ conn.status)
        × (c.byteswap ≡ conn.byteswap)
        × (c.sequence ≡ conn.sequence)

module _ {P : Type 0} where
  -- The bytes that are left to parse.
  abbrev pub pending : Framed P → List ℕ
  pending s = take (unparsed s.buffer) (bytes_from s.buffer s.data_)

  finish_round_whole :
      (log : Status → P → Connection → List ℕ → ℕ → Outcome (P × Connection × List ℕ × ℕ))
      (s : Framed P)
      → message_size_set s.buffer ≡ true
      → incomplete_message s.buffer ≡ false
      → finish_round log s ≡ (
          log s.conn.status s.parser s.conn (bytes_from s.buffer s.data_) s.buffer.next_message_sz
          >>= finish_message s)
  unfolding finish_round
  finish_round_whole log s is_set whole = rw (whole, is_set) refl

  pub finish_round_cut :
      (log : Status → P → Connection → List ℕ → ℕ → Outcome (P × Connection × List ℕ × ℕ))
      (s : Framed P)
      → message_size_set s.buffer ≡ true
      → incomplete_message s.buffer ≡ true
      → finish_round log s ≡ ok (stops s)
  unfolding finish_round
  finish_round_cut log s is_set waits = rw (waits, is_set) refl

  -- Between two requests of an open connection.
  pub record IsReady (s : Framed P) : Type 0 where
    pub valid : IsValid s.buffer
    pub at_parsed : s.data_ ≡ s.buffer.bytes_written + s.buffer.bytes_parsed
    pub unset : s.buffer.next_message_sz ≡ unknown_sz
    pub at_open : s.conn.status ≡ open_

  abbrev pub order : Bool → Framed P → Order
  order little_endian s = order_of little_endian s.conn

  -- The next state holds what follows the request.
  pub record Parsed (s : Framed P) (m rest : List ℕ) (t : Framed P) : Type 0 where
    pub ready : IsReady t
    pub left : pending t ≡ rest
    pub swap_kept : t.conn.byteswap ≡ s.conn.byteswap
    pub numbered : t.conn.sequence ≡ next_sequence s.conn.sequence
    pub counted : t.total ≡ s.total + length m
    pub storage_kept : t.buffer.storage ≡ s.buffer.storage
    pub shorter : unparsed t.buffer + length m ≡ unparsed s.buffer
    pub marked : t.buffer.bytes_parsed ≡ s.buffer.bytes_parsed + length m
    pub size_kept : size t.buffer ≡ size s.buffer

module _ {P : Type 0} (parsers : MessageParsers P) (takes : TakesWhole parsers)
    (little_endian : Bool) where
  module _ (s : Framed P) (m rest : List ℕ) (r : IsReady s) (e : pending s ≡ m ++ rest) where
    abbrev pub sz : ℕ
    sz = length m

    abbrev pub d : List ℕ
    d = bytes_from s.buffer s.data_

    enough : sz + length rest ≡ unparsed s.buffer
    enough = omega (
      arith,
      ap length e,
      length-append m rest,
      length-take (unparsed s.buffer) d,
      length-drop s.data_ s.buffer.storage,
      unparsed_exact r.valid,
      r.valid.stored,
      r.valid.parsed_within,
      r.at_parsed,
    )

    abbrev pub sized : Framed P
    sized = record s {
      buffer = record s.buffer { next_message_sz = request_size (order little_endian s) m };
    }

    size_client_lem :
        4 ≤ sz
        → header_sz (order little_endian s) m ≤ sz
        → size_client little_endian s.conn.status s.conn s.buffer d
          ≡ ok (some (s.conn, sized.buffer))
    unfolding size_client
    size_client_lem h k =
        ap (λ (t : Status). size_client little_endian t s.conn s.buffer d) r.at_open
        ∙ size_request_lem (unparsed s.buffer) little_endian s.conn s.buffer d m rest r.unset e h k
            (omega (arith, enough, size_exact r.valid, unparsed_exact r.valid))

    client_round-sized :
        4 ≤ sz
        → header_sz (order little_endian s) m ≤ sz
        → client_round parsers little_endian s
          ≡ finish_round (log_client parsers little_endian) sized
    unfolding client_round round_of message_size_set
    client_round-sized h k =
        let free : (s.buffer.next_message_sz == unknown_sz) ≡ true = (==_iff _ _).1 r.unset in
        rw free (ap (sized_round (log_client parsers little_endian) s) (size_client_lem h k))

    sized_set : message_size_set sized.buffer ≡ true
    unfolding message_size_set
    sized_set = ground (arith, request_size-lt (order little_endian s) m)

    -- A whole request is parsed.
    module _ (h : IsRequest (order little_endian s) m) where
      abbrev pub next : P × Connection → Framed P
      next (q, c) = record {
        parser = q;
        conn = c;
        buffer = record s.buffer {
          bytes_parsed = s.buffer.bytes_parsed + sz;
          next_message_sz = unknown_sz;
        };
        data_ = s.data_ + sz;
        total = s.total + sz;
      }

      finish_message_lem :
          (r' : P × Connection) → finish_message sized (r'.0, r'.1, d, sz) ≡ ok (goes_on (next r'))
      unfolding finish_message mark_message_parsed
      finish_message_lem r' =
          let fits : add_size s.buffer.bytes_parsed sz ≡ s.buffer.bytes_parsed + sz =
            add_size_exact _ sz (
              omega (
                arith,
                enough,
                unparsed_exact r.valid,
                r.valid.parsed_within,
                r.valid.stored,
                r.valid.bounded,
              )) in
          let inside : leb (s.buffer.bytes_parsed + sz) (size s.buffer) ≡ true = le→leb _ _ (
            omega
              (arith, enough, unparsed_exact r.valid, size_exact r.valid, r.valid.parsed_within)) in
          let same = (==_iff sz sz).1 refl in
          rw
            (
              sized_set,
              sym h.whole,
              same,
              fits,
              inside,
              blit_same s.buffer.storage s.data_ sz (
                  omega (
                    arith,
                    enough,
                    unparsed_exact r.valid,
                    r.valid.parsed_within,
                    r.valid.stored,
                    r.at_parsed,
                  )),
            )
            refl

      abbrev pub registered : Connection
      registered = (register_request s.conn (u8 (order little_endian s) d 0) 0).0

      abbrev pub answer : P × Connection
      answer =
          takes.after (u8 (order little_endian s) d 0) (u8 (order little_endian s) d 1) s.parser
            registered d sz

      log_client_lem :
          log_client parsers little_endian s.conn.status s.parser s.conn d sz
          ≡ ok (answer.0, answer.1, d, sz)
      unfolding log_client log_request
      log_client_lem =
          let four : leb 4 sz ≡ true = le→leb 4 sz h.has_prefix in
          let some_bytes : (sz == 0) ≡ false = ground (arith, h.has_prefix) in
          let all : leb sz sz ≡ true = le→leb sz sz (omega arith) in
          let (answered, _, _, _) =
            takes.answers (u8 (order little_endian s) d 0) (u8 (order little_endian s) d 1) s.parser
              registered d sz in
          ap (λ (t : Status). log_client parsers little_endian t s.parser s.conn d sz) r.at_open
          ∙ rw (four, answered, some_bytes, all) refl

      sized_whole : incomplete_message sized.buffer ≡ false
      unfolding incomplete_message unparsed size message_size_set
      sized_whole =
          ground (arith, enough, h.whole, h.has_prefix, request_size-lt (order little_endian s) m)

      pub client_round_request : client_round parsers little_endian s ≡ ok (goes_on (next answer))
      client_round_request =
          client_round-sized h.has_prefix h.has_header
          ∙ finish_round_whole (log_client parsers little_endian) sized sized_set sized_whole
          ∙ ap
              (λ (n : ℕ).
                log_client parsers little_endian s.conn.status s.parser s.conn d n
                >>= finish_message sized)
              (sym h.whole)
          ∙ ap (λ m. m >>= finish_message sized) log_client_lem
          ∙ finish_message_lem answer

      pub next-Parsed : Parsed s m rest (next answer)
      next-Parsed =
          let (_, status_kept, swap, number) =
            takes.answers (u8 (order little_endian s) d 0) (u8 (order little_endian s) d 1) s.parser
              registered d sz in
          let v : IsValid (next answer).buffer = record {
            parsed_within = omega (arith, enough, unparsed_exact r.valid, r.valid.parsed_within);
            stored = r.valid.stored;
            bounded = r.valid.bounded;
            message_bounded = omega arith;
            reset = r.valid.reset;
          } in
          let fewer : unparsed (next answer).buffer ≡ length rest =
            omega (arith, enough, unparsed_exact r.valid, unparsed_exact v) in
          record {
            ready = record {
              valid = v;
              at_parsed = omega (arith, r.at_parsed);
              unset = refl;
              at_open = status_kept ∙ unfold register_request in r.at_open;
            };
            left =
                ap (λ (t : ℕ). take t (drop (s.data_ + sz) s.buffer.storage)) fewer
                ∙ ap (take (length rest))
                    (sym (drop-drop s.data_ sz (s.data_ + sz) s.buffer.storage refl))
                ∙ sym (drop-take sz (length rest) (unparsed s.buffer) d enough)
                ∙ ap (drop sz) e
                ∙ drop-append_length m rest;
            swap_kept = swap ∙ unfold register_request in refl;
            numbered = number ∙ unfold register_request in refl;
            counted = refl;
            storage_kept = refl;
            shorter = omega (arith, enough);
            marked = refl;
            size_kept = omega (arith, size_exact v, size_exact r.valid);
          }

    -- A request that is cut off stops the loop.
    module _ (h : IsCut (order little_endian s) m) (z : rest ≡ []) where
      pub cut_waits : incomplete_message sized.buffer ≡ true
      unfolding incomplete_message unparsed size
      cut_waits = ground (arith, enough, ap length z, h.cut, h.has_prefix, sized_set)

      pub client_round_cut : client_round parsers little_endian s ≡ ok (stops sized)
      client_round_cut =
          client_round-sized h.has_prefix h.has_header
          ∙ finish_round_cut (log_client parsers little_endian) sized sized_set cut_waits
