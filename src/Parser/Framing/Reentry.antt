-- ===== src/Parser/Framing/Reentry.antt =====
-- src/X11ProtocolParser.cpp: `logClientMessages` on a buffer that still holds parsed bytes.
use xtracepp.Base.{
  ℕ, ◌+◌, ◌-◌, ◌<◌, ◌≡◌, sym, ap, ◌∙◌, Bool, true, false, List, ◌++◌, arith, ◌==◌, ==_iff, length,
  length-append, drop, some, ok,
}
use xtracepp.Buffer.{
  SocketBuffer, unknown_sz, size, unparsed, message_size_set, incomplete_message, contents,
}
use xtracepp.Buffer.Wellformed.{IsValid, size_exact, unparsed_exact}
use xtracepp.Buffer.Transfer.{length-contents}
use xtracepp.Session.{Connection, Status, open_}
use xtracepp.Parser.Messages.{MessageParsers, order_of}
use xtracepp.Parser.Framing.{
  Framed, stops, start, size_client, log_client, round_of, sized_round, client_round,
  log_client_messages,
}
use xtracepp.Parser.Framing.Requests.{IsRequest, request_size-lt, size_request_lem}
use xtracepp.Parser.Framing.Whole.{finish_round_cut}
use xtracepp.Parser.Framing.Streams.{loop_stops}

lacks_bytes :
    (b : SocketBuffer)
    → IsValid b
    → (sz left : ℕ) → sz + left ≡ b.bytes_read - b.bytes_written
    → b.bytes_parsed ≡ sz
    → 0 < left
    → left < sz
    → message_size_set (record b { next_message_sz = sz }) ≡ true
    → incomplete_message (record b { next_message_sz = sz }) ≡ true
unfolding incomplete_message unparsed size
lacks_bytes b v sz left total parsed some_left shorter known =
    ground (arith, known, size_exact v, unparsed_exact v, v.parsed_within, v.stored, v.bounded)

module _ {P : Type 0} (parsers : MessageParsers P) (little_endian : Bool) where
  module _ (m rest : List ℕ) (p : P) (conn : Connection) (b : SocketBuffer) (v : IsValid b) where
    abbrev pub waiting : Framed P
    waiting = record (start p conn b) { buffer = record b { next_message_sz = length m } }

    waiting_round :
        conn.status ≡ open_
        → b.next_message_sz ≡ unknown_sz
        → contents b ≡ m ++ rest
        → IsRequest (order_of little_endian conn) m
        → b.bytes_parsed ≡ length m
        → 0 < length rest
        → length rest < length m
        → client_round parsers little_endian (start p conn b) ≡ ok (stops waiting)
    unfolding client_round round_of message_size_set size_client
    waiting_round at_open unset holds h parsed some_rest shorter =
        let free : (b.next_message_sz == unknown_sz) ≡ true = (==_iff _ _).1 unset in
        let d : List ℕ = drop b.bytes_written b.storage in
        let total : length m + length rest ≡ b.bytes_read - b.bytes_written =
          omega (arith, sym (length-append m rest), ap length holds, length-contents v) in
        let sized : size_client little_endian conn.status conn b d
            ≡ ok (some (conn, record b { next_message_sz = length m })) =
          ap (λ (t : Status). size_client little_endian t conn b d) at_open
          ∙ size_request_lem (size b) little_endian conn b d m rest unset (unfold contents in holds)
              h.has_prefix h.has_header (omega (arith, size_exact v))
          ∙ ap (λ (n : ℕ). ok (some (conn, record b { next_message_sz = n }))) (sym h.whole) in
        let known : message_size_set waiting.buffer ≡ true =
          ground (arith, h.whole, request_size-lt (order_of little_endian conn) m) in
        let lacks : incomplete_message waiting.buffer ≡ true =
          lacks_bytes b v (length m) (length rest) total parsed some_rest shorter known in
        rw free (
          ap (sized_round (log_client parsers little_endian) (start p conn b)) sized
          ∙ finish_round_cut (log_client parsers little_endian) waiting known lacks)

    -- A parsed request that is not yet written is taken for the next one: as long as fewer bytes follow
    -- it than it has, the loop waits for as many, whole requests among them or not.
    pub log_client_messages_reentry :
        conn.status ≡ open_
        → b.next_message_sz ≡ unknown_sz
        → contents b ≡ m ++ rest
        → IsRequest (order_of little_endian conn) m
        → b.bytes_parsed ≡ length m
        → 0 < length rest
        → length rest < length m
        → log_client_messages parsers little_endian p conn b
          ≡ some (ok (record { final = waiting; error = false }))
    unfolding log_client_messages
    log_client_messages_reentry at_open unset holds h parsed some_rest shorter =
        loop_stops parsers little_endian (size b) (start p conn b) waiting
          (omega
            (arith, sym (length-append m rest), ap length holds, length-contents v, size_exact v))
          (waiting_round at_open unset holds h parsed some_rest shorter)
