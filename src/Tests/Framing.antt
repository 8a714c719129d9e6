-- ===== src/Tests/Framing.antt =====
-- Cutting byte streams into messages at concrete inputs.
use xtracepp.Base.{
  false, ℕ, ◌≡◌, refl, true, List, [], ◌∷◌, ◌++◌, arith, some, Outcome, ok, sub_size,
}
use xtracepp.Buffer.{
  SocketBuffer, unknown_sz, size, contents, set_message_size, message_size_set, incomplete_message,
  unparsed,
}
use xtracepp.Buffer.Wellformed.{IsValid}
use xtracepp.Wire.Alignment.{aligned_size}
use xtracepp.Wire.ByteOrder.{field16, ordered16}
use xtracepp.Session.{Connection, open_, new_connection}
use xtracepp.Parser.Fields.{u16}
use xtracepp.Parser.Messages.{MessageParsers}
use xtracepp.Parser.Framing.{
  frame_loop, client_round, round_of, finish_round, size_client, size_request, Logged, start,
  log_client_messages, log_server_messages,
}
use xtracepp.Parser.Framing.Requests.{request_size}
use xtracepp.Parser.Framing.Whole.{TakesWhole}
use xtracepp.Parser.Framing.Reentry.{log_client_messages_reentry}
use xtracepp.Parser.Framing.Loops.{LoopResult, log_client_messages_lem, log_server_messages_lem}

-- Parsers that take every message whole and keep no state.
abbrev whole_messages : MessageParsers (Unit {0})
whole_messages = record {
  request = λ major minor p conn d sz. ok (p, conn, sz);
  reply = λ major minor p conn d sz. ok (p, conn, d, sz);
  event = λ code p conn d sz. ok sz;
  error = λ code p conn d sz. ok sz;
}

abbrev takes_whole : TakesWhole whole_messages
takes_whole = record {
  after = λ major minor p conn d sz. (p, conn);
  answers = λ major minor p conn d sz. (refl, refl, refl, refl);
}

abbrev opened : Connection
opened = record (new_connection 0).0 { status = open_ }

abbrev first_request : List ℕ
first_request = 55 ∷ 0 ∷ 2 ∷ 0 ∷ 9 ∷ 9 ∷ 9 ∷ 9 ∷ []

abbrev second_request : List ℕ
second_request = 43 ∷ 0 ∷ 1 ∷ 0 ∷ []

-- Four bytes of a request of eight.
abbrev cut_request : List ℕ
cut_request = 16 ∷ 0 ∷ 2 ∷ 0 ∷ []

abbrev requests : SocketBuffer
requests = record {
  storage = first_request ++ (second_request ++ cut_request);
  bytes_read = 16;
  bytes_parsed = 0;
  bytes_written = 0;
  next_message_sz = unknown_sz;
}

abbrev requests_valid : IsValid requests
requests_valid = record {
  parsed_within = omega arith;
  stored = omega arith;
  bounded = omega arith;
  message_bounded = omega arith;
  reset = λ e. absurd (omega arith);
}

log_client_messages_lem_example :
    (r : Outcome (Logged (Unit {0}))) × (log_client_messages whole_messages true tt opened requests
      ≡ some r)
    × LoopResult (start tt opened requests) r
log_client_messages_lem_example =
    log_client_messages_lem whole_messages true tt opened requests requests_valid (omega arith)

log_server_messages_lem_example :
    (r : Outcome (Logged (Unit {0}))) × (log_server_messages whole_messages true tt opened requests
      ≡ some r)
    × LoopResult (start tt opened requests) r
log_server_messages_lem_example =
    log_server_messages_lem whole_messages true tt opened requests requests_valid (omega arith)

-- One request is parsed and not yet written when the next one comes in whole.
abbrev parsed_and_whole : SocketBuffer
parsed_and_whole = record {
  storage = first_request ++ second_request;
  bytes_read = 12;
  bytes_parsed = 8;
  bytes_written = 0;
  next_message_sz = unknown_sz;
}

abbrev parsed_and_whole_valid : IsValid parsed_and_whole
parsed_and_whole_valid = record {
  parsed_within = omega arith;
  stored = omega arith;
  bounded = omega arith;
  message_bounded = omega arith;
  reset = λ e. absurd (omega arith);
}

log_client_messages_reentry_example :
    log_client_messages whole_messages true tt opened parsed_and_whole
    ≡ some (
        ok (record {
          final = record (start tt opened parsed_and_whole) {
            buffer = record parsed_and_whole { next_message_sz = 8 };
          };
          error = false;
        }))
unfolding contents size sub_size request_size field16 u16 ordered16 aligned_size new_connection
log_client_messages_reentry_example =
    log_client_messages_reentry whole_messages true first_request second_request tt opened
      parsed_and_whole parsed_and_whole_valid refl refl refl
      (record { has_prefix = omega arith; has_header = omega arith; whole = refl }) refl
      (omega arith) (omega arith)

-- The loop starts at the first byte that is not written, finds the size of the parsed request again,
-- and waits for 8 bytes though the whole next request is there.
whole_request_waits :
    log_client_messages whole_messages true tt opened parsed_and_whole
    ≡ some (
        ok (record {
          final = record (start tt opened parsed_and_whole) {
            buffer = record parsed_and_whole { next_message_sz = 8 };
          };
          error = false;
        }))
unfolding log_client_messages frame_loop client_round round_of finish_round size_client size_request
    set_message_size message_size_set incomplete_message unparsed size sub_size field16 u16
    ordered16 aligned_size new_connection
whole_request_waits = refl
