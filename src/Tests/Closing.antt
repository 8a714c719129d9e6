-- ===== src/Tests/Closing.antt =====
-- Replies, errors and the server's first answer at concrete inputs.
use xtracepp.Base.{
  ℕ, ◌≡◌, refl, true, not, ◌||◌, List, [], ◌∷◌, replicate, ok, aborted, if◌then◌else◌, ◌==◌, find,
  add_size,
}
use xtracepp.Wire.Alignment.{pad, units}
use xtracepp.Wire.ByteOrder.{field16, ordered8, ordered16}
use xtracepp.Session.{
  Connection, open_, new_connection, lookup_request, unregister_request, RequestOpcodes,
}
use xtracepp.Parser.Fields.{u8, u16}
use xtracepp.Parser.ListMembers.{parse_list_of, parse_list_from}
use xtracepp.Parser.Setup.{log_init_response, log_acceptance}
use xtracepp.Parser.Messages.{MessageParsers, order_of, log_reply, log_error, list_fonts_with_info}
use xtracepp.Parser.Framing.{log_server}
use xtracepp.Parser.Closing.{log_error-lookup_request, log_reply_lem, log_server_opens}

-- Parsers that take every message whole and keep no state.
abbrev taking : MessageParsers (Unit {0})
taking = record {
  request = λ major minor p conn d sz. ok (p, conn, sz);
  reply = λ major minor p conn d sz. ok (p, conn, d, sz);
  event = λ code p conn d sz. ok sz;
  error = λ code p conn d sz. ok sz;
}

-- GetInputFocus, the request 7, is open.
abbrev focus : RequestOpcodes
focus = record { major = 43; minor = 0 }

abbrev asked : Connection
asked = record (new_connection 0).0 { status = open_; request_opcodes_by_seq_num = (7, focus) ∷ [] }

abbrev error_seven : List ℕ
error_seven = 0 ∷ 1 ∷ 7 ∷ 0 ∷ replicate 28 0

abbrev reply_seven : List ℕ
reply_seven = 1 ∷ 0 ∷ 7 ∷ 0 ∷ replicate 28 0

abbrev reply_eight : List ℕ
reply_eight = 1 ∷ 0 ∷ 8 ∷ 0 ∷ replicate 28 0

log_error-lookup_request_example :
    lookup_request (unregister_request asked 7) 7
    ≡ (if u16 (order_of true asked) error_seven 2 == 7 then aborted else lookup_request asked 7)
unfolding log_error u8 u16 ordered8 ordered16 field16 new_connection
log_error-lookup_request_example =
    log_error-lookup_request taking true tt asked (unregister_request asked 7) error_seven 32 32 7
      refl

log_reply_lem_example :
    (opcodes : RequestOpcodes) × (after : Connection) × (lookup_request asked
        (u16 (order_of true asked) reply_seven 2)
      ≡ ok opcodes)
    × (taking.reply opcodes.major opcodes.minor tt asked reply_seven 32
        ≡ ok (tt, after, reply_seven, 32))
    × ((j : ℕ)
        → lookup_request (unregister_request asked 7) j ≡ (
            if not (opcodes.major == list_fonts_with_info)
              || u8 (order_of true asked) reply_seven 1 == 0
            then (if u16 (order_of true asked) reply_seven 2 == j
                then aborted
                else lookup_request after j)
            else lookup_request after j))
unfolding log_reply lookup_request u8 u16 ordered8 ordered16 field16 find new_connection
log_reply_lem_example =
    log_reply_lem taking true tt tt asked (unregister_request asked 7) reply_seven reply_seven 32 32
      refl

-- An acceptance of protocol 11.0 with no vendor, no formats and no screens.
abbrev accepted : List ℕ
accepted = 1 ∷ 0 ∷ 11 ∷ 0 ∷ 0 ∷ 0 ∷ 8 ∷ 0 ∷ replicate 32 0

abbrev started : Connection
started = (new_connection 0).0

log_server_opens_example : (open_ ≡ open_) × (u8 (order_of true started) accepted 0 ≡ 1)
unfolding log_server log_init_response log_acceptance u8 u16 ordered8 ordered16 field16
    new_connection parse_list_of parse_list_from pad units add_size
log_server_opens_example =
    log_server_opens taking true tt started accepted 40
      (tt, record started { status = open_ }, accepted, 40) refl refl
