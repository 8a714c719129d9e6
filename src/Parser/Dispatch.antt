-- ===== src/Parser/Dispatch.antt =====
-- `_logRequest`, `_logReply`, `_logEvent` and `_logError` of src/X11ProtocolParser.cpp: which function a
-- message goes to, with the functions themselves. `_major_opcodes` starts as the core requests.
pub mod Requests
pub mod Replies
use xtracepp.Base.{
  ℕ, Bool, true, false, List, ◌==◌, if◌then◌else◌, Option, none, some, Outcome, ok, ◌>>=◌, find,
}
use xtracepp.Session.{Connection}
use xtracepp.Settings.{Choices}
use xtracepp.Parser.Messages.{MessageParsers}
use xtracepp.Parser.Requests.{RequestParser}
use xtracepp.Parser.Requests.Core.{parse_request, parse_unknown_request}
use xtracepp.Parser.Replies.{ReplyParser}
use xtracepp.Parser.Replies.Core.{is_core_request, parse_reply_to, parse_unknown_reply}
use xtracepp.Parser.Events.{event_at}
use xtracepp.Parser.Errors.{error_at}
use xtracepp.Parser.Requests.Properties.{parse_event}
use xtracepp.Parser.Stash.{Extension, big_requests, ParserState}
use xtracepp.Parser.Extensions.{
  StateRequest, StateReply, intern_atom_request, query_extension_request, intern_atom_reply_changes,
  query_extension_reply_changes, parse_big_req_enable, big_req_enable_reply_changes,
}

-- A function that changes nothing.
abbrev pub unchanged_request : RequestParser → StateRequest
unchanged_request parser p conn d sz = do
  bytes_parsed ← parser conn d sz
  ok (p, conn, bytes_parsed)

abbrev pub unchanged_reply : ReplyParser → StateReply
unchanged_reply parser p conn d sz = do
  bytes_parsed ← parser conn d sz
  ok (p, conn, d, bytes_parsed)

module _ (little_endian : Bool) where
  unfoldable pub core_request : ℕ → StateRequest
  unfolding intern_atom_request query_extension_request parse_request
  core_request major =
      if major == 16
      then intern_atom_request little_endian
      else if major == 98
      then query_extension_request little_endian
      else unchanged_request (parse_request little_endian (event_at little_endian) major)

  -- Of an extension that has the major opcode, the minor opcode selects the function.
  unfoldable pub extension_request_to : Option Extension → ℕ → StateRequest
  unfolding parse_big_req_enable parse_unknown_request
  extension_request_to none minor =
      unchanged_request (parse_unknown_request little_endian (event_at little_endian))
  extension_request_to (some big_requests) minor =
      if minor == 0
      then unchanged_request (parse_big_req_enable little_endian)
      else unchanged_request (parse_unknown_request little_endian (event_at little_endian))

  unfoldable pub core_reply : Choices → ℕ → StateReply
  unfolding intern_atom_reply_changes query_extension_reply_changes parse_reply_to
  core_reply choices major =
      if major == 16
      then intern_atom_reply_changes little_endian
      else if major == 98
      then query_extension_reply_changes little_endian choices
      else unchanged_reply (parse_reply_to little_endian major)

  unfoldable pub extension_reply_to : Option Extension → ℕ → StateReply
  unfolding big_req_enable_reply_changes parse_unknown_reply
  extension_reply_to none minor = unchanged_reply (parse_unknown_reply little_endian)
  extension_reply_to (some big_requests) minor =
      if minor == 0
      then big_req_enable_reply_changes little_endian
      else unchanged_reply (parse_unknown_reply little_endian)

  -- The functions that the dispatch calls, with the settings.
  unfoldable pub message_parsers : Choices → MessageParsers ParserState
  unfolding core_request extension_request_to core_reply extension_reply_to event_at error_at
      parse_event is_core_request find
  message_parsers choices = record {
    request = λ major minor p conn d sz.
        if is_core_request major
        then core_request major p conn d sz
        else extension_request_to (find major p.major_opcodes) minor p conn d sz;
    reply = λ major minor p conn d sz.
        if is_core_request major
        then core_reply choices major p conn d sz
        else extension_reply_to (find major p.major_opcodes) minor p conn d sz;
    event = λ code p conn d sz. parse_event little_endian (event_at little_endian) conn d sz;
    error = λ code p conn d sz. error_at little_endian code conn d sz;
  }
