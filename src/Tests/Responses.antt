-- ===== src/Tests/Responses.antt =====
-- Events, errors, extensions and the dispatch of messages at concrete inputs.
use xtracepp.Parser.Replies.Input.{parse_get_input_focus_reply}
use xtracepp.Parser.Requests.Suffixes.{no_suffix}
use xtracepp.Parser.Requests.{parse_as}
use xtracepp.Parser.Requests.Grabs.{parse_simple_request, parse_get_input_focus}
use xtracepp.Session.Extensions.{known}
use xtracepp.Parser.Replies.Suffixes.{nothing_more}
use xtracepp.Parser.Replies.{parse_reply}
use xtracepp.Base.{
  find, add_size, ℕ, ◌≡◌, ◌≢◌, refl, ◌⊎◌, ◌+◌, ◌%◌, ◌^◌, ◌≤◌, true, false, List, [], ◌∷◌, replicate,
  none, some, ok, aborted, if◌then◌else◌, ◌==◌, ◌&&◌,
}
use xtracepp.Wire.ByteOrder.{field16}
use xtracepp.Wire.Alignment.{aligned_size}
use xtracepp.Session.{
  Connection, RequestOpcodes, open_, new_connection, register_request, lookup_request,
  enable_extension, unregister_request, big_requests_name,
}
use xtracepp.Settings.{no_choices}
use xtracepp.Parser.Fields.{u8, u16, u32}
use xtracepp.Parser.Messages.{order_of, log_request, log_reply}
use xtracepp.Parser.Framing.Requests.{request_size}
use xtracepp.Parser.Requests.Properties.{parse_event}
use xtracepp.Parser.Events.{own_event, parse_no_exposure_event, event_code, event_at}
use xtracepp.Parser.Events.Fixed.{parse_event-core}
use xtracepp.Parser.Errors.{
  any_error, parse_resource_id_error, error_as, parse_window_error, error_at,
}
use xtracepp.Parser.Errors.Fixed.{error_at-core}
use xtracepp.Parser.Stash.{
  View, Memory, ParserState, find_stashed, stash_string, unstash_string, read_view,
}
use xtracepp.Parser.Stash.RoundTrip.{unstash_string-stash_string}
use xtracepp.Parser.Extensions.{
  name_denied, put_byte, query_extension_reply_changes, intern_atom_reply_changes,
  big_req_enable_reply_changes,
}
use xtracepp.Parser.Extensions.Denied.{query_extension_reply_changes_lem}
use xtracepp.Parser.Extensions.Lasting.{
  intern_atom_reply_changes-none, big_req_enable_reply_changes-again,
}
use xtracepp.Parser.Dispatch.{message_parsers}
use xtracepp.Parser.Dispatch.Requests.{log_request-whole}
use xtracepp.Parser.Dispatch.Replies.{log_reply-whole}

abbrev client : Connection
client = (new_connection 0).0

-- NoExposure, of a drawable 5.
abbrev no_exposure : List ℕ
no_exposure = 14 ∷ 0 ∷ 7 ∷ 0 ∷ 5 ∷ replicate 27 0

parse_event-core_example :
    (◌≡◌ {A = ℕ} 32 32)
    × (32 ≤ 32)
    × (2 ≤ event_code true client no_exposure)
    × (event_code true client no_exposure ≤ 34)
unfolding parse_event event_at new_connection parse_no_exposure_event own_event
parse_event-core_example = parse_event-core true client no_exposure 32 32 refl

-- An error of code 3, Window.
abbrev bad_window : List ℕ
bad_window = 0 ∷ 3 ∷ 7 ∷ 0 ∷ 5 ∷ replicate 27 0

error_at-core_example :
    (◌≡◌ {A = ℕ} 32 32)
    × (32 ≤ 32)
    × (u8 (order_of true client) bad_window 0 ≡ 0)
    × (u8 (order_of true client) bad_window 1 ≡ 3)
    × (1 ≤ 3)
    × (3 ≤ 17)
unfolding error_at parse_window_error error_as new_connection parse_resource_id_error any_error
error_at-core_example = error_at-core true 3 client bad_window 32 32 refl

-- Memory holds the letter A everywhere.
abbrev letters : Memory
letters = record { address = λ d. 100; byte = λ a. 65 }

abbrev nothing_stashed : ParserState
nothing_stashed = record { stashed_strings = []; major_opcodes = []; memory = letters }

abbrev five_letters : View
five_letters = record { at = 100; len = 5 }

abbrev name_stashed : ParserState
name_stashed = record nothing_stashed {
  stashed_strings = record { conn_id = 0; seq_num = 7; view = five_letters } ∷ [];
}

unstash_string-stash_string_example :
    (find_stashed 0 7 nothing_stashed.stashed_strings ≡ none)
    × (unstash_string name_stashed 0 7 ≡ ok (five_letters, nothing_stashed))
    × (find_stashed 0 8 name_stashed.stashed_strings ≡ (
        if (0 == 0) && (7 == 8)
        then some five_letters
        else find_stashed 0 8 nothing_stashed.stashed_strings))
unfolding stash_string
unstash_string-stash_string_example =
    unstash_string-stash_string nothing_stashed name_stashed 0 7 0 8 five_letters refl

-- The extension is there for the server, with the major opcode 135.
abbrev present_reply : List ℕ
present_reply = 1 ∷ 0 ∷ 7 ∷ 0 ∷ 0 ∷ 0 ∷ 0 ∷ 0 ∷ 1 ∷ 135 ∷ replicate 22 0

query_extension_reply_changes_lem_example :
    (client ≡ client)
    × (view : View) × (find_stashed client.id
          (u16 (order_of true client) present_reply 2)
          name_stashed.stashed_strings
        ≡ some view)
    × (((name_denied no_choices (read_view letters view) ≡ true)
          × (u8 (order_of true client) (put_byte 8 0 present_reply) 8 ≡ 0)
          × (put_byte 8 0 present_reply ≡ put_byte 8 0 present_reply)
          × (nothing_stashed.major_opcodes ≡ name_stashed.major_opcodes))
        ⊎ ((name_denied no_choices (read_view letters view) ≡ false)
            × (put_byte 8 0 present_reply ≡ present_reply)))
unfolding query_extension_reply_changes parse_reply new_connection nothing_more u32 add_size
query_extension_reply_changes_lem_example =
    query_extension_reply_changes_lem true no_choices name_stashed nothing_stashed client client
      present_reply (put_byte 8 0 present_reply) 32 32 refl

abbrev no_atom : List ℕ
no_atom = 1 ∷ 0 ∷ 7 ∷ 0 ∷ replicate 28 0

intern_atom_reply_changes-none_example :
    stash_string name_stashed client.id (u16 (order_of true client) no_atom 2) five_letters
    ≡ aborted
unfolding intern_atom_reply_changes new_connection parse_reply nothing_more add_size
intern_atom_reply_changes-none_example =
    intern_atom_reply_changes-none true name_stashed name_stashed client client no_atom no_atom 32
      32 five_letters five_letters refl refl refl

big_req_enable_reply_changes-again_example :
    big_req_enable_reply_changes true nothing_stashed
      (enable_extension client big_requests_name)
      no_atom
      32
    ≢ ok (nothing_stashed, client, no_atom, 32)
unfolding big_req_enable_reply_changes known new_connection nothing_more u32 add_size
big_req_enable_reply_changes-again_example =
    big_req_enable_reply_changes-again true nothing_stashed nothing_stashed nothing_stashed client
      (enable_extension client big_requests_name) no_atom no_atom no_atom 32 32 32
      (nothing_stashed, client, no_atom, 32) refl refl

-- GetInputFocus.
abbrev ask_focus : List ℕ
ask_focus = 43 ∷ 0 ∷ 1 ∷ 0 ∷ []

log_request-whole_example :
    (4 % 4 ≡ 0)
    × (4 ≤ 4)
    × ((field16 true ask_focus 2 ≡ 0) ⊎ (4 ≡ request_size (order_of true client) ask_focus))
unfolding log_request message_parsers new_connection parse_get_input_focus parse_as
    parse_simple_request no_suffix add_size
log_request-whole_example =
    log_request-whole true no_choices nothing_stashed nothing_stashed client
      (register_request client 43 0).0 ask_focus 4 4 refl

abbrev asked : Connection
asked = record client {
  status = open_;
  request_opcodes_by_seq_num = (7, record { major = 43; minor = 0 }) ∷ [];
}

log_reply-whole_example :
    (opcodes : RequestOpcodes) × (lookup_request asked (u16 (order_of true asked) no_atom 2)
      ≡ ok opcodes)
    × (32 ≤ 32)
    × ((opcodes.major ≡ 117)
        ⊎ (32 ≡ (32 + aligned_size (u32 (order_of true asked) no_atom 4)) % 2 ^ 32))
unfolding log_reply new_connection find message_parsers parse_get_input_focus_reply nothing_more
    add_size
log_reply-whole_example =
    log_reply-whole true no_choices nothing_stashed nothing_stashed asked
      (unregister_request asked 7) no_atom no_atom 32 32 refl
