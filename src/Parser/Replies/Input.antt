-- ===== src/Parser/Replies/Input.antt =====
-- src/X11ProtocolParser__parseReply.cpp: replies on grabs, the pointer and the input focus.
use xtracepp.Base.{Bool, [], ◌∷◌}
use xtracepp.Protocol.Replies.Input.{
  grab_pointer_reply, grab_keyboard_reply, query_pointer_reply, get_motion_events_reply,
  translate_coordinates_reply, get_input_focus_reply, query_keymap_reply,
}
use xtracepp.Parser.ListMembers.{parse_fixed}
use xtracepp.Parser.Replies.{ReplyParser, raw_reply_member, parse_reply}
use xtracepp.Parser.Replies.Suffixes.{nothing_more, reply_list}

module _ (little_endian : Bool) where
  unfoldable pub parse_grab_pointer_reply : ReplyParser
  parse_grab_pointer_reply =
      parse_reply little_endian grab_pointer_reply nothing_more ("header.status" ∷ [])

  unfoldable pub parse_grab_keyboard_reply : ReplyParser
  parse_grab_keyboard_reply =
      parse_reply little_endian grab_keyboard_reply nothing_more ("header.status" ∷ [])

  unfoldable pub parse_query_pointer_reply : ReplyParser
  parse_query_pointer_reply = parse_reply little_endian query_pointer_reply nothing_more (
      "header.same_screen" ∷ "root" ∷ "child" ∷ "root_x" ∷ "root_y" ∷ "win_x" ∷ "win_y" ∷ "mask"
      ∷ [])

  unfoldable pub parse_get_motion_events_reply : ReplyParser
  parse_get_motion_events_reply =
      parse_reply little_endian get_motion_events_reply
        (reply_list (λ o. parse_fixed 8) (λ r. raw_reply_member r "events_ct")) []

  unfoldable pub parse_translate_coordinates_reply : ReplyParser
  parse_translate_coordinates_reply =
      parse_reply little_endian translate_coordinates_reply nothing_more
        ("header.same_screen" ∷ "child" ∷ "dst_x" ∷ "dst_y" ∷ [])

  unfoldable pub parse_get_input_focus_reply : ReplyParser
  parse_get_input_focus_reply =
      parse_reply little_endian get_input_focus_reply nothing_more
        ("header.revert_to" ∷ "focus" ∷ [])

  unfoldable pub parse_query_keymap_reply : ReplyParser
  parse_query_keymap_reply = parse_reply little_endian query_keymap_reply nothing_more []
