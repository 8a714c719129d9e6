-- ===== src/Parser/Replies/Sized/Input.antt =====
-- Replies on grabs, the pointer and the input focus are parsed whole.
use xtracepp.Base.{refl, Bool}
use xtracepp.Protocol.{sizeof_struct}
use xtracepp.Parser.Replies.Whole.{IsWholeReply, parse_reply-IsWhole}
use xtracepp.Parser.Replies.Aligned.{
  parse_fixed-aligned, nothing_more-IsAligned, reply_list-IsAligned,
}
use xtracepp.Parser.Replies.Input.{
  parse_grab_pointer_reply, parse_grab_keyboard_reply, parse_query_pointer_reply,
  parse_get_motion_events_reply, parse_translate_coordinates_reply, parse_get_input_focus_reply,
  parse_query_keymap_reply,
}
use xtracepp.Protocol.Replies.Input.{
  grab_pointer_reply, grab_keyboard_reply, query_pointer_reply, get_motion_events_reply,
  translate_coordinates_reply, get_input_focus_reply, query_keymap_reply,
}

module _ (little_endian : Bool) where
  pub parse_grab_pointer_reply-IsWhole :
      IsWholeReply little_endian (parse_grab_pointer_reply little_endian)
  unfolding parse_grab_pointer_reply sizeof_struct
  parse_grab_pointer_reply-IsWhole =
      parse_reply-IsWhole little_endian grab_pointer_reply _ _ refl nothing_more-IsAligned

  pub parse_grab_keyboard_reply-IsWhole :
      IsWholeReply little_endian (parse_grab_keyboard_reply little_endian)
  unfolding parse_grab_keyboard_reply sizeof_struct
  parse_grab_keyboard_reply-IsWhole =
      parse_reply-IsWhole little_endian grab_keyboard_reply _ _ refl nothing_more-IsAligned

  pub parse_query_pointer_reply-IsWhole :
      IsWholeReply little_endian (parse_query_pointer_reply little_endian)
  unfolding parse_query_pointer_reply sizeof_struct
  parse_query_pointer_reply-IsWhole =
      parse_reply-IsWhole little_endian query_pointer_reply _ _ refl nothing_more-IsAligned

  pub parse_get_motion_events_reply-IsWhole :
      IsWholeReply little_endian (parse_get_motion_events_reply little_endian)
  unfolding parse_get_motion_events_reply sizeof_struct
  parse_get_motion_events_reply-IsWhole =
      parse_reply-IsWhole little_endian get_motion_events_reply _ _ refl
        (reply_list-IsAligned _ _ (λ o. parse_fixed-aligned 8 refl))

  pub parse_translate_coordinates_reply-IsWhole :
      IsWholeReply little_endian (parse_translate_coordinates_reply little_endian)
  unfolding parse_translate_coordinates_reply sizeof_struct
  parse_translate_coordinates_reply-IsWhole =
      parse_reply-IsWhole little_endian translate_coordinates_reply _ _ refl nothing_more-IsAligned

  pub parse_get_input_focus_reply-IsWhole :
      IsWholeReply little_endian (parse_get_input_focus_reply little_endian)
  unfolding parse_get_input_focus_reply sizeof_struct
  parse_get_input_focus_reply-IsWhole =
      parse_reply-IsWhole little_endian get_input_focus_reply _ _ refl nothing_more-IsAligned

  pub parse_query_keymap_reply-IsWhole :
      IsWholeReply little_endian (parse_query_keymap_reply little_endian)
  unfolding parse_query_keymap_reply sizeof_struct
  parse_query_keymap_reply-IsWhole =
      parse_reply-IsWhole little_endian query_keymap_reply _ _ refl nothing_more-IsAligned
