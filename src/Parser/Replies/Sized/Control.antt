-- ===== src/Parser/Replies/Sized/Control.antt =====
-- Replies on extensions, the keyboard, the pointer and the server are parsed whole.
use xtracepp.Base.{refl, Bool}
use xtracepp.Protocol.{sizeof_struct}
use xtracepp.Parser.Replies.Whole.{IsWholeReply, parse_reply-IsWhole}
use xtracepp.Parser.Replies.Aligned.{
  parse_fixed-aligned, parse_host-aligned, nothing_more-IsAligned, reply_list-IsAligned,
  padded_list-IsAligned, keycodes-IsAligned,
}
use xtracepp.Parser.Replies.Control.{
  parse_query_extension_reply, parse_list_extensions_reply, parse_get_keyboard_mapping_reply,
  parse_get_keyboard_control_reply, parse_get_pointer_control_reply, parse_get_screen_saver_reply,
  parse_list_hosts_reply, parse_set_pointer_mapping_reply, parse_set_modifier_mapping_reply,
  parse_get_modifier_mapping_reply,
}
use xtracepp.Protocol.Replies.Control.{
  query_extension_reply, list_extensions_reply, get_keyboard_mapping_reply,
  get_keyboard_control_reply, get_pointer_control_reply, get_screen_saver_reply, list_hosts_reply,
  set_pointer_mapping_reply, set_modifier_mapping_reply, get_modifier_mapping_reply,
}

module _ (little_endian : Bool) where
  pub parse_query_extension_reply-IsWhole :
      IsWholeReply little_endian (parse_query_extension_reply little_endian)
  unfolding parse_query_extension_reply sizeof_struct
  parse_query_extension_reply-IsWhole =
      parse_reply-IsWhole little_endian query_extension_reply _ _ refl nothing_more-IsAligned

  pub parse_list_extensions_reply-IsWhole :
      IsWholeReply little_endian (parse_list_extensions_reply little_endian)
  unfolding parse_list_extensions_reply sizeof_struct
  parse_list_extensions_reply-IsWhole =
      parse_reply-IsWhole little_endian list_extensions_reply _ _ refl (padded_list-IsAligned _ _)

  pub parse_get_keyboard_mapping_reply-IsWhole :
      IsWholeReply little_endian (parse_get_keyboard_mapping_reply little_endian)
  unfolding parse_get_keyboard_mapping_reply sizeof_struct
  parse_get_keyboard_mapping_reply-IsWhole =
      parse_reply-IsWhole little_endian get_keyboard_mapping_reply _ _ refl
        (reply_list-IsAligned _ _ (λ o. parse_fixed-aligned 4 refl))

  pub parse_get_keyboard_control_reply-IsWhole :
      IsWholeReply little_endian (parse_get_keyboard_control_reply little_endian)
  unfolding parse_get_keyboard_control_reply sizeof_struct
  parse_get_keyboard_control_reply-IsWhole =
      parse_reply-IsWhole little_endian get_keyboard_control_reply _ _ refl nothing_more-IsAligned

  pub parse_get_pointer_control_reply-IsWhole :
      IsWholeReply little_endian (parse_get_pointer_control_reply little_endian)
  unfolding parse_get_pointer_control_reply sizeof_struct
  parse_get_pointer_control_reply-IsWhole =
      parse_reply-IsWhole little_endian get_pointer_control_reply _ _ refl nothing_more-IsAligned

  pub parse_get_screen_saver_reply-IsWhole :
      IsWholeReply little_endian (parse_get_screen_saver_reply little_endian)
  unfolding parse_get_screen_saver_reply sizeof_struct
  parse_get_screen_saver_reply-IsWhole =
      parse_reply-IsWhole little_endian get_screen_saver_reply _ _ refl nothing_more-IsAligned

  pub parse_list_hosts_reply-IsWhole :
      IsWholeReply little_endian (parse_list_hosts_reply little_endian)
  unfolding parse_list_hosts_reply sizeof_struct
  parse_list_hosts_reply-IsWhole =
      parse_reply-IsWhole little_endian list_hosts_reply _ _ refl
        (reply_list-IsAligned _ _ parse_host-aligned)

  pub parse_set_pointer_mapping_reply-IsWhole :
      IsWholeReply little_endian (parse_set_pointer_mapping_reply little_endian)
  unfolding parse_set_pointer_mapping_reply sizeof_struct
  parse_set_pointer_mapping_reply-IsWhole =
      parse_reply-IsWhole little_endian set_pointer_mapping_reply _ _ refl nothing_more-IsAligned

  pub parse_set_modifier_mapping_reply-IsWhole :
      IsWholeReply little_endian (parse_set_modifier_mapping_reply little_endian)
  unfolding parse_set_modifier_mapping_reply sizeof_struct
  parse_set_modifier_mapping_reply-IsWhole =
      parse_reply-IsWhole little_endian set_modifier_mapping_reply _ _ refl nothing_more-IsAligned

  pub parse_get_modifier_mapping_reply-IsWhole :
      IsWholeReply little_endian (parse_get_modifier_mapping_reply little_endian)
  unfolding parse_get_modifier_mapping_reply sizeof_struct
  parse_get_modifier_mapping_reply-IsWhole =
      parse_reply-IsWhole little_endian get_modifier_mapping_reply _ _ refl keycodes-IsAligned
