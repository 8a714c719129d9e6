-- ===== src/Parser/Replies/Control.antt =====
-- src/X11ProtocolParser__parseReply.cpp: replies on extensions, the keyboard, the pointer and the server.
use xtracepp.Base.{ℕ, Bool, [], ◌∷◌, ◌*◌, ◌/◌, ◌%◌, ◌^◌}
use xtracepp.Wire.Alignment.{aligned_size}
use xtracepp.Parser.Fields.{u32}
use xtracepp.Protocol.Replies.Control.{
  query_extension_reply, list_extensions_reply, get_keyboard_mapping_reply,
  get_keyboard_control_reply, get_pointer_control_reply, get_screen_saver_reply, list_hosts_reply,
  set_pointer_mapping_reply, get_pointer_mapping_reply, set_modifier_mapping_reply,
  get_modifier_mapping_reply,
}
use xtracepp.Parser.ListMembers.{parse_fixed, parse_str, parse_host}
use xtracepp.Parser.Replies.{Replying, ReplyParser, reply_member, parse_reply, parse_reply_raw}
use xtracepp.Parser.Replies.Suffixes.{nothing_more, reply_list, padded_list}

unfoldable pub keysym_ct : Replying → ℕ
unfolding aligned_size
keysym_ct r = aligned_size (u32 r.order r.message 4) / 4 % 2 ^ 32

module _ (little_endian : Bool) where
  unfoldable pub parse_query_extension_reply : ReplyParser
  parse_query_extension_reply =
      parse_reply little_endian query_extension_reply nothing_more
        ("present" ∷ "major_opcode" ∷ "first_event" ∷ "first_error" ∷ [])

  unfoldable pub parse_list_extensions_reply : ReplyParser
  parse_list_extensions_reply =
      parse_reply little_endian list_extensions_reply
        (padded_list parse_str (λ r. reply_member r "header.names_ct")) []

  unfoldable pub parse_get_keyboard_mapping_reply : ReplyParser
  parse_get_keyboard_mapping_reply =
      parse_reply little_endian get_keyboard_mapping_reply
        (reply_list (λ o. parse_fixed 4) keysym_ct) []

  unfoldable pub parse_get_keyboard_control_reply : ReplyParser
  parse_get_keyboard_control_reply =
      parse_reply little_endian get_keyboard_control_reply nothing_more (
        "header.global_auto_repeat" ∷ "led_mask" ∷ "key_click_percent" ∷ "bell_percent"
        ∷ "bell_pitch" ∷ "bell_duration" ∷ [])

  unfoldable pub parse_get_pointer_control_reply : ReplyParser
  parse_get_pointer_control_reply =
      parse_reply little_endian get_pointer_control_reply nothing_more
        ("acceleration_numerator" ∷ "acceleration_denominator" ∷ "threshold" ∷ [])

  unfoldable pub parse_get_screen_saver_reply : ReplyParser
  parse_get_screen_saver_reply =
      parse_reply little_endian get_screen_saver_reply nothing_more
        ("timeout" ∷ "interval" ∷ "prefer_blanking" ∷ "allow_exposures" ∷ [])

  unfoldable pub parse_list_hosts_reply : ReplyParser
  parse_list_hosts_reply =
      parse_reply little_endian list_hosts_reply
        (reply_list parse_host (λ r. reply_member r "hosts_ct")) ("header.mode" ∷ [])

  unfoldable pub parse_set_pointer_mapping_reply : ReplyParser
  parse_set_pointer_mapping_reply =
      parse_reply little_endian set_pointer_mapping_reply nothing_more ("header.status" ∷ [])

  unfoldable pub parse_get_pointer_mapping_reply : ReplyParser
  parse_get_pointer_mapping_reply =
      parse_reply_raw little_endian get_pointer_mapping_reply
        (padded_list (λ o. parse_fixed 1) (λ r. reply_member r "header.map_len")) []

  unfoldable pub parse_set_modifier_mapping_reply : ReplyParser
  parse_set_modifier_mapping_reply =
      parse_reply little_endian set_modifier_mapping_reply nothing_more ("header.status" ∷ [])

  unfoldable pub parse_get_modifier_mapping_reply : ReplyParser
  parse_get_modifier_mapping_reply =
      parse_reply little_endian get_modifier_mapping_reply
        (reply_list (λ o. parse_fixed 1) (λ r. 8 * reply_member r "header.keycodes_per_modifier"))
        ("header.keycodes_per_modifier" ∷ [])
