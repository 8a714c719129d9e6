-- ===== src/Parser/Replies/Windows.antt =====
-- src/X11ProtocolParser__parseReply.cpp: replies on windows, atoms, properties and selections.
use xtracepp.Base.{
  Bool, [], ◌∷◌, ◌*◌, ◌/◌, ◌%◌, ◌^◌, ◌&&◌, ◌==◌, leb, if◌then◌else◌, ok, require, ◌>>=◌, ◌>>◌,
}
use xtracepp.Wire.Alignment.{pad}
use xtracepp.Protocol.{resource_id}
use xtracepp.Protocol.Replies.Windows.{
  get_window_attributes_reply, get_geometry_reply, query_tree_reply, intern_atom_reply,
  get_atom_name_reply, get_property_reply, list_properties_reply, get_selection_owner_reply,
}
use xtracepp.Parser.ListMembers.{parse_fixed}
use xtracepp.Parser.Requests.Suffixes.{parse_formatted}
use xtracepp.Parser.Replies.{ReplySuffix, ReplyParser, reply_member, raw_reply_member, parse_reply}
use xtracepp.Parser.Replies.Suffixes.{nothing_more, reply_string, list_at, reply_list, padded_list}

-- The value of a property, which is no list where its type is STRING, atom 31.
unfoldable pub property_value : ReplySuffix
unfolding reply_member list_at pad
property_value r =
    let format = reply_member r "header.format" in
    let value_sz = reply_member r "value_fmt_unit_len" * (format / 8) % 2 ^ 32 in
    require (leb format 32 && format % 8 == 0)
    >> (if reply_member r "type" == 31
        then ok value_sz
        else list_at (λ o. parse_fixed 1) value_sz 32 r)
    >>= λ bytes_parsed. ok (pad bytes_parsed)

module _ (little_endian : Bool) where
  unfoldable pub parse_get_window_attributes_reply : ReplyParser
  parse_get_window_attributes_reply =
      parse_reply little_endian get_window_attributes_reply nothing_more (
        "header.backing_store" ∷ "visual" ∷ "class_" ∷ "bit_gravity" ∷ "win_gravity"
        ∷ "backing_planes" ∷ "backing_pixel" ∷ "save_under" ∷ "map_is_installed" ∷ "map_state"
        ∷ "override_redirect" ∷ "all_event_masks" ∷ "your_event_mask" ∷ "do_not_propagate_mask"
        ∷ [])

  unfoldable pub parse_get_geometry_reply : ReplyParser
  parse_get_geometry_reply =
      parse_reply little_endian get_geometry_reply nothing_more
        ("header.depth" ∷ "root" ∷ "x" ∷ "y" ∷ "width" ∷ "height" ∷ "border_width" ∷ [])

  unfoldable pub parse_query_tree_reply : ReplyParser
  parse_query_tree_reply =
      parse_reply little_endian query_tree_reply
        (reply_list (λ o. parse_formatted o resource_id) (λ r. reply_member r "children_ct"))
        ("root" ∷ "parent" ∷ [])

  unfoldable pub parse_intern_atom_reply : ReplyParser
  parse_intern_atom_reply = parse_reply little_endian intern_atom_reply nothing_more ("atom" ∷ [])

  unfoldable pub parse_get_atom_name_reply : ReplyParser
  parse_get_atom_name_reply =
      parse_reply little_endian get_atom_name_reply (reply_string (λ r. reply_member r "name_len"))
        []

  unfoldable pub parse_get_property_reply : ReplyParser
  parse_get_property_reply =
      parse_reply little_endian get_property_reply property_value
        ("header.format" ∷ "type" ∷ "bytes_after" ∷ [])

  unfoldable pub parse_list_properties_reply : ReplyParser
  parse_list_properties_reply =
      parse_reply little_endian list_properties_reply
        (padded_list (λ o. parse_formatted o resource_id) (λ r. raw_reply_member r "atoms_ct")) []

  unfoldable pub parse_get_selection_owner_reply : ReplyParser
  parse_get_selection_owner_reply =
      parse_reply little_endian get_selection_owner_reply nothing_more ("owner" ∷ [])
