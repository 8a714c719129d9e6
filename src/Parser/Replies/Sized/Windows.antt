-- ===== src/Parser/Replies/Sized/Windows.antt =====
-- Replies on windows, atoms, properties and selections are parsed whole.
use xtracepp.Base.{refl, Bool}
use xtracepp.Protocol.{sizeof_struct, resource_id}
use xtracepp.Parser.Replies.Whole.{IsWholeReply, parse_reply-IsWhole}
use xtracepp.Parser.Replies.Aligned.{
  parse_formatted-aligned, nothing_more-IsAligned, reply_string-IsAligned, reply_list-IsAligned,
  padded_list-IsAligned, property_value-IsAligned,
}
use xtracepp.Parser.Replies.Windows.{
  parse_get_window_attributes_reply, parse_get_geometry_reply, parse_query_tree_reply,
  parse_intern_atom_reply, parse_get_atom_name_reply, parse_get_property_reply,
  parse_list_properties_reply, parse_get_selection_owner_reply,
}
use xtracepp.Protocol.Replies.Windows.{
  get_window_attributes_reply, get_geometry_reply, query_tree_reply, intern_atom_reply,
  get_atom_name_reply, get_property_reply, list_properties_reply, get_selection_owner_reply,
}

module _ (little_endian : Bool) where
  pub parse_get_window_attributes_reply-IsWhole :
      IsWholeReply little_endian (parse_get_window_attributes_reply little_endian)
  unfolding parse_get_window_attributes_reply sizeof_struct
  parse_get_window_attributes_reply-IsWhole =
      parse_reply-IsWhole little_endian get_window_attributes_reply _ _ refl nothing_more-IsAligned

  pub parse_get_geometry_reply-IsWhole :
      IsWholeReply little_endian (parse_get_geometry_reply little_endian)
  unfolding parse_get_geometry_reply sizeof_struct
  parse_get_geometry_reply-IsWhole =
      parse_reply-IsWhole little_endian get_geometry_reply _ _ refl nothing_more-IsAligned

  pub parse_query_tree_reply-IsWhole :
      IsWholeReply little_endian (parse_query_tree_reply little_endian)
  unfolding parse_query_tree_reply sizeof_struct
  parse_query_tree_reply-IsWhole =
      parse_reply-IsWhole little_endian query_tree_reply _ _ refl
        (reply_list-IsAligned _ _ (λ o. parse_formatted-aligned o resource_id refl))

  pub parse_intern_atom_reply-IsWhole :
      IsWholeReply little_endian (parse_intern_atom_reply little_endian)
  unfolding parse_intern_atom_reply sizeof_struct
  parse_intern_atom_reply-IsWhole =
      parse_reply-IsWhole little_endian intern_atom_reply _ _ refl nothing_more-IsAligned

  pub parse_get_atom_name_reply-IsWhole :
      IsWholeReply little_endian (parse_get_atom_name_reply little_endian)
  unfolding parse_get_atom_name_reply sizeof_struct
  parse_get_atom_name_reply-IsWhole =
      parse_reply-IsWhole little_endian get_atom_name_reply _ _ refl (reply_string-IsAligned _)

  pub parse_get_property_reply-IsWhole :
      IsWholeReply little_endian (parse_get_property_reply little_endian)
  unfolding parse_get_property_reply sizeof_struct
  parse_get_property_reply-IsWhole =
      parse_reply-IsWhole little_endian get_property_reply _ _ refl property_value-IsAligned

  pub parse_list_properties_reply-IsWhole :
      IsWholeReply little_endian (parse_list_properties_reply little_endian)
  unfolding parse_list_properties_reply sizeof_struct
  parse_list_properties_reply-IsWhole =
      parse_reply-IsWhole little_endian list_properties_reply _ _ refl (padded_list-IsAligned _ _)

  pub parse_get_selection_owner_reply-IsWhole :
      IsWholeReply little_endian (parse_get_selection_owner_reply little_endian)
  unfolding parse_get_selection_owner_reply sizeof_struct
  parse_get_selection_owner_reply-IsWhole =
      parse_reply-IsWhole little_endian get_selection_owner_reply _ _ refl nothing_more-IsAligned
