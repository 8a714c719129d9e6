-- ===== src/Parser/Requests/Whole/Properties.antt =====
-- The requests on atoms, properties and selections (opcodes 16 to 25) are parsed whole.
use xtracepp.Base.{ℕ, refl, Bool}
use xtracepp.Protocol.{sizeof_struct}
use xtracepp.Parser.Requests.Properties.{
  parse_change_property, parse_convert_selection, parse_delete_property, parse_get_atom_name,
  parse_get_property, parse_get_selection_owner, parse_intern_atom, parse_list_properties,
  parse_send_event, parse_set_selection_owner,
}
use xtracepp.Parser.Requests.Whole.Windows.{parse_simple_window_request-IsWhole}
use xtracepp.Parser.Requests.Windows.{parse_simple_window_request}
use xtracepp.Protocol.Requests.Properties.{
  change_property, convert_selection, delete_property, get_atom_name, get_property,
  get_selection_owner, intern_atom, send_event, set_selection_owner,
}
use xtracepp.Parser.Requests.{RequestParser}
use xtracepp.Parser.Requests.Whole.{IsWhole, parse_own-IsWhole, parse_as-IsWhole}
use xtracepp.Parser.Requests.Whole.Suffixes.{
  no_suffix-IsAligned, property_data-IsAligned, sent_event-IsAligned, string8-IsAligned,
}

module _ (little_endian : Bool) where
  pub parse_intern_atom-IsWhole : IsWhole little_endian (parse_intern_atom little_endian)
  unfolding sizeof_struct parse_intern_atom
  parse_intern_atom-IsWhole =
      parse_own-IsWhole little_endian intern_atom 16 _ _ _
        (record { two_bytes = refl; aligned = refl }) (string8-IsAligned _)

  pub parse_get_atom_name-IsWhole : IsWhole little_endian (parse_get_atom_name little_endian)
  unfolding sizeof_struct parse_get_atom_name
  parse_get_atom_name-IsWhole =
      parse_own-IsWhole little_endian get_atom_name 17 _ _ _
        (record { two_bytes = refl; aligned = refl }) no_suffix-IsAligned

  pub parse_change_property-IsWhole : IsWhole little_endian (parse_change_property little_endian)
  unfolding sizeof_struct parse_change_property
  parse_change_property-IsWhole =
      parse_own-IsWhole little_endian change_property 18 _ _ _
        (record { two_bytes = refl; aligned = refl }) property_data-IsAligned

  pub parse_delete_property-IsWhole : IsWhole little_endian (parse_delete_property little_endian)
  unfolding sizeof_struct parse_delete_property
  parse_delete_property-IsWhole =
      parse_own-IsWhole little_endian delete_property 19 _ _ _
        (record { two_bytes = refl; aligned = refl }) no_suffix-IsAligned

  pub parse_get_property-IsWhole : IsWhole little_endian (parse_get_property little_endian)
  unfolding sizeof_struct parse_get_property
  parse_get_property-IsWhole =
      parse_own-IsWhole little_endian get_property 20 _ _ _
        (record { two_bytes = refl; aligned = refl }) no_suffix-IsAligned

  pub parse_list_properties-IsWhole : IsWhole little_endian (parse_list_properties little_endian)
  unfolding parse_list_properties
  parse_list_properties-IsWhole =
      parse_as-IsWhole little_endian 21 (parse_simple_window_request little_endian)
        (parse_simple_window_request-IsWhole little_endian)

  pub parse_set_selection_owner-IsWhole :
      IsWhole little_endian (parse_set_selection_owner little_endian)
  unfolding sizeof_struct parse_set_selection_owner
  parse_set_selection_owner-IsWhole =
      parse_own-IsWhole little_endian set_selection_owner 22 _ _ _
        (record { two_bytes = refl; aligned = refl }) no_suffix-IsAligned

  pub parse_get_selection_owner-IsWhole :
      IsWhole little_endian (parse_get_selection_owner little_endian)
  unfolding sizeof_struct parse_get_selection_owner
  parse_get_selection_owner-IsWhole =
      parse_own-IsWhole little_endian get_selection_owner 23 _ _ _
        (record { two_bytes = refl; aligned = refl }) no_suffix-IsAligned

  pub parse_convert_selection-IsWhole :
      IsWhole little_endian (parse_convert_selection little_endian)
  unfolding sizeof_struct parse_convert_selection
  parse_convert_selection-IsWhole =
      parse_own-IsWhole little_endian convert_selection 24 _ _ _
        (record { two_bytes = refl; aligned = refl }) no_suffix-IsAligned

  pub parse_send_event-IsWhole :
      (events : ℕ → RequestParser) → IsWhole little_endian (parse_send_event little_endian events)
  unfolding sizeof_struct parse_send_event
  parse_send_event-IsWhole events =
      parse_own-IsWhole little_endian send_event 25 _ _ _
        (record { two_bytes = refl; aligned = refl }) (sent_event-IsAligned little_endian events)
