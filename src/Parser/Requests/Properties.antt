-- ===== src/Parser/Requests/Properties.antt =====
-- src/X11ProtocolParser__parseRequest.cpp: requests on atoms, properties and selections (opcodes 16 to 25).
use xtracepp.Base.{
  ℕ, Bool, leb, ok, require, [], ◌∷◌, ◌*◌, ◌/◌, ◌%◌, ◌^◌, ◌&&◌, ◌==◌, if◌then◌else◌, ◌>>=◌, ◌>>◌,
}
use xtracepp.Wire.Alignment.{pad}
use xtracepp.Parser.Fields.{u8}
use xtracepp.Parser.Messages.{order_of}
use xtracepp.Protocol.Requests.Properties.{
  intern_atom, get_atom_name, change_property, delete_property, get_property, set_selection_owner,
  get_selection_owner, convert_selection, send_event,
}
use xtracepp.Parser.ListMembers.{parse_list_of, parse_fixed}
use xtracepp.Parser.Requests.{
  RequestParser, Suffix, parse_own, parse_as, encoding_member, in_prefix, in_encoding,
  length_of_short,
}
use xtracepp.Parser.Requests.Suffixes.{suffix_data, suffix_room, no_suffix, string8}
use xtracepp.Parser.Requests.Windows.{parse_simple_window_request}

-- The length is in units of the format; `31` is the atom of STRING, whose text is not cut at
-- 65535 bytes as the list is.
unfoldable pub property_data : Suffix
unfolding encoding_member parse_list_of parse_fixed pad suffix_room
property_data r =
    let format = encoding_member r "format" in
    let data_len = encoding_member r "data_fmt_unit_len" * (format / 8) % 2 ^ 32 in
    require (leb format 32 && format % 8 == 0)
    >> (if encoding_member r "type" == 31
        then ok data_len
        else parse_list_of (parse_fixed 1) (data_len % 2 ^ 16) (suffix_data r) data_len)
    >>= λ bytes_parsed. ok (pad bytes_parsed)

-- `_parseEvent`: `events` holds the function for each event code, which the top bit is no part of.
unfoldable pub parse_event : Bool → (ℕ → RequestParser) → RequestParser
unfolding u8
parse_event little_endian events conn d sz = do
  require (leb 32 sz)
  bytes_parsed ← events (u8 (order_of little_endian conn) d 0 % 128) conn d sz
  require (bytes_parsed == 32)
  ok bytes_parsed

unfoldable pub sent_event : Bool → (ℕ → RequestParser) → Suffix
unfolding parse_event
sent_event little_endian events r = parse_event little_endian events r.conn (suffix_data r) 32

module _ (little_endian : Bool) where
  unfoldable pub parse_intern_atom : RequestParser
  parse_intern_atom =
      parse_own little_endian intern_atom 16 (string8 (λ r. encoding_member r "name_len"))
        length_of_short (in_prefix "only_if_exists" ∷ [])

  unfoldable pub parse_get_atom_name : RequestParser
  parse_get_atom_name =
      parse_own little_endian get_atom_name 17 no_suffix length_of_short (in_encoding "atom" ∷ [])

  unfoldable pub parse_change_property : RequestParser
  parse_change_property = parse_own little_endian change_property 18 property_data length_of_short (
      in_prefix "mode"
      ∷ in_encoding "window"
      ∷ in_encoding "property"
      ∷ in_encoding "type"
      ∷ in_encoding "format"
      ∷ [])

  unfoldable pub parse_delete_property : RequestParser
  parse_delete_property =
      parse_own little_endian delete_property 19 no_suffix length_of_short
        (in_encoding "window" ∷ in_encoding "property" ∷ [])

  unfoldable pub parse_get_property : RequestParser
  parse_get_property = parse_own little_endian get_property 20 no_suffix length_of_short (
      in_prefix "delete_"
      ∷ in_encoding "window"
      ∷ in_encoding "property"
      ∷ in_encoding "type"
      ∷ in_encoding "long_offset"
      ∷ in_encoding "long_length"
      ∷ [])

  unfoldable pub parse_list_properties : RequestParser
  parse_list_properties = parse_as little_endian 21 (parse_simple_window_request little_endian)

  unfoldable pub parse_set_selection_owner : RequestParser
  parse_set_selection_owner =
      parse_own little_endian set_selection_owner 22 no_suffix length_of_short
        (in_encoding "owner" ∷ in_encoding "selection" ∷ in_encoding "time" ∷ [])

  unfoldable pub parse_get_selection_owner : RequestParser
  parse_get_selection_owner =
      parse_own little_endian get_selection_owner 23 no_suffix length_of_short
        (in_encoding "selection" ∷ [])

  unfoldable pub parse_convert_selection : RequestParser
  parse_convert_selection = parse_own little_endian convert_selection 24 no_suffix length_of_short (
      in_encoding "requestor"
      ∷ in_encoding "selection"
      ∷ in_encoding "target"
      ∷ in_encoding "property"
      ∷ in_encoding "time"
      ∷ [])

  unfoldable pub parse_send_event : (ℕ → RequestParser) → RequestParser
  parse_send_event events =
      parse_own little_endian send_event 25 (sent_event little_endian events) length_of_short
        (in_prefix "propagate" ∷ in_encoding "destination" ∷ in_encoding "event_mask" ∷ [])
