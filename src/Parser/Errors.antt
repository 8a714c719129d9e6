-- ===== src/Parser/Errors.antt =====
-- src/X11ProtocolParser__parseError.cpp and src/X11ProtocolParser__core_errors.cpp: a function for each
-- error of the core protocol, which answers the bytes that it parsed, and the table of them by code.
pub mod Fixed
use Prim.Native.String.{String}
use xtracepp.Base.{
  ℕ, Bool, List, [], ◌∷◌, leb, ◌==◌, find, Option, none, some, Outcome, ok, aborted, require, ◌>>=◌,
  ◌>>◌,
}
use xtracepp.Session.{Connection}
use xtracepp.Parser.Fields.{u8}
use xtracepp.Parser.Messages.{order_of}
use xtracepp.Protocol.{Struct, sizeof_struct}
use xtracepp.Protocol.Errors.{simple_error, resource_id_error, value_error, atom_error}
use xtracepp.Parser.Replies.{replying, format_members}

abbrev pub ErrorParser : Type 0
ErrorParser = Connection → List ℕ → ℕ → Outcome ℕ

module _ (little_endian : Bool) where
  -- The functions of `impl`, which test no code.
  unfoldable pub any_error : Struct → List String → ErrorParser
  unfolding sizeof_struct format_members u8
  any_error s shown conn d sz = do
    require (leb 32 sz)
    require (u8 (order_of little_endian conn) d 0 == 0)
    require (sizeof_struct s == 32)
    format_members (replying little_endian s conn d sz) shown
    ok (sizeof_struct s)

  -- Those for an error with a struct of its own.
  unfoldable pub own_error : Struct → ℕ → List String → ErrorParser
  unfolding sizeof_struct format_members u8
  own_error s code shown conn d sz = do
    require (leb 32 sz)
    require (u8 (order_of little_endian conn) d 0 == 0)
    require (u8 (order_of little_endian conn) d 1 == code)
    require (sizeof_struct s == 32)
    format_members (replying little_endian s conn d sz) shown
    ok (sizeof_struct s)

  -- Those that hand the error to a function of `impl`.
  unfoldable pub error_as : ℕ → ErrorParser → ErrorParser
  unfolding u8
  error_as code base conn d sz = do
    require (leb 4 sz)
    require (u8 (order_of little_endian conn) d 1 == code)
    base conn d sz

  unfoldable pub parse_simple_error : ErrorParser
  parse_simple_error = any_error simple_error ("minor_opcode" ∷ "major_opcode" ∷ [])

  unfoldable pub parse_resource_id_error : ErrorParser
  parse_resource_id_error =
      any_error resource_id_error ("bad_resource_id" ∷ "minor_opcode" ∷ "major_opcode" ∷ [])

  unfoldable pub parse_request_error : ErrorParser
  parse_request_error = error_as 1 parse_simple_error

  unfoldable pub parse_value_error : ErrorParser
  parse_value_error = own_error value_error 2 ("bad_value" ∷ "minor_opcode" ∷ "major_opcode" ∷ [])

  unfoldable pub parse_window_error : ErrorParser
  parse_window_error = error_as 3 parse_resource_id_error

  unfoldable pub parse_pixmap_error : ErrorParser
  parse_pixmap_error = error_as 4 parse_resource_id_error

  unfoldable pub parse_atom_error : ErrorParser
  parse_atom_error = own_error atom_error 5 ("bad_atom_id" ∷ "minor_opcode" ∷ "major_opcode" ∷ [])

  unfoldable pub parse_cursor_error : ErrorParser
  parse_cursor_error = error_as 6 parse_resource_id_error

  unfoldable pub parse_font_error : ErrorParser
  parse_font_error = error_as 7 parse_resource_id_error

  unfoldable pub parse_match_error : ErrorParser
  parse_match_error = error_as 8 parse_simple_error

  unfoldable pub parse_drawable_error : ErrorParser
  parse_drawable_error = error_as 9 parse_resource_id_error

  unfoldable pub parse_access_error : ErrorParser
  parse_access_error = error_as 10 parse_simple_error

  unfoldable pub parse_alloc_error : ErrorParser
  parse_alloc_error = error_as 11 parse_simple_error

  unfoldable pub parse_colormap_error : ErrorParser
  parse_colormap_error = error_as 12 parse_resource_id_error

  unfoldable pub parse_gcontext_error : ErrorParser
  parse_gcontext_error = error_as 13 parse_resource_id_error

  unfoldable pub parse_idchoice_error : ErrorParser
  parse_idchoice_error = error_as 14 parse_resource_id_error

  unfoldable pub parse_name_error : ErrorParser
  parse_name_error = error_as 15 parse_simple_error

  unfoldable pub parse_length_error : ErrorParser
  parse_length_error = error_as 16 parse_simple_error

  unfoldable pub parse_implementation_error : ErrorParser
  parse_implementation_error = error_as 17 parse_simple_error

  abbrev pub core_errors : List (ℕ × ErrorParser)
  core_errors =
      (1, parse_request_error)
      ∷ (2, parse_value_error)
      ∷ (3, parse_window_error)
      ∷ (4, parse_pixmap_error)
      ∷ (5, parse_atom_error)
      ∷ (6, parse_cursor_error)
      ∷ (7, parse_font_error)
      ∷ (8, parse_match_error)
      ∷ (9, parse_drawable_error)
      ∷ (10, parse_access_error)
      ∷ (11, parse_alloc_error)
      ∷ (12, parse_colormap_error)
      ∷ (13, parse_gcontext_error)
      ∷ (14, parse_idchoice_error)
      ∷ (15, parse_name_error)
      ∷ (16, parse_length_error)
      ∷ (17, parse_implementation_error)
      ∷ []

  -- `_error_codes.at( code )` throws for a code that is not there, which nothing catches.
  abbrev parser_or_throw : Option ErrorParser → ErrorParser
  parser_or_throw none = λ conn d sz. aborted
  parser_or_throw (some parser) = parser

  unfoldable pub error_at : ℕ → ErrorParser
  unfolding find
  error_at code = parser_or_throw (find code core_errors)
