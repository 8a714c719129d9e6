-- ===== src/Parser/Errors/Fixed.antt =====
-- An error of the core protocol that is parsed is 32 bytes.
use xtracepp.Base.{
  ℕ, ◌≤◌, ◌≡◌, refl, inl, inr, Bool, List, ◌&∷◌, arith, leb, ◌==◌, ==_iff, find, find-All, All,
  Option-cases, ok, >>=-eq-ok, require-eq-ok, ok-injective, sym, ◌∙◌,
}
use Prim.Native.String.{String}
use xtracepp.Session.{Connection}
use xtracepp.Parser.Fields.{u8}
use xtracepp.Parser.Messages.{order_of}
use xtracepp.Protocol.{Struct, sizeof_struct}
use xtracepp.Protocol.Errors.{simple_error, resource_id_error, value_error, atom_error}
use xtracepp.Parser.Replies.{replying, format_members}
use xtracepp.Parser.Errors.{
  ErrorParser, any_error, own_error, error_as, core_errors, error_at, parse_simple_error,
  parse_resource_id_error, parse_request_error, parse_value_error, parse_window_error,
  parse_pixmap_error, parse_atom_error, parse_cursor_error, parse_font_error, parse_match_error,
  parse_drawable_error, parse_access_error, parse_alloc_error, parse_colormap_error,
  parse_gcontext_error, parse_idchoice_error, parse_name_error, parse_length_error,
  parse_implementation_error,
}

module _ (little_endian : Bool) where
  -- What is parsed is an error of 32 bytes, of which all are there.
  abbrev IsFixed : ErrorParser → Type 0
  IsFixed parser =
      (conn : Connection) (d : List ℕ) (sz n : ℕ)
      → parser conn d sz ≡ ok n
      → (n ≡ 32) × (32 ≤ sz) × (u8 (order_of little_endian conn) d 0 ≡ 0)

  -- The error with the code has it, and the code is one of the core protocol.
  abbrev IsErrorOf : ℕ → ErrorParser → Type 0
  IsErrorOf code parser =
      (conn : Connection) (d : List ℕ) (sz n : ℕ)
      → parser conn d sz ≡ ok n
      → (n ≡ 32)
        × (32 ≤ sz)
        × (u8 (order_of little_endian conn) d 0 ≡ 0)
        × (u8 (order_of little_endian conn) d 1 ≡ code)
        × (1 ≤ code)
        × (code ≤ 17)

  any_error-IsFixed :
      (s : Struct) (shown : List String)
      → sizeof_struct s ≡ 32
      → IsFixed (any_error little_endian s shown)
  unfolding any_error
  any_error-IsFixed s shown whole conn d sz n e =
      let o = order_of little_endian conn in
      let (room, e1) = require-eq-ok (leb 32 sz) _ e in
      let (prefix, e2) = require-eq-ok (u8 o d 0 == 0) _ e1 in
      let (_, e3) = require-eq-ok (sizeof_struct s == 32) _ e2 in
      let (_, _, e4) = >>=-eq-ok (format_members (replying little_endian s conn d sz) shown) _ e3 in
      (sym (ok-injective e4) ∙ whole, ground arith, (==_iff _ _).0 prefix)

  own_error-IsErrorOf :
      (s : Struct) (code : ℕ) (shown : List String)
      → sizeof_struct s ≡ 32
      → (1 ≤ code) × (code ≤ 17)
      → IsErrorOf code (own_error little_endian s code shown)
  unfolding own_error
  own_error-IsErrorOf s code shown whole (low, high) conn d sz n e =
      let o = order_of little_endian conn in
      let (room, e1) = require-eq-ok (leb 32 sz) _ e in
      let (prefix, e2) = require-eq-ok (u8 o d 0 == 0) _ e1 in
      let (own, e3) = require-eq-ok (u8 o d 1 == code) _ e2 in
      let (_, e4) = require-eq-ok (sizeof_struct s == 32) _ e3 in
      let (_, _, e5) = >>=-eq-ok (format_members (replying little_endian s conn d sz) shown) _ e4 in
      (
        sym (ok-injective e5) ∙ whole,
        ground arith,
        (==_iff _ _).0 prefix,
        (==_iff _ _).0 own,
        low,
        high,
      )

  error_as-IsErrorOf :
      (code : ℕ) (base : ErrorParser)
      → IsFixed base
      → (1 ≤ code) × (code ≤ 17)
      → IsErrorOf code (error_as little_endian code base)
  unfolding error_as
  error_as-IsErrorOf code base fixed (low, high) conn d sz n e =
      let (_, e1) = require-eq-ok (leb 4 sz) _ e in
      let (own, e2) = require-eq-ok (u8 (order_of little_endian conn) d 1 == code) _ e1 in
      let (whole, room, prefix) = fixed conn d sz n e2 in
      (whole, room, prefix, (==_iff _ _).0 own, low, high)

  core_errors-IsErrorOf :
      All (λ (entry : ℕ × ErrorParser). IsErrorOf entry.0 entry.1) (core_errors little_endian)
  unfolding sizeof_struct parse_simple_error parse_resource_id_error parse_request_error
      parse_value_error parse_window_error parse_pixmap_error parse_atom_error parse_cursor_error
      parse_font_error parse_match_error parse_drawable_error parse_access_error parse_alloc_error
      parse_colormap_error parse_gcontext_error parse_idchoice_error parse_name_error
      parse_length_error parse_implementation_error
  core_errors-IsErrorOf =
      error_as-IsErrorOf 1 _ (any_error-IsFixed simple_error _ refl) (omega arith)
      &∷ own_error-IsErrorOf value_error 2 _ refl (omega arith)
      &∷ error_as-IsErrorOf 3 _ (any_error-IsFixed resource_id_error _ refl) (omega arith)
      &∷ error_as-IsErrorOf 4 _ (any_error-IsFixed resource_id_error _ refl) (omega arith)
      &∷ own_error-IsErrorOf atom_error 5 _ refl (omega arith)
      &∷ error_as-IsErrorOf 6 _ (any_error-IsFixed resource_id_error _ refl) (omega arith)
      &∷ error_as-IsErrorOf 7 _ (any_error-IsFixed resource_id_error _ refl) (omega arith)
      &∷ error_as-IsErrorOf 8 _ (any_error-IsFixed simple_error _ refl) (omega arith)
      &∷ error_as-IsErrorOf 9 _ (any_error-IsFixed resource_id_error _ refl) (omega arith)
      &∷ error_as-IsErrorOf 10 _ (any_error-IsFixed simple_error _ refl) (omega arith)
      &∷ error_as-IsErrorOf 11 _ (any_error-IsFixed simple_error _ refl) (omega arith)
      &∷ error_as-IsErrorOf 12 _ (any_error-IsFixed resource_id_error _ refl) (omega arith)
      &∷ error_as-IsErrorOf 13 _ (any_error-IsFixed resource_id_error _ refl) (omega arith)
      &∷ error_as-IsErrorOf 14 _ (any_error-IsFixed resource_id_error _ refl) (omega arith)
      &∷ error_as-IsErrorOf 15 _ (any_error-IsFixed simple_error _ refl) (omega arith)
      &∷ error_as-IsErrorOf 16 _ (any_error-IsFixed simple_error _ refl) (omega arith)
      &∷ error_as-IsErrorOf 17 _ (any_error-IsFixed simple_error _ refl) (omega arith)
      &∷ tt

  -- The function that the table has for a code accepts only errors of 32 bytes with that code, which
  -- is one of the core protocol.
  pub error_at-core :
      (code : ℕ) (conn : Connection) (d : List ℕ) (sz n : ℕ)
      → error_at little_endian code conn d sz ≡ ok n
      → (n ≡ 32)
        × (32 ≤ sz)
        × (u8 (order_of little_endian conn) d 0 ≡ 0)
        × (u8 (order_of little_endian conn) d 1 ≡ code)
        × (1 ≤ code)
        × (code ≤ 17)
  unfolding error_at
  error_at-core code conn d sz n e = elim (Option-cases (find code (core_errors little_endian))) [
    | inl unknown ↦ cc
    | inr (parser, found) ↦
        find-All (λ (entry : ℕ × ErrorParser). IsErrorOf entry.0 entry.1) code
          (core_errors little_endian) parser core_errors-IsErrorOf found conn d sz n (rw found at e)
  ]
