-- ===== src/Parser/Requests/Drawing.antt =====
-- src/X11ProtocolParser__parseRequest.cpp: requests on drawing, images and text (opcodes 64 to 77).
use xtracepp.Base.{ℕ, Bool, ok, [], ◌∷◌, ◌*◌, ◌/◌}
use xtracepp.Wire.Alignment.{pad, aligned_size}
use xtracepp.Base.{sub_size}
use xtracepp.Protocol.{sizeof_struct}
use xtracepp.Protocol.Requests.{encoding_of}
use xtracepp.Protocol.Requests.Drawing.{
  poly_point_request, poly_segment, poly_rectangle, poly_arc, fill_poly, poly_fill_rectangle,
  poly_fill_arc, put_image, get_image, poly_text8, poly_text16, image_text8, image_text16,
}
use xtracepp.Parser.ListMembers.{parse_fixed, parse_textitem8, parse_textitem16}
use xtracepp.Parser.Requests.{
  RequestParser, Parsing, Suffix, parse_any, parse_own, parse_as, base_sz, prefix_member, in_prefix,
  in_encoding, length_of_short, exact_length,
}
use xtracepp.Parser.Requests.Suffixes.{
  announced_sz, no_suffix, string8, list_of, list_of_announced, list_to_end,
}

-- `arcs_sz`, where the length is taken in units and the rest in bytes.
unfoldable pub arcs_sz : Parsing → ℕ
unfolding sub_size base_sz
arcs_sz r = sub_size r.fixed.tl_aligned_units (base_sz r.layout r.fixed.big_request)

-- `rectangles_sz` and `arcs_sz` of the filling requests, less the encoding alone.
unfoldable pub fill_sz : Parsing → ℕ
unfolding sub_size aligned_size sizeof_struct
fill_sz r =
    sub_size (aligned_size r.fixed.tl_aligned_units) (sizeof_struct (encoding_of r.layout.encoding))

unfoldable pub image_data : Suffix
unfolding announced_sz pad
image_data r = ok (pad (announced_sz r))

module _ (little_endian : Bool) where
  unfoldable pub parse_poly_point_request : RequestParser
  parse_poly_point_request =
      parse_any little_endian poly_point_request (list_of_announced (λ o. parse_fixed 4) 4)
        exact_length (in_prefix "coordinate_mode" ∷ in_encoding "drawable" ∷ in_encoding "gc" ∷ [])

  unfoldable pub parse_poly_point : RequestParser
  parse_poly_point = parse_as little_endian 64 parse_poly_point_request

  unfoldable pub parse_poly_line : RequestParser
  parse_poly_line = parse_as little_endian 65 parse_poly_point_request

  unfoldable pub parse_poly_segment : RequestParser
  parse_poly_segment =
      parse_own little_endian poly_segment 66 (list_of_announced (λ o. parse_fixed 8) 8)
        exact_length (in_encoding "drawable" ∷ in_encoding "gc" ∷ [])

  unfoldable pub parse_poly_rectangle : RequestParser
  parse_poly_rectangle =
      parse_own little_endian poly_rectangle 67 (list_of_announced (λ o. parse_fixed 8) 8)
        exact_length (in_encoding "drawable" ∷ in_encoding "gc" ∷ [])

  unfoldable pub parse_poly_arc : RequestParser
  parse_poly_arc =
      parse_own little_endian poly_arc 68
        (list_of (λ o. parse_fixed 12) arcs_sz (λ r. arcs_sz r / 12)) exact_length
        (in_encoding "drawable" ∷ in_encoding "gc" ∷ [])

  unfoldable pub parse_fill_poly : RequestParser
  parse_fill_poly =
      parse_own little_endian fill_poly 69 (list_of_announced (λ o. parse_fixed 4) 4) exact_length (
        in_encoding "drawable"
        ∷ in_encoding "gc"
        ∷ in_encoding "shape"
        ∷ in_encoding "coordinate_mode"
        ∷ [])

  unfoldable pub parse_poly_fill_rectangle : RequestParser
  parse_poly_fill_rectangle =
      parse_own little_endian poly_fill_rectangle 70
        (list_of (λ o. parse_fixed 8) fill_sz (λ r. fill_sz r / 8)) exact_length
        (in_encoding "drawable" ∷ in_encoding "gc" ∷ [])

  unfoldable pub parse_poly_fill_arc : RequestParser
  parse_poly_fill_arc =
      parse_own little_endian poly_fill_arc 71
        (list_of (λ o. parse_fixed 12) fill_sz (λ r. fill_sz r / 12)) exact_length
        (in_encoding "drawable" ∷ in_encoding "gc" ∷ [])

  unfoldable pub parse_put_image : RequestParser
  parse_put_image = parse_own little_endian put_image 72 image_data exact_length (
      in_prefix "format"
      ∷ in_encoding "drawable"
      ∷ in_encoding "gc"
      ∷ in_encoding "width"
      ∷ in_encoding "height"
      ∷ in_encoding "dst_x"
      ∷ in_encoding "dst_y"
      ∷ in_encoding "left_pad"
      ∷ in_encoding "depth"
      ∷ [])

  unfoldable pub parse_get_image : RequestParser
  parse_get_image = parse_own little_endian get_image 73 no_suffix length_of_short (
      in_prefix "format"
      ∷ in_encoding "drawable"
      ∷ in_encoding "x"
      ∷ in_encoding "y"
      ∷ in_encoding "width"
      ∷ in_encoding "height"
      ∷ in_encoding "plane_mask"
      ∷ [])

  unfoldable pub parse_poly_text8 : RequestParser
  parse_poly_text8 =
      parse_own little_endian poly_text8 74 (list_to_end parse_textitem8) exact_length
        (in_encoding "drawable" ∷ in_encoding "gc" ∷ in_encoding "x" ∷ in_encoding "y" ∷ [])

  unfoldable pub parse_poly_text16 : RequestParser
  parse_poly_text16 =
      parse_own little_endian poly_text16 75 (list_to_end parse_textitem16) exact_length
        (in_encoding "drawable" ∷ in_encoding "gc" ∷ in_encoding "x" ∷ in_encoding "y" ∷ [])

  unfoldable pub parse_image_text8 : RequestParser
  parse_image_text8 =
      parse_own little_endian image_text8 76 (string8 (λ r. prefix_member r "string_len"))
        length_of_short
        (in_encoding "drawable" ∷ in_encoding "gc" ∷ in_encoding "x" ∷ in_encoding "y" ∷ [])

  unfoldable pub parse_image_text16 : RequestParser
  parse_image_text16 =
      parse_own little_endian image_text16 77
        (list_of (λ o. parse_fixed 2) (λ r. prefix_member r "string_2B_len" * 2)
          (λ r. prefix_member r "string_2B_len"))
        length_of_short
        (in_encoding "drawable" ∷ in_encoding "gc" ∷ in_encoding "x" ∷ in_encoding "y" ∷ [])
