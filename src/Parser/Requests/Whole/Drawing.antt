-- ===== src/Parser/Requests/Whole/Drawing.antt =====
-- The requests on drawing, images and text (opcodes 64 to 77) are parsed whole.
use xtracepp.Base.{refl, Bool}
use xtracepp.Protocol.{sizeof_struct}
use xtracepp.Parser.Requests.Drawing.{
  parse_fill_poly, parse_get_image, parse_image_text16, parse_image_text8, parse_poly_arc,
  parse_poly_fill_arc, parse_poly_fill_rectangle, parse_poly_line, parse_poly_point,
  parse_poly_point_request, parse_poly_rectangle, parse_poly_segment, parse_poly_text16,
  parse_poly_text8, parse_put_image,
}
use xtracepp.Protocol.Requests.Drawing.{
  fill_poly, get_image, image_text16, image_text8, poly_arc, poly_fill_arc, poly_fill_rectangle,
  poly_point_request, poly_rectangle, poly_segment, poly_text16, poly_text8, put_image,
}
use xtracepp.Parser.Requests.Whole.{IsWhole, parse_any-IsWhole, parse_own-IsWhole, parse_as-IsWhole}
use xtracepp.Parser.Requests.Whole.Suffixes.{
  image_data-IsAligned, list_of-IsAligned, list_to_end-IsAligned, no_suffix-IsAligned,
  string8-IsAligned,
}

module _ (little_endian : Bool) where
  pub parse_poly_point_request-IsWhole :
      IsWhole little_endian (parse_poly_point_request little_endian)
  unfolding sizeof_struct parse_poly_point_request
  parse_poly_point_request-IsWhole =
      parse_any-IsWhole little_endian poly_point_request
        (record { two_bytes = refl; aligned = refl }) _ (list_of-IsAligned _ _ _) _ _

  pub parse_poly_point-IsWhole : IsWhole little_endian (parse_poly_point little_endian)
  unfolding parse_poly_point
  parse_poly_point-IsWhole =
      parse_as-IsWhole little_endian 64 (parse_poly_point_request little_endian)
        parse_poly_point_request-IsWhole

  pub parse_poly_line-IsWhole : IsWhole little_endian (parse_poly_line little_endian)
  unfolding parse_poly_line
  parse_poly_line-IsWhole =
      parse_as-IsWhole little_endian 65 (parse_poly_point_request little_endian)
        parse_poly_point_request-IsWhole

  pub parse_poly_segment-IsWhole : IsWhole little_endian (parse_poly_segment little_endian)
  unfolding sizeof_struct parse_poly_segment
  parse_poly_segment-IsWhole =
      parse_own-IsWhole little_endian poly_segment 66 _ _ _
        (record { two_bytes = refl; aligned = refl }) (list_of-IsAligned _ _ _)

  pub parse_poly_rectangle-IsWhole : IsWhole little_endian (parse_poly_rectangle little_endian)
  unfolding sizeof_struct parse_poly_rectangle
  parse_poly_rectangle-IsWhole =
      parse_own-IsWhole little_endian poly_rectangle 67 _ _ _
        (record { two_bytes = refl; aligned = refl }) (list_of-IsAligned _ _ _)

  pub parse_poly_arc-IsWhole : IsWhole little_endian (parse_poly_arc little_endian)
  unfolding sizeof_struct parse_poly_arc
  parse_poly_arc-IsWhole =
      parse_own-IsWhole little_endian poly_arc 68 _ _ _
        (record { two_bytes = refl; aligned = refl }) (list_of-IsAligned _ _ _)

  pub parse_fill_poly-IsWhole : IsWhole little_endian (parse_fill_poly little_endian)
  unfolding sizeof_struct parse_fill_poly
  parse_fill_poly-IsWhole =
      parse_own-IsWhole little_endian fill_poly 69 _ _ _
        (record { two_bytes = refl; aligned = refl }) (list_of-IsAligned _ _ _)

  pub parse_poly_fill_rectangle-IsWhole :
      IsWhole little_endian (parse_poly_fill_rectangle little_endian)
  unfolding sizeof_struct parse_poly_fill_rectangle
  parse_poly_fill_rectangle-IsWhole =
      parse_own-IsWhole little_endian poly_fill_rectangle 70 _ _ _
        (record { two_bytes = refl; aligned = refl }) (list_of-IsAligned _ _ _)

  pub parse_poly_fill_arc-IsWhole : IsWhole little_endian (parse_poly_fill_arc little_endian)
  unfolding sizeof_struct parse_poly_fill_arc
  parse_poly_fill_arc-IsWhole =
      parse_own-IsWhole little_endian poly_fill_arc 71 _ _ _
        (record { two_bytes = refl; aligned = refl }) (list_of-IsAligned _ _ _)

  pub parse_put_image-IsWhole : IsWhole little_endian (parse_put_image little_endian)
  unfolding sizeof_struct parse_put_image
  parse_put_image-IsWhole =
      parse_own-IsWhole little_endian put_image 72 _ _ _
        (record { two_bytes = refl; aligned = refl }) image_data-IsAligned

  pub parse_get_image-IsWhole : IsWhole little_endian (parse_get_image little_endian)
  unfolding sizeof_struct parse_get_image
  parse_get_image-IsWhole =
      parse_own-IsWhole little_endian get_image 73 _ _ _
        (record { two_bytes = refl; aligned = refl }) no_suffix-IsAligned

  pub parse_poly_text8-IsWhole : IsWhole little_endian (parse_poly_text8 little_endian)
  unfolding sizeof_struct parse_poly_text8
  parse_poly_text8-IsWhole =
      parse_own-IsWhole little_endian poly_text8 74 _ _ _
        (record { two_bytes = refl; aligned = refl }) (list_to_end-IsAligned _)

  pub parse_poly_text16-IsWhole : IsWhole little_endian (parse_poly_text16 little_endian)
  unfolding sizeof_struct parse_poly_text16
  parse_poly_text16-IsWhole =
      parse_own-IsWhole little_endian poly_text16 75 _ _ _
        (record { two_bytes = refl; aligned = refl }) (list_to_end-IsAligned _)

  pub parse_image_text8-IsWhole : IsWhole little_endian (parse_image_text8 little_endian)
  unfolding sizeof_struct parse_image_text8
  parse_image_text8-IsWhole =
      parse_own-IsWhole little_endian image_text8 76 _ _ _
        (record { two_bytes = refl; aligned = refl }) (string8-IsAligned _)

  pub parse_image_text16-IsWhole : IsWhole little_endian (parse_image_text16 little_endian)
  unfolding sizeof_struct parse_image_text16
  parse_image_text16-IsWhole =
      parse_own-IsWhole little_endian image_text16 77 _ _ _
        (record { two_bytes = refl; aligned = refl }) (list_of-IsAligned _ _ _)
