-- ===== src/Parser/Requests/Whole/Contexts.antt =====
-- The requests on pixmaps, graphics contexts and areas (opcodes 53 to 63) are parsed whole.
use xtracepp.Base.{refl, Bool}
use xtracepp.Protocol.{sizeof_struct}
use xtracepp.Parser.Requests.Contexts.{
  parse_change_gc, parse_clear_area, parse_copy_area, parse_copy_gc, parse_copy_plane,
  parse_create_gc, parse_create_pixmap, parse_free_gc, parse_free_pixmap, parse_set_clip_rectangles,
  parse_set_dashes,
}
use xtracepp.Protocol.Requests.Contexts.{
  change_gc, clear_area, copy_area, copy_gc, copy_plane, create_gc, create_pixmap, free_gc,
  free_pixmap, set_clip_rectangles, set_dashes,
}
use xtracepp.Parser.Requests.Whole.{IsWhole, parse_own-IsWhole}
use xtracepp.Parser.Requests.Whole.Suffixes.{
  list_of-IsAligned, list_of_value-IsAligned, no_suffix-IsAligned,
}

module _ (little_endian : Bool) where
  pub parse_create_pixmap-IsWhole : IsWhole little_endian (parse_create_pixmap little_endian)
  unfolding sizeof_struct parse_create_pixmap
  parse_create_pixmap-IsWhole =
      parse_own-IsWhole little_endian create_pixmap 53 _ _ _
        (record { two_bytes = refl; aligned = refl }) no_suffix-IsAligned

  pub parse_free_pixmap-IsWhole : IsWhole little_endian (parse_free_pixmap little_endian)
  unfolding sizeof_struct parse_free_pixmap
  parse_free_pixmap-IsWhole =
      parse_own-IsWhole little_endian free_pixmap 54 _ _ _
        (record { two_bytes = refl; aligned = refl }) no_suffix-IsAligned

  pub parse_create_gc-IsWhole : IsWhole little_endian (parse_create_gc little_endian)
  unfolding sizeof_struct parse_create_gc
  parse_create_gc-IsWhole =
      parse_own-IsWhole little_endian create_gc 55 _ _ _
        (record { two_bytes = refl; aligned = refl }) (list_of_value-IsAligned _)

  pub parse_change_gc-IsWhole : IsWhole little_endian (parse_change_gc little_endian)
  unfolding sizeof_struct parse_change_gc
  parse_change_gc-IsWhole =
      parse_own-IsWhole little_endian change_gc 56 _ _ _
        (record { two_bytes = refl; aligned = refl }) (list_of_value-IsAligned _)

  pub parse_copy_gc-IsWhole : IsWhole little_endian (parse_copy_gc little_endian)
  unfolding sizeof_struct parse_copy_gc
  parse_copy_gc-IsWhole =
      parse_own-IsWhole little_endian copy_gc 57 _ _ _ (record { two_bytes = refl; aligned = refl })
        no_suffix-IsAligned

  pub parse_set_dashes-IsWhole : IsWhole little_endian (parse_set_dashes little_endian)
  unfolding sizeof_struct parse_set_dashes
  parse_set_dashes-IsWhole =
      parse_own-IsWhole little_endian set_dashes 58 _ _ _
        (record { two_bytes = refl; aligned = refl }) (list_of-IsAligned _ _ _)

  pub parse_set_clip_rectangles-IsWhole :
      IsWhole little_endian (parse_set_clip_rectangles little_endian)
  unfolding sizeof_struct parse_set_clip_rectangles
  parse_set_clip_rectangles-IsWhole =
      parse_own-IsWhole little_endian set_clip_rectangles 59 _ _ _
        (record { two_bytes = refl; aligned = refl }) (list_of-IsAligned _ _ _)

  pub parse_free_gc-IsWhole : IsWhole little_endian (parse_free_gc little_endian)
  unfolding sizeof_struct parse_free_gc
  parse_free_gc-IsWhole =
      parse_own-IsWhole little_endian free_gc 60 _ _ _ (record { two_bytes = refl; aligned = refl })
        no_suffix-IsAligned

  pub parse_clear_area-IsWhole : IsWhole little_endian (parse_clear_area little_endian)
  unfolding sizeof_struct parse_clear_area
  parse_clear_area-IsWhole =
      parse_own-IsWhole little_endian clear_area 61 _ _ _
        (record { two_bytes = refl; aligned = refl }) no_suffix-IsAligned

  pub parse_copy_area-IsWhole : IsWhole little_endian (parse_copy_area little_endian)
  unfolding sizeof_struct parse_copy_area
  parse_copy_area-IsWhole =
      parse_own-IsWhole little_endian copy_area 62 _ _ _
        (record { two_bytes = refl; aligned = refl }) no_suffix-IsAligned

  pub parse_copy_plane-IsWhole : IsWhole little_endian (parse_copy_plane little_endian)
  unfolding sizeof_struct parse_copy_plane
  parse_copy_plane-IsWhole =
      parse_own-IsWhole little_endian copy_plane 63 _ _ _
        (record { two_bytes = refl; aligned = refl }) no_suffix-IsAligned
