-- ===== src/Parser/Replies/Sized/Colors.antt =====
-- Replies on images, colors and cursors are parsed whole.
use xtracepp.Base.{refl, Bool}
use xtracepp.Protocol.{sizeof_struct, resource_id}
use xtracepp.Parser.Replies.Whole.{IsWholeReply, parse_reply-IsWhole}
use xtracepp.Parser.Replies.Aligned.{
  parse_fixed-aligned, parse_formatted-aligned, nothing_more-IsAligned, reply_list-IsAligned,
  padded_list-IsAligned, two_lists-IsAligned,
}
use xtracepp.Parser.Replies.Colors.{
  parse_get_image_reply, parse_list_installed_colormaps_reply, parse_alloc_color_reply,
  parse_alloc_named_color_reply, parse_alloc_color_cells_reply, parse_alloc_color_planes_reply,
  parse_query_colors_reply, parse_lookup_color_reply, parse_query_best_size_reply,
}
use xtracepp.Protocol.Replies.Colors.{
  get_image_reply, list_installed_colormaps_reply, alloc_color_reply, alloc_named_color_reply,
  alloc_color_cells_reply, alloc_color_planes_reply, query_colors_reply, lookup_color_reply,
  query_best_size_reply,
}

module _ (little_endian : Bool) where
  pub parse_get_image_reply-IsWhole :
      IsWholeReply little_endian (parse_get_image_reply little_endian)
  unfolding parse_get_image_reply sizeof_struct
  parse_get_image_reply-IsWhole =
      parse_reply-IsWhole little_endian get_image_reply _ _ refl (padded_list-IsAligned _ _)

  pub parse_list_installed_colormaps_reply-IsWhole :
      IsWholeReply little_endian (parse_list_installed_colormaps_reply little_endian)
  unfolding parse_list_installed_colormaps_reply sizeof_struct
  parse_list_installed_colormaps_reply-IsWhole =
      parse_reply-IsWhole little_endian list_installed_colormaps_reply _ _ refl
        (reply_list-IsAligned _ _ (λ o. parse_formatted-aligned o resource_id refl))

  pub parse_alloc_color_reply-IsWhole :
      IsWholeReply little_endian (parse_alloc_color_reply little_endian)
  unfolding parse_alloc_color_reply sizeof_struct
  parse_alloc_color_reply-IsWhole =
      parse_reply-IsWhole little_endian alloc_color_reply _ _ refl nothing_more-IsAligned

  pub parse_alloc_named_color_reply-IsWhole :
      IsWholeReply little_endian (parse_alloc_named_color_reply little_endian)
  unfolding parse_alloc_named_color_reply sizeof_struct
  parse_alloc_named_color_reply-IsWhole =
      parse_reply-IsWhole little_endian alloc_named_color_reply _ _ refl nothing_more-IsAligned

  pub parse_alloc_color_cells_reply-IsWhole :
      IsWholeReply little_endian (parse_alloc_color_cells_reply little_endian)
  unfolding parse_alloc_color_cells_reply sizeof_struct
  parse_alloc_color_cells_reply-IsWhole =
      parse_reply-IsWhole little_endian alloc_color_cells_reply _ _ refl (
        two_lists-IsAligned _ _ _ _ (λ o. parse_fixed-aligned 4 refl)
          (λ o. parse_fixed-aligned 4 refl))

  pub parse_alloc_color_planes_reply-IsWhole :
      IsWholeReply little_endian (parse_alloc_color_planes_reply little_endian)
  unfolding parse_alloc_color_planes_reply sizeof_struct
  parse_alloc_color_planes_reply-IsWhole =
      parse_reply-IsWhole little_endian alloc_color_planes_reply _ _ refl
        (reply_list-IsAligned _ _ (λ o. parse_fixed-aligned 4 refl))

  pub parse_query_colors_reply-IsWhole :
      IsWholeReply little_endian (parse_query_colors_reply little_endian)
  unfolding parse_query_colors_reply sizeof_struct
  parse_query_colors_reply-IsWhole =
      parse_reply-IsWhole little_endian query_colors_reply _ _ refl
        (reply_list-IsAligned _ _ (λ o. parse_fixed-aligned 8 refl))

  pub parse_lookup_color_reply-IsWhole :
      IsWholeReply little_endian (parse_lookup_color_reply little_endian)
  unfolding parse_lookup_color_reply sizeof_struct
  parse_lookup_color_reply-IsWhole =
      parse_reply-IsWhole little_endian lookup_color_reply _ _ refl nothing_more-IsAligned

  pub parse_query_best_size_reply-IsWhole :
      IsWholeReply little_endian (parse_query_best_size_reply little_endian)
  unfolding parse_query_best_size_reply sizeof_struct
  parse_query_best_size_reply-IsWhole =
      parse_reply-IsWhole little_endian query_best_size_reply _ _ refl nothing_more-IsAligned
