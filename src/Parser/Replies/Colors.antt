-- ===== src/Parser/Replies/Colors.antt =====
-- src/X11ProtocolParser__parseReply.cpp: replies on images, colors and cursors.
use xtracepp.Base.{ℕ, Bool, [], ◌∷◌}
use xtracepp.Wire.Alignment.{aligned_size}
use xtracepp.Parser.Fields.{u32}
use xtracepp.Protocol.{resource_id}
use xtracepp.Protocol.Replies.Colors.{
  get_image_reply, list_installed_colormaps_reply, alloc_color_reply, alloc_named_color_reply,
  alloc_color_cells_reply, alloc_color_planes_reply, query_colors_reply, lookup_color_reply,
  query_best_size_reply,
}
use xtracepp.Parser.ListMembers.{parse_fixed}
use xtracepp.Parser.Requests.Suffixes.{parse_formatted}
use xtracepp.Parser.Replies.{Replying, ReplyParser, reply_member, parse_reply}
use xtracepp.Parser.Replies.Suffixes.{nothing_more, reply_list, padded_list, two_lists}

-- The data is all that the length announces.
unfoldable pub image_ct : Replying → ℕ
unfolding aligned_size
image_ct r = aligned_size (u32 r.order r.message 4)

module _ (little_endian : Bool) where
  unfoldable pub parse_get_image_reply : ReplyParser
  parse_get_image_reply =
      parse_reply little_endian get_image_reply (padded_list (λ o. parse_fixed 1) image_ct)
        ("header.depth" ∷ "visual" ∷ [])

  unfoldable pub parse_list_installed_colormaps_reply : ReplyParser
  parse_list_installed_colormaps_reply =
      parse_reply little_endian list_installed_colormaps_reply
        (reply_list (λ o. parse_formatted o resource_id) (λ r. reply_member r "cmaps_ct")) []

  unfoldable pub parse_alloc_color_reply : ReplyParser
  parse_alloc_color_reply =
      parse_reply little_endian alloc_color_reply nothing_more
        ("red" ∷ "green" ∷ "blue" ∷ "pixel" ∷ [])

  unfoldable pub parse_alloc_named_color_reply : ReplyParser
  parse_alloc_named_color_reply = parse_reply little_endian alloc_named_color_reply nothing_more (
      "pixel" ∷ "exact_red" ∷ "exact_green" ∷ "exact_blue" ∷ "visual_red" ∷ "visual_green"
      ∷ "visual_blue" ∷ [])

  unfoldable pub parse_alloc_color_cells_reply : ReplyParser
  parse_alloc_color_cells_reply =
      parse_reply little_endian alloc_color_cells_reply
        (two_lists (λ o. parse_fixed 4) (λ r. reply_member r "pixels_ct") (λ o. parse_fixed 4)
          (λ r. reply_member r "masks_ct"))
        []

  unfoldable pub parse_alloc_color_planes_reply : ReplyParser
  parse_alloc_color_planes_reply =
      parse_reply little_endian alloc_color_planes_reply
        (reply_list (λ o. parse_fixed 4) (λ r. reply_member r "pixels_ct"))
        ("red_mask" ∷ "green_mask" ∷ "blue_mask" ∷ [])

  unfoldable pub parse_query_colors_reply : ReplyParser
  parse_query_colors_reply =
      parse_reply little_endian query_colors_reply
        (reply_list (λ o. parse_fixed 8) (λ r. reply_member r "colors_ct")) []

  unfoldable pub parse_lookup_color_reply : ReplyParser
  parse_lookup_color_reply = parse_reply little_endian lookup_color_reply nothing_more (
      "exact_red" ∷ "exact_green" ∷ "exact_blue" ∷ "visual_red" ∷ "visual_green" ∷ "visual_blue"
      ∷ [])

  unfoldable pub parse_query_best_size_reply : ReplyParser
  parse_query_best_size_reply =
      parse_reply little_endian query_best_size_reply nothing_more ("width" ∷ "height" ∷ [])
