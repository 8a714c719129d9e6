-- ===== src/Protocol/Replies/Colors.antt =====
-- src/include/protocol/requests.hpp: replies on images, colors and cursors.
use xtracepp.Base.{[], ◌∷◌}
use xtracepp.Protocol.{Struct, byte_type, long_type, resource_id, short_type, unused}

abbrev pub get_image_reply : Struct
get_image_reply =
    ("header.reply", byte_type)
    ∷ ("header.depth", byte_type)
    ∷ ("header.sequence_num", short_type)
    ∷ ("header.extra_aligned_units", long_type)
    ∷ ("visual", resource_id)
    ∷ ("unused", unused 20)
    ∷ []

abbrev pub list_installed_colormaps_reply : Struct
list_installed_colormaps_reply =
    ("header.reply", byte_type)
    ∷ ("header.depth", byte_type)
    ∷ ("header.sequence_num", short_type)
    ∷ ("header.extra_aligned_units", long_type)
    ∷ ("cmaps_ct", short_type)
    ∷ ("unused", unused 22)
    ∷ []

abbrev pub alloc_color_reply : Struct
alloc_color_reply =
    ("header.reply", byte_type)
    ∷ ("unused", unused 1)
    ∷ ("header.sequence_num", short_type)
    ∷ ("header.extra_aligned_units", long_type)
    ∷ ("red", short_type)
    ∷ ("green", short_type)
    ∷ ("blue", short_type)
    ∷ ("unused", unused 2)
    ∷ ("pixel", long_type)
    ∷ ("unused", unused 12)
    ∷ []

abbrev pub alloc_named_color_reply : Struct
alloc_named_color_reply =
    ("header.reply", byte_type)
    ∷ ("unused", unused 1)
    ∷ ("header.sequence_num", short_type)
    ∷ ("header.extra_aligned_units", long_type)
    ∷ ("pixel", long_type)
    ∷ ("exact_red", short_type)
    ∷ ("exact_green", short_type)
    ∷ ("exact_blue", short_type)
    ∷ ("visual_red", short_type)
    ∷ ("visual_green", short_type)
    ∷ ("visual_blue", short_type)
    ∷ ("unused", unused 8)
    ∷ []

abbrev pub alloc_color_cells_reply : Struct
alloc_color_cells_reply =
    ("header.reply", byte_type)
    ∷ ("unused", unused 1)
    ∷ ("header.sequence_num", short_type)
    ∷ ("header.extra_aligned_units", long_type)
    ∷ ("pixels_ct", short_type)
    ∷ ("masks_ct", short_type)
    ∷ ("unused", unused 20)
    ∷ []

abbrev pub alloc_color_planes_reply : Struct
alloc_color_planes_reply =
    ("header.reply", byte_type)
    ∷ ("unused", unused 1)
    ∷ ("header.sequence_num", short_type)
    ∷ ("header.extra_aligned_units", long_type)
    ∷ ("pixels_ct", short_type)
    ∷ ("unused", unused 2)
    ∷ ("red_mask", long_type)
    ∷ ("green_mask", long_type)
    ∷ ("blue_mask", long_type)
    ∷ ("unused", unused 8)
    ∷ []

abbrev pub query_colors_reply : Struct
query_colors_reply =
    ("header.reply", byte_type)
    ∷ ("unused", unused 1)
    ∷ ("header.sequence_num", short_type)
    ∷ ("header.extra_aligned_units", long_type)
    ∷ ("colors_ct", short_type)
    ∷ ("unused", unused 22)
    ∷ []

abbrev pub lookup_color_reply : Struct
lookup_color_reply =
    ("header.reply", byte_type)
    ∷ ("unused", unused 1)
    ∷ ("header.sequence_num", short_type)
    ∷ ("header.extra_aligned_units", long_type)
    ∷ ("exact_red", short_type)
    ∷ ("exact_green", short_type)
    ∷ ("exact_blue", short_type)
    ∷ ("visual_red", short_type)
    ∷ ("visual_green", short_type)
    ∷ ("visual_blue", short_type)
    ∷ ("unused", unused 12)
    ∷ []

abbrev pub query_best_size_reply : Struct
query_best_size_reply =
    ("header.reply", byte_type)
    ∷ ("unused", unused 1)
    ∷ ("header.sequence_num", short_type)
    ∷ ("header.extra_aligned_units", long_type)
    ∷ ("width", short_type)
    ∷ ("height", short_type)
    ∷ ("unused", unused 20)
    ∷ []
