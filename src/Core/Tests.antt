-- ===== src/Core/Tests.antt =====
-- Media types and their kinds.
use dyson_fs.Base.{
  List, Text, [], codes, contains, false, has_prefix, put_row, refl, row_at, some, split_two,
  text_discrete, to_lower, trim_space, ℕ, ℕ_discrete, ◌∷◌, ◌≡◌, nat_eq, text_equality,
}
use dyson_fs.Core.{
  kind_of, new_analysis_registry, enable, enabled, any_kind, handles, analyze_source,
  needs_server_reanalysis, schedule_reanalysis, register, handler,
}

program : Unit {0}
unfolding kind_of new_analysis_registry enable enabled any_kind handles analyze_source
    needs_server_reanalysis schedule_reanalysis register handler to_lower trim_space split_two
    has_prefix contains row_at put_row text_discrete ℕ_discrete
program = tt

upper_image : kind_of (codes " Image/PNG; q=1") ≡ codes "image"
unfolding program
upper_image = refl

-- The word of the comment of Enable turns nothing on by itself.
all_handles_none : handles (enable (codes "all") new_analysis_registry) (codes "image/png") ≡ false
unfolding program
all_handles_none = refl

abbrev thumbnails : List (Text × ℕ)
thumbnails = (codes "image", 1) ∷ []

video_handled : handler (register (codes " Video") 2 thumbnails) (codes "video/mp4") ≡ some 2
unfolding program
video_handled = refl

image_kept : handler (register (codes "video") 2 thumbnails) (codes "image/png") ≡ some 1
unfolding program
image_kept = refl
