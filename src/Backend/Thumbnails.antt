-- ===== src/Backend/Thumbnails.antt =====
-- thumbnail.go of dlna/backend: the thumbnail that shows the bookmark of a video, in milliseconds.
pub mod Progress
pub mod Kept
use godlna.Base.{
  ℕ, zero, suc, ◌*◌, Text, codes, List, [], ◌∷◌, Option, none, some, Bool, true, false,
  if◌then◌else◌, nat_beq, ◌||◌, ltb, ℤ, pos, negsuc, ltb_ℤ, scale, wrap_int64, ◌≡◌,
}
use godlna.Backend.Object.{int_beq}
use godlna.Backend.Files.{thumbnail_file}
use godlna.Backend.Service.{Media}
use godlna.Backend.Caches.{
  Disk, Codec, Stat, not_exist, unknown, found, get_video_info, get_bookmark_info,
  set_bookmark_info,
}
use godlna.Media.Probe.{Data}
use godlna.Media.Thumbnail.{
  ThumbnailOption, Tools, Outcome, saved, failed, panicked, thumbnail, set_width, set_height,
  set_complete_leeway, set_jpeg_quality, set_progress_size, progress_position_bottom,
}

unfoldable pub is_thumbnail_exists : {F : Type 0} → Disk F → F → Text → Bool
is_thumbnail_exists disk f video_file = elim (disk.stat f (thumbnail_file video_file)) [
  | not_exist ↦ false
  | unknown ↦ true
  | found is_dir size time ↦ true
]

-- A bookmark of 0 is of a video that was watched to its end.
unfoldable pub shown_bookmark : ℤ → Option ℤ → ℤ
unfolding int_beq
shown_bookmark duration none = pos 0
shown_bookmark duration (some b) = if int_beq b (pos 0) || ltb_ℤ duration b then duration else b

abbrev pub options : List ThumbnailOption
options =
    set_width (pos 480)
    ∷ set_height (pos 300)
    ∷ set_complete_leeway (pos 5000000000)
    ∷ set_jpeg_quality (pos 80)
    ∷ set_progress_size (pos 20)
    ∷ progress_position_bottom
    ∷ []

unfoldable pub make_thumbnail : {F I : Type 0} → Tools F I → F → Text → ℤ → Option ℤ → F × Outcome
make_thumbnail tools f video_file duration bookmark =
    thumbnail tools f video_file (thumbnail_file video_file) (wrap_int64 (scale duration 1000000))
      (wrap_int64 (scale (shown_bookmark duration bookmark) 1000000)) options

-- The calls of the service, over a disk and its tools. A panic ends the call without success.
abbrev succeeded : Outcome → Bool
succeeded saved = true
succeeded failed = false
succeeded panicked = false

abbrev pub media_of : {F I : Type 0} → Disk F → Codec → (Text → Option Data) → Tools F I → Media F
media_of disk codec probe tools = record {
  get_video_info = λ f v. get_video_info codec disk probe f v;
  get_bookmark_info = λ f v. get_bookmark_info disk f v;
  set_bookmark_info = λ f v b. set_bookmark_info disk f v b;
  make_thumbnail =
      λ f v d b. let (f', outcome) = make_thumbnail tools f v d b in (f', succeeded outcome);
  thumbnail_exists = λ f v. is_thumbnail_exists disk f v;
}
