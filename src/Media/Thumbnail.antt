-- ===== src/Media/Thumbnail.antt =====
-- pkg/ffmpeg/thumbnail.go: the thumbnail of a video with the progress of its bookmark. What is called of the file
-- system, of the ffmpeg program and of the image library is a parameter, over a state of the files.
pub mod Progress
use godlna.Base.{
  map, codes, has_byte, has_suffix, ℕ, zero, suc, ◌+◌, ◌-◌, ◌*◌, ◌/◌, Text, List, [], ◌∷◌, ◌++◌,
  Option, none, some, Bool, true, false, ◌&&◌, ◌||◌, not, if◌then◌else◌, ltb, nat_beq, ℤ, pos,
  negsuc, ltb_ℤ, ◌-ℤ◌, quot, scale, wrap_int64, int64_mod, ◌≡◌, refl,
}
use godlna.Backend.Files.{to_lower}
use godlna.Media.Duration.{duration_to_string}
use godlna.Media.ProgressBar.{
  Color, ProgressBarOption, progress_size, progress_padding_x, progress_padding_y,
  progress_complete_color, progress_incomplete_color, progress_full_color, progress_position,
  position_top, position_right, position_bottom, position_left, Draw, add_progress_bar,
}

-- `uint` of an int64.
abbrev pub to_uint : ℤ → ℕ
to_uint (pos n) = n
to_uint (negsuc n) = int64_mod - 1 - n

unfoldable pub clamped : ℕ → ℕ
clamped progress = if nat_beq progress 0 then 1 else if ltb 100 progress then 100 else progress

-- The second branch: a bookmark and a duration above 0.
unfoldable pub watched : ℤ → ℤ → ℤ → ℕ × ℤ
unfolding clamped
watched (pos duration) (pos bookmark) time_to_seek =
    if ltb 0 bookmark && ltb 0 duration
    then (clamped (to_uint (quot (wrap_int64 (scale (pos bookmark) 100)) duration)), pos bookmark)
    else (0, time_to_seek)
watched (pos duration) (negsuc n) time_to_seek = (0, time_to_seek)
watched (negsuc n) bookmark time_to_seek = (0, time_to_seek)

-- Times are in nanoseconds; the seek time is a tenth by default.
unfoldable pub get_progress_and_time_to_seek : ℤ → ℤ → ℤ → ℕ × ℤ
get_progress_and_time_to_seek duration bookmark leeway =
    let time_to_seek = quot duration 10 in
    if not (ltb_ℤ bookmark (wrap_int64 (duration -ℤ leeway)))
    then (100, time_to_seek)
    else watched duration bookmark time_to_seek

pub record ThumbnailConfig : Type 0 where
  pub width : ℤ
  pub height : ℤ
  pub complete_leeway : ℤ
  pub jpeg_quality : ℤ
  pub progress_bar_options : List ProgressBarOption

abbrev pub default_thumbnail_config : ThumbnailConfig
default_thumbnail_config = record {
  width = pos 480;
  height = pos 300;
  complete_leeway = pos 5000000000;
  jpeg_quality = pos 80;
  progress_bar_options = [];
}

-- The options, applied in order.
abbrev pub ThumbnailOption : Type 0
ThumbnailOption = ThumbnailConfig → ThumbnailConfig

abbrev pub set_width : ℤ → ThumbnailOption
set_width width c = record c { width = width }

abbrev pub set_height : ℤ → ThumbnailOption
set_height height c = record c { height = height }

abbrev pub set_complete_leeway : ℤ → ThumbnailOption
set_complete_leeway leeway c = record c { complete_leeway = leeway }

abbrev pub set_jpeg_quality : ℤ → ThumbnailOption
set_jpeg_quality quality c = record c { jpeg_quality = quality }

abbrev pub add_progress_option : ProgressBarOption → ThumbnailOption
add_progress_option option c = record c {
  progress_bar_options = c.progress_bar_options ++ (option ∷ []);
}

abbrev pub set_progress_size : ℤ → ThumbnailOption
set_progress_size size = add_progress_option (progress_size size)

abbrev pub set_progress_padding_x : ℤ → ThumbnailOption
set_progress_padding_x padding = add_progress_option (progress_padding_x padding)

abbrev pub set_progress_padding_y : ℤ → ThumbnailOption
set_progress_padding_y padding = add_progress_option (progress_padding_y padding)

abbrev pub set_progress_complete_color : Color → ThumbnailOption
set_progress_complete_color cl = add_progress_option (progress_complete_color cl)

abbrev pub set_progress_incomplete_color : Color → ThumbnailOption
set_progress_incomplete_color cl = add_progress_option (progress_incomplete_color cl)

abbrev pub set_progress_full_color : Color → ThumbnailOption
set_progress_full_color cl = add_progress_option (progress_full_color cl)

abbrev pub set_progress_position : ℤ → ThumbnailOption
set_progress_position position = add_progress_option (progress_position position)

abbrev pub progress_position_top : ThumbnailOption
progress_position_top = set_progress_position position_top

abbrev pub progress_position_right : ThumbnailOption
progress_position_right = set_progress_position position_right

abbrev pub progress_position_bottom : ThumbnailOption
progress_position_bottom = set_progress_position position_bottom

abbrev pub progress_position_left : ThumbnailOption
progress_position_left = set_progress_position position_left

unfoldable pub with_options : ThumbnailConfig → List ThumbnailOption → ThumbnailConfig
with_options c [] = c
with_options c (option ∷ options) = with_options (option c) options

-- The calls outside, over a state of the files. Errors other than that a directory exists are false.
pub record Tools (F I : Type 0) : Type 0 where
  pub exists : F → Text → Bool
  pub ffmpeg : F → List Text → Option Text
  pub decode : Text → Option I
  pub scaled : I → ℤ → ℤ → I
  pub draw : I → List Draw → I
  pub mkdir_all : F → Text → F × Bool
  pub create : F → Text → F × Bool
  pub encode_png : F → Text → I → F × Bool
  pub encode_jpeg : F → Text → I → ℤ → F × Bool

pub data Outcome : Type 0 where
  saved failed panicked : Outcome

-- The directory that `path.Split` gives, with its slash.
unfoldable pub split_dir : Text → Text
split_dir [] = []
split_dir (c ∷ s) = let rest = split_dir s in if has_byte b'/' (c ∷ s) then c ∷ rest else []

abbrev outcome_of : Bool → Outcome
outcome_of ok = if ok then saved else failed

unfoldable pub jpeg_quality_of : ℤ → ℤ
jpeg_quality_of quality =
    if not (ltb_ℤ (pos 0) quality) || ltb_ℤ (pos 100) quality then pos 95 else quality

-- `imaging.Save` after the file is created.
encoded : {F I : Type 0} → Tools F I → F → I → Text → ℤ → F × Bool
unfolding jpeg_quality_of
encoded tools f im filename quality =
    if has_suffix (codes ".png") (map to_lower filename)
    then tools.encode_png f filename im
    else tools.encode_jpeg f filename im (jpeg_quality_of quality)

created : {F I : Type 0} → Tools F I → F × Bool → I → Text → ℤ → F × Bool
unfolding encoded
created tools (f, false) im filename quality = (f, false)
created tools (f, true) im filename quality = encoded tools f im filename quality

made : {F I : Type 0} → Tools F I → F × Bool → I → Text → ℤ → F × Bool
unfolding created
made tools (f, false) im filename quality = (f, false)
made tools (f, true) im filename quality =
    created tools (tools.create f filename) im filename quality

unfoldable pub save : {F I : Type 0} → Tools F I → F → I → Text → ℤ → F × Bool
unfolding made split_dir
save tools f im filename quality =
    made tools (tools.mkdir_all f (split_dir filename)) im filename quality

-- `GetVideoFrame` of ffmpeg.go
unfoldable pub get_video_frame : {F I : Type 0} → Tools F I → F → Text → ℤ → Option Text
get_video_frame tools f src time_to_seek = tools.ffmpeg f (
    codes "-ss"
    ∷ duration_to_string time_to_seek
    ∷ codes "-i"
    ∷ src
    ∷ codes "-y"
    ∷ codes "-r"
    ∷ codes "1"
    ∷ codes "-vframes"
    ∷ codes "1"
    ∷ codes "-an"
    ∷ codes "-loglevel"
    ∷ codes "panic"
    ∷ codes "-f"
    ∷ codes "mjpeg"
    ∷ codes "pipe:1"
    ∷ [])

-- The last steps of `Thumbnail`: the bar is drawn on the scaled image, which is saved.
finish :
    {F I : Type 0} → Tools F I → F → Text → ThumbnailConfig → I → Option (List Draw) → F × Outcome
finish tools f thumb_file cfg thumb none = (f, panicked)
finish tools f thumb_file cfg thumb (some drawings) =
    let (f', ok) = save tools f (tools.draw thumb drawings) thumb_file cfg.jpeg_quality in
    (f', outcome_of ok)

decoded : {F I : Type 0} → Tools F I → F → Text → ThumbnailConfig → ℕ → Option I → F × Outcome
unfolding finish
decoded tools f thumb_file cfg progress none = (f, failed)
decoded tools f thumb_file cfg progress (some im) =
    finish tools f thumb_file cfg (tools.scaled im cfg.width cfg.height)
      (add_progress_bar (some (cfg.width, cfg.height)) progress cfg.progress_bar_options)

with_frame : {F I : Type 0} → Tools F I → F → Text → ThumbnailConfig → ℕ → Option Text → F × Outcome
unfolding decoded
with_frame tools f thumb_file cfg progress none = (f, failed)
with_frame tools f thumb_file cfg progress (some body) =
    decoded tools f thumb_file cfg progress (tools.decode body)

-- The steps from the progress and the seek time on.
unfoldable pub picture :
    {F I : Type 0} → Tools F I → F → Text → Text → ThumbnailConfig → ℕ × ℤ → F × Outcome
unfolding with_frame
picture tools f video_file thumb_file cfg (progress, time_to_seek) =
    with_frame tools f thumb_file cfg progress (get_video_frame tools f video_file time_to_seek)

unfoldable pub thumbnail :
    {F I : Type 0} → Tools F I → F → Text → Text → ℤ → ℤ → List ThumbnailOption → F × Outcome
thumbnail tools f video_file thumb_file duration bookmark options =
    let cfg = with_options default_thumbnail_config options in
    if tools.exists f video_file
    then picture tools f video_file thumb_file cfg
        (get_progress_and_time_to_seek duration bookmark cfg.complete_leeway)
    else (f, failed)
