-- ===== src/Backend/Thumbnails/Progress.antt =====
-- thumbnail.go of dlna/backend: what the thumbnail of a video shows.
use godlna.Base.{
  ℕ, ◌+◌, ◌*◌, ◌/◌, ◌^◌, ◌≤◌, Text, [], ◌∷◌, Option, none, some, not, if◌then◌else◌, ltb, nat_beq,
  ℤ, pos, scale, wrap_int64, to_int64_exact, ◌≡◌, refl, arith, ◌∙◌,
}
use godlna.Backend.Object.{int_beq}
use godlna.Backend.Files.{thumbnail_file}
use godlna.Backend.Thumbnails.{shown_bookmark, options, make_thumbnail}
use godlna.Media.Thumbnail.{
  ThumbnailConfig, default_thumbnail_config, with_options, Tools, failed, thumbnail, picture,
  get_progress_and_time_to_seek,
}
use godlna.Media.Thumbnail.Progress.{get_progress_and_time_to_seek_exact}
use godlna.Media.ProgressBar.{
  Rectangle, progress_size, progress_position, add_progress_bar, default_progress_bar_config,
  configured, applied,
}
use godlna.Media.ProgressBar.Inside.{shown, add_progress_bar_exact}
use native.Mathlib.Nat.{mul-div-mul_right, div-le_of_le-mul}

-- The bookmark that counts, in milliseconds.
abbrev pub counted : ℕ → Option ℕ → ℕ
counted d none = 0
counted d (some b) = if nat_beq b 0 then d else if ltb d b then d else b

-- What is to be seen of a video of some milliseconds with a bookmark: the progress, and the frame in milliseconds. In
-- the last five seconds, and for a bookmark of 0, it is the end; without a bookmark it is the start; else the
-- hundredths of the video, at least 1.
abbrev pub seen : ℕ → ℕ → ℕ × ℤ
seen d b =
    if not (ltb (b + 5000) d)
    then (100, pos (d * 1000000 / 10))
    else if nat_beq b 0
    then (0, pos (d * 1000000 / 10))
    else (if nat_beq (b * 100 / d) 0 then 1 else b * 100 / d, pos (b * 1000000))

abbrev to_pos : Option ℕ → Option ℤ
to_pos none = none
to_pos (some b) = some (pos b)

shown-counted : (d : ℕ) (b : Option ℕ) → shown_bookmark (pos d) (to_pos b) ≡ pos (counted d b)
unfolding shown_bookmark int_beq
shown-counted d none = refl
shown-counted d (some b) = ground arith

counted_bound : (d : ℕ) (b : Option ℕ) → counted d b ≤ d
counted_bound d none = omega arith
counted_bound d (some b) = ground arith

milliseconds_exact : (d : ℕ) → d ≤ 2 ^ 36 → wrap_int64 (scale (pos d) 1000000) ≡ pos (d * 1000000)
unfolding wrap_int64
milliseconds_exact d h = to_int64_exact (d * 1000000) (omega arith)

hundredths_scaled : (b d : ℕ) → b * 1000000 * 100 / (d * 1000000) ≡ b * 100 / d
hundredths_scaled b d =
    let e : b * 1000000 * 100 ≡ b * 100 * 1000000 = omega arith in
    rw e (mul-div-mul_right (b * 100) d (omega arith))

progress-seen :
    (d b : ℕ)
    → d ≤ 2 ^ 36
    → b ≤ d
    → get_progress_and_time_to_seek (pos (d * 1000000)) (pos (b * 1000000)) (pos 5000000000)
      ≡ seen d b
progress-seen d b h k =
    (get_progress_and_time_to_seek_exact (d * 1000000) (b * 1000000) 5000000000 (omega arith)
      (omega arith) (omega arith)).0
    ∙ rw (hundredths_scaled b d) (ground arith)

seen_bound : (d b : ℕ) → b ≤ d → (seen d b).0 ≤ 100
seen_bound d b k =
    let s : b * 100 / d ≤ 100 = div-le_of_le-mul d (omega (arith, k)) in ground (arith, s)

abbrev pub config : ThumbnailConfig
config = record {
  width = pos 480;
  height = pos 300;
  complete_leeway = pos 5000000000;
  jpeg_quality = pos 80;
  progress_bar_options = progress_size (pos 20) ∷ progress_position (pos 2) ∷ [];
}

chosen_options : with_options default_thumbnail_config options ≡ config
unfolding with_options
chosen_options = refl

-- A bar at the lower edge of the picture, of the given hundredths of its width.
abbrev pub lower_bar : ℕ → Rectangle
lower_bar q = record {
  min_x = pos 0;
  min_y = pos 280;
  max_x = pos (480 * q / 100);
  max_y = pos 300;
}

bar_drawn :
    (q : ℕ)
    → add_progress_bar (some (config.width, config.height)) q config.progress_bar_options
      ≡ some (shown q (lower_bar 100) (lower_bar q) default_progress_bar_config)
unfolding configured applied
bar_drawn q =
    let z : 0 + 480 * q / 100 ≡ 480 * q / 100 = omega arith in
    (add_progress_bar_exact q 480 300 20 0 0 config.progress_bar_options (omega arith) refl refl
      refl).0
    ∙ rw z refl

-- A video of up to 2 ^ 36 milliseconds with any bookmark of it or none: the thumbnail is taken at the frame, and shows
-- the progress, that are to be seen of the bookmark that counts; the progress is at most 100, and for every frame the
-- bar is drawn at the lower edge, all of it and over it the progress' hundredths of the picture's width, without a
-- panic.
pub make_thumbnail-seen :
    {F I : Type 0} (tools : Tools F I) (f : F) (video_file : Text) (d : ℕ) (b : Option ℕ)
    → d ≤ 2 ^ 36
    → let view = seen d (counted d b) in
      (make_thumbnail tools f video_file (pos d) (to_pos b) ≡ (
        if tools.exists f video_file
        then picture tools f video_file (thumbnail_file video_file) config view
        else (f, failed)))
      × (view.0 ≤ 100)
      × (add_progress_bar (some (config.width, config.height)) view.0 config.progress_bar_options
          ≡ some (shown view.0 (lower_bar 100) (lower_bar view.0) default_progress_bar_config))
unfolding make_thumbnail thumbnail
make_thumbnail-seen tools f video_file d b h =
    let k = counted_bound d b in
    let e = progress-seen d (counted d b) h k in
    (
      rw
          (
            shown-counted d b,
            milliseconds_exact d h,
            milliseconds_exact (counted d b) (omega (arith, k)),
            chosen_options,
            e,
          )
          refl,
      seen_bound d (counted d b) k,
      bar_drawn (seen d (counted d b)).0,
    )
