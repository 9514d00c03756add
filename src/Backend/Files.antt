-- ===== src/Backend/Files.antt =====
-- Which files are indexed (`ignoreFn` of dlna/backend/backend.go) and where the server's own files
-- stand (thumbnail.go, bookmark_info.go, video_info.go).
use godlna.Base.{
  ℕ, ◌+◌, Text, codes, text_beq, List, [], ◌∷◌, ◌++◌, Bool, true, false, ◌&&◌, ◌||◌, not,
  if◌then◌else◌, ◌≡◌, refl, arith, leb, map, base_name, dir_name, ext, has_byte, has_prefix,
  contains_text, has_suffix, contains_text-append,
}

abbrev pub video_extensions : List Text
video_extensions =
    codes ".mpg"
    ∷ codes ".mpeg"
    ∷ codes ".avi"
    ∷ codes ".mkv"
    ∷ codes ".mp4"
    ∷ codes ".m4v"
    ∷ codes ".divx"
    ∷ codes ".asf"
    ∷ codes ".wmv"
    ∷ codes ".mts"
    ∷ codes ".m2ts"
    ∷ codes ".m2t"
    ∷ codes ".vob"
    ∷ codes ".ts"
    ∷ codes ".flv"
    ∷ codes ".xvid"
    ∷ codes ".mov"
    ∷ codes ".3gp"
    ∷ codes ".rm"
    ∷ codes ".rmvb"
    ∷ codes ".webm"
    ∷ []

-- `strings.ToLower` on ASCII, which the extensions are compared with.
unfoldable pub to_lower : ℕ → ℕ
to_lower c = if leb b'A' c && leb c b'Z' then c + 32 else c

unfoldable pub has_text : List Text → Text → Bool
has_text [] t = false
has_text (x ∷ xs) t = text_beq t x || has_text xs t

unfoldable pub ignore_fn : Text → Bool → Bool
unfolding to_lower has_text
ignore_fn name is_dir =
    if is_dir
    then has_suffix (codes "/@eaDir") name || contains_text (codes "/@eaDir/") name
    else if contains_text (codes "/@eaDir/") name
    then true
    else not (has_text video_extensions (map to_lower (ext name)))

in_ea_dir : Text → Text → Text
in_ea_dir video_file name =
    dir_name video_file ++ (codes "/@eaDir/" ++ (base_name video_file ++ name))

unfoldable pub video_info_cache_file : Text → Text
unfolding in_ea_dir
video_info_cache_file video_file = in_ea_dir video_file (codes "/SYNOVIDEO_VIDEO_INFO")

unfoldable pub bookmark_info_cache_file : Text → Text
unfolding in_ea_dir
bookmark_info_cache_file video_file = in_ea_dir video_file (codes "/SYNOVIDEO_VIDEO_BOOKMARK")

unfoldable pub thumbnail_file : Text → Text
unfolding in_ea_dir
thumbnail_file video_file = in_ea_dir video_file (codes "/SYNOVIDEO_VIDEO_SCREENSHOT.jpg")

ignore_in_ea_dir : (v name : Text) (is_dir : Bool) → ignore_fn (in_ea_dir v name) is_dir ≡ true
unfolding ignore_fn in_ea_dir
ignore_in_ea_dir v name is_dir =
    ground (arith, contains_text-append (dir_name v) (codes "/@eaDir/") (base_name v ++ name))

-- The files that the server writes beside a video, and directories of those names, are ignored.
pub ignore_fn_own_files :
    (v : Text) (is_dir : Bool)
    → (ignore_fn (thumbnail_file v) is_dir ≡ true)
      × (ignore_fn (bookmark_info_cache_file v) is_dir ≡ true)
      × (ignore_fn (video_info_cache_file v) is_dir ≡ true)
unfolding thumbnail_file bookmark_info_cache_file video_info_cache_file
ignore_fn_own_files v is_dir = (
  ignore_in_ea_dir v (codes "/SYNOVIDEO_VIDEO_SCREENSHOT.jpg") is_dir,
  ignore_in_ea_dir v (codes "/SYNOVIDEO_VIDEO_BOOKMARK") is_dir,
  ignore_in_ea_dir v (codes "/SYNOVIDEO_VIDEO_INFO") is_dir,
)

a_film : ignore_fn (codes "/v/Film.MKV") false ≡ false
unfolding ignore_fn contains_text ext text_beq has_byte has_prefix
a_film = refl
