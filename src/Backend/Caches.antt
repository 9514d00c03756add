-- ===== src/Backend/Caches.antt =====
-- The cache files beside the videos: bookmark_info.go and video_info.go of dlna/backend. The disk, the ffprobe program
-- and the JSON codec are parameters.
pub mod Laws
pub mod Bookmarks
pub mod Videos
use godlna.Base.{
  ℕ, Text, codes, text_beq, List, [], ◌∷◌, Option, none, some, Bool, true, false, ◌&&◌, ◌||◌,
  if◌then◌else◌, leb, nat_beq, ℤ, pos, negsuc, quot, to_int64, decimal_ℤ, parse_int, trim, dir_name,
}
use godlna.Backend.Object.{VideoInfo, int_beq}
use godlna.Backend.Files.{video_info_cache_file, bookmark_info_cache_file}
use godlna.Media.Probe.{
  Data, Stream, Format, unmarshal_json, first_video_stream, first_audio_stream,
}

-- The result of os.ReadFile, and of os.Stat with the size and the time of the last change in seconds.
pub data Read : Type 0 where
  no_file unreadable : Read
  content : Text → Read

pub data Stat : Type 0 where
  not_exist unknown : Stat
  found : Bool → ℤ → ℤ → Stat

-- Calls of the package os. That a directory exists is no error.
pub record Disk (F : Type 0) : Type 0 where
  pub read_file : F → Text → Read
  pub stat : F → Text → Stat
  pub mkdir_all : F → Text → F × Bool
  pub write_file : F → Text → Text → F × Bool
  pub remove : F → Text → F

-- `strings.TrimSpace` on ASCII.
unfoldable pub is_space : ℕ → Bool
is_space c = nat_beq c b' ' || leb 9 c && leb c 13

checked_bookmark : Option ℤ → Option (Option ℤ)
checked_bookmark none = none
checked_bookmark (some (pos n)) = some (some (pos n))
checked_bookmark (some (negsuc n)) = none

parsed_bookmark : Text → Option (Option ℤ)
unfolding checked_bookmark
parsed_bookmark value = if text_beq value [] then some none else checked_bookmark (parse_int value)

-- `readCacheFile` of a bookmark; none is an error.
unfoldable pub read_bookmark : Read → Option (Option ℤ)
unfolding parsed_bookmark
read_bookmark no_file = some none
read_bookmark unreadable = none
read_bookmark (content body) = parsed_bookmark (trim is_space body)

-- The directory is made before the file is written.
unfoldable pub write_in_dir : {F : Type 0} → Disk F → F × Bool → Text → Text → F × Bool
write_in_dir disk (f, false) file body = (f, false)
write_in_dir disk (f, true) file body = disk.write_file f file body

abbrev gone : Stat → Bool
gone not_exist = true
gone unknown = false
gone (found is_dir size time) = true

-- `writeCacheFile` of a bookmark, and whether it reports success. No bookmark stands for the nil pointer as well.
unfoldable pub write_bookmark : {F : Type 0} → Disk F → F → Text → Option ℤ → F × Bool
unfolding write_in_dir
write_bookmark disk f file (some bookmark) =
    write_in_dir disk (disk.mkdir_all f (dir_name file)) file (decimal_ℤ bookmark)
write_bookmark disk f file none = let f' = disk.remove f file in (f', gone (disk.stat f' file))

unfoldable pub get_bookmark_info : {F : Type 0} → Disk F → F → Text → Option (Option ℤ)
unfolding read_bookmark
get_bookmark_info disk f video_file =
    read_bookmark (disk.read_file f (bookmark_info_cache_file video_file))

unfoldable pub set_bookmark_info : {F : Type 0} → Disk F → F → Text → Option ℤ → F × Bool
unfolding write_bookmark
set_bookmark_info disk f video_file bookmark =
    write_bookmark disk f (bookmark_info_cache_file video_file) bookmark

-- The JSON codec of a VideoInfo.
pub record Codec : Type 0 where
  pub marshal : VideoInfo → Text
  pub unmarshal : Text → Option VideoInfo

-- `readCacheFile` of a VideoInfo
unfoldable pub read_info : Codec → Read → Option VideoInfo
read_info codec no_file = none
read_info codec unreadable = none
read_info codec (content body) = codec.unmarshal body

-- `parseVideoFile`, with the size and the date that GetVideoInfo sets after it. The data of ffprobe hold the format as
-- its decoded fields.
info_of : Data → Option Stream → Option Stream → ℤ → ℤ → Option VideoInfo
info_of d none a size time = none
info_of d (some v) none size time = none
info_of d (some v) (some a) size time =
    let format = unmarshal_json d.format in
    some (record {
      format = format.name;
      file_size = size;
      video_codec = v.codec_name;
      audio_codec = a.codec_name;
      width = to_int64 v.width;
      height = to_int64 v.height;
      channels = to_int64 v.channels;
      bitrate = to_int64 format.bit_rate;
      frequency = to_int64 a.sample_rate;
      duration = quot format.duration 1000000;
      date = time;
    })

unfoldable pub parse_video_file : Option Data → ℤ → ℤ → Option VideoInfo
unfolding info_of
parse_video_file none size time = none
parse_video_file (some d) size time =
    info_of d (first_video_stream d) (first_audio_stream d) size time

unfoldable pub write_info : {F : Type 0} → Codec → Disk F → F → Text → VideoInfo → F × Bool
unfolding write_in_dir
write_info codec disk f file info =
    write_in_dir disk (disk.mkdir_all f (dir_name file)) file (codec.marshal info)

-- A parsed video is stored, and given also when that fails.
unfoldable pub keep_info :
    {F : Type 0} → Codec → Disk F → F → Text → Option VideoInfo → F × Option VideoInfo
unfolding write_info
keep_info codec disk f file none = (f, none)
keep_info codec disk f file (some info) = ((write_info codec disk f file info).0, some info)

-- A cached entry counts if the size and the time of the video are still the same.
cached_info :
    {F : Type 0}
    → Codec
    → Disk F
    → (Text → Option Data)
    → F
    → Text
    → Option VideoInfo
    → ℤ
    → ℤ
    → F × Option VideoInfo
unfolding parse_video_file keep_info
cached_info codec disk probe f video_file none size time =
    keep_info codec disk f (video_info_cache_file video_file)
      (parse_video_file (probe video_file) size time)
cached_info codec disk probe f video_file (some info) size time =
    if int_beq info.file_size size && int_beq info.date time
    then (f, some info)
    else keep_info codec disk f (video_info_cache_file video_file)
        (parse_video_file (probe video_file) size time)

unfoldable pub with_stat :
    {F : Type 0} → Codec → Disk F → (Text → Option Data) → F → Text → Stat → F × Option VideoInfo
unfolding cached_info read_info
with_stat codec disk probe f video_file not_exist = (f, none)
with_stat codec disk probe f video_file unknown = (f, none)
with_stat codec disk probe f video_file (found is_dir size time) =
    cached_info codec disk probe f video_file
      (read_info codec (disk.read_file f (video_info_cache_file video_file))) size time

unfoldable pub get_video_info :
    {F : Type 0} → Codec → Disk F → (Text → Option Data) → F → Text → F × Option VideoInfo
unfolding with_stat
get_video_info codec disk probe f video_file =
    with_stat codec disk probe f video_file (disk.stat f video_file)
