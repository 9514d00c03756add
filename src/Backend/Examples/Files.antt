-- ===== src/Backend/Examples/Files.antt =====
-- Runs of the cache files and the thumbnails of dlna/backend on a disk that holds a film.
use godlna.Base.{
  ℕ, negsuc, ◌⊎◌, Text, codes, List, [], ◌∷◌, Option, none, some, true, false, ◌≡◌, inl, inr, refl,
  arith, pos, length, contains_text, has_prefix, ext, to_int64, wrap_int64, has_suffix, has_byte,
  decimal, decimal_ℤ, lookup, insert, lookup-insert, erase, text_beq, text_beq_iff, text_eq, nat_eq,
  Bool-cases, dir_name, base_name,
}
use godlna.Backend.Object.{VideoInfo, int_beq, option_beq}
use godlna.Backend.Files.{ignore_fn, video_info_cache_file, thumbnail_file, to_lower}
use godlna.Backend.Caches.{
  Disk, Read, Stat, Codec, no_file, content, not_exist, found, get_bookmark_info, set_bookmark_info,
  get_video_info, write_info,
}
use godlna.Backend.Caches.Laws.{IsDisk}
use godlna.Backend.Caches.Videos.{get_video_info_cached}
use godlna.Backend.Examples.{film}
use godlna.Backend.Examples.Queries.{keeper}
use godlna.Backend.Service.{set_bookmark, get_one_object, first_item}
use godlna.Backend.Thumbnails.Kept.{set_bookmark-get_bookmark_info}
use godlna.Backend.Thumbnails.{make_thumbnail, media_of, shown_bookmark}
use godlna.Backend.Thumbnails.Progress.{make_thumbnail-seen, config}
use godlna.Media.Probe.{Data, first_video_stream, first_audio_stream, unmarshal_json}
use godlna.Media.Thumbnail.{
  Tools, picture, thumbnail, get_video_frame, get_progress_and_time_to_seek, with_options, save,
  clamped, jpeg_quality_of, split_dir, watched,
}
use godlna.Media.Duration.{duration_to_string, padded}
use godlna.Media.ProgressBar.{
  add_progress_bar, get_rectangle, applied, configured, drawn, draws, minus, part, plus, rect,
  times,
}

abbrev Files : Type 0
Files = List (Text × Text)

abbrev read_of : Option Text → Read
read_of none = no_file
read_of (some body) = content body

abbrev stat_of : Option Text → Stat
stat_of none = not_exist
stat_of (some body) = found false (pos (length body)) (pos 0)

-- Directories are not kept, and files have no time.
abbrev disk : Disk Files
disk = record {
  read_file = λ f file. read_of (lookup file f);
  stat = λ f file. stat_of (lookup file f);
  mkdir_all = λ f dir. (f, true);
  write_file = λ f file body. (insert file body f, true);
  remove = λ f file. erase file f;
}

missing : (o : Option Text) → stat_of o ≡ not_exist → read_of o ≡ no_file
missing none h = refl
missing (some body) h = absurd (cc)

disk-IsDisk : IsDisk disk
disk-IsDisk = record {
  read_written =
      λ f file body h. rw (lookup-insert file file body f, (text_beq_iff file file).1 refl) refl;
  read_missing = λ f file h. missing (lookup file f) h;
  stat_written = λ f file other body size time n h. elim (Bool-cases (text_beq file other)) [
    | inl e ↦ absurd (n ((text_beq_iff file other).0 e))
    | inr e ↦ rw (lookup-insert file other body f, e) h
  ];
  stat_made = λ f dir other size time h. h;
}

abbrev a_film : Text
a_film = codes "/v/a.mkv"

abbrev files : Files
files = (a_film, codes "film") ∷ []

abbrev probed : Data
probed = record {
  format = record { name = codes "matroska"; duration = pos 60000000000; size = 4; bit_rate = 800 };
  streams =
      record {
        codec_type = codes "video";
        codec_name = codes "h264";
        sample_rate = 0;
        channels = 0;
        width = 1920;
        height = 1080;
      }
      ∷ record {
        codec_type = codes "audio";
        codec_name = codes "aac";
        sample_rate = 48000;
        channels = 2;
        width = 0;
        height = 0;
      }
      ∷ [];
}

-- The channels come from the video stream.
abbrev parsed : VideoInfo
parsed = record {
  format = codes "matroska";
  file_size = pos 4;
  video_codec = codes "h264";
  audio_codec = codes "aac";
  width = pos 1920;
  height = pos 1080;
  channels = pos 0;
  bitrate = pos 100;
  frequency = pos 48000;
  duration = pos 60000;
  date = pos 0;
}

abbrev codec : Codec
codec = record { marshal = λ info. codes "i"; unmarshal = λ body. some parsed }

get_video_info_cached_example :
    let f' = (get_video_info codec disk (λ v. some probed) files a_film).0 in
    get_video_info codec disk (λ v. none) f' a_film ≡ (f', some parsed)
unfolding contains_text has_prefix text_beq ext lookup video_info_cache_file dir_name
    first_video_stream first_audio_stream unmarshal_json to_int64
get_video_info_cached_example =
    get_video_info_cached codec disk (λ v. some probed) (λ v. none) files a_film (pos 4) (pos 0)
      parsed refl disk-IsDisk (unfold ignore_fn in refl) (unfold lookup text_beq in refl)
      (unfold get_video_info in refl) (unfold write_info in refl)

abbrev tools : Tools Files Text
tools = record {
  exists = λ f v. true;
  ffmpeg = λ f args. some (codes "frame");
  decode = λ body. some body;
  scaled = λ im w h. im;
  draw = λ im drawings. im;
  mkdir_all = λ f dir. (f, true);
  create = λ f file. (f, true);
  encode_png = λ f file im. (f, true);
  encode_jpeg = λ f file im quality. (insert file im f, true);
}

make_thumbnail-seen_example :
    make_thumbnail tools files a_film (pos 60000) (some (pos 30000))
    ≡ picture tools files a_film (thumbnail_file a_film) config (50, pos 30000000000)
make_thumbnail-seen_example =
    (make_thumbnail-seen tools files a_film 60000 (some 30000) (omega arith)).0

set_bookmark-get_bookmark_info_example :
    let after =
      (set_bookmark keeper
        (media_of disk codec (λ v. some probed) tools)
        (record { store = film; files = files })
        (pos 2)
        (pos 30)).0 in
    ((m : ℕ) × (pos 30 ≡ negsuc m) × (after ≡ record { store = film; files = files }))
    ⊎ (get_bookmark_info disk after.files (codes "/v/a.mkv") ≡ some (some (pos 30)))
unfolding get_one_object option_beq make_thumbnail thumbnail picture get_video_frame
    add_progress_bar get_progress_and_time_to_seek wrap_int64 shown_bookmark with_options
    get_rectangle applied save has_suffix thumbnail_file dir_name to_lower int_beq first_item
    decimal decimal_ℤ to_int64 base_name has_byte text_beq duration_to_string padded configured
    drawn draws minus part plus rect times clamped jpeg_quality_of split_dir watched
    set_bookmark_info
set_bookmark-get_bookmark_info_example =
    set_bookmark-get_bookmark_info keeper disk codec (λ v. some probed) tools
      (record { store = film; files = files }) 1 (pos 30) film disk-IsDisk (omega arith) refl
      (λ e. cc) (unfold set_bookmark in refl)
