-- ===== src/Dlna/Entries.antt =====
-- dlna/content_directory_controller.go: what a client is shown of an object, its URLs and its DIDL-Lite entry, and
-- useSecondsInBookmark of server.go.
use godlna.Base.{
  ℕ, Text, codes, text_beq, [], ◌∷◌, ◌++◌, Option, none, some, Bool, ◌||◌, if◌then◌else◌, ℤ, pos,
  decimal, decimal_ℤ, quot, scale, wrap_int64, ext, contains_text,
}
use godlna.Backend.Object.{Object, ObjectType, folder, video, title}
use godlna.Soap.Didl.{Resource, Entry, container, item}
use godlna.Media.Duration.{duration_to_string}

pub record Request : Type 0 where
  pub method : Text
  pub soap_action : Text
  pub user_agent : Text
  pub x_debug : Text
  pub host : Text
  pub body : Text

unfoldable pub use_seconds_in_bookmark : Request → Bool
unfolding contains_text
use_seconds_in_bookmark r =
    text_beq r.user_agent (codes "DLNADOC/1.50") || contains_text (codes "40C7000") r.user_agent

unfoldable pub mime_type : Object → Text
unfolding contains_text
mime_type o =
    if contains_text (codes "matroska") o.format || contains_text (codes "avi") o.format
    then codes "video/avi"
    else codes "video/x-msvideo"

unfoldable pub video_protocol_info : Object → Text
unfolding mime_type
video_protocol_info o =
    codes "http-get:*:"
    ++ (mime_type o ++ codes ":DLNA.ORG_OP=01;DLNA.ORG_FLAGS=01700000000000000000000000000000")

abbrev pub thumb_protocol_info : Text
thumb_protocol_info =
    codes
      "http-get:*:image/jpeg:DLNA.ORG_PN=JPEG_TN;DLNA.ORG_FLAGS=00f00000000000000000000000000000"

unfoldable pub int64_of : Option ℤ → ℤ
int64_of none = pos 0
int64_of (some b) = b

-- A null bookmark is 0.
unfoldable pub shown_bookmark : Bool → Option ℤ → ℤ
unfolding int64_of
shown_bookmark seconds b = if seconds then quot (int64_of b) 1000 else int64_of b

unfoldable pub thumb_url : Text → ℕ → Text
thumb_url host id = codes "http://" ++ (host ++ (codes "/ct/t/" ++ (decimal id ++ codes ".jpg")))

unfoldable pub video_url : Text → Object → Text
video_url host o = codes "http://" ++ (host ++ (codes "/ct/v/" ++ (decimal o.id ++ ext o.path)))

unfoldable pub folder_entry : Object → ℤ → Entry
folder_entry o parent = container (record {
  id = decimal o.id;
  parent_id = decimal_ℤ parent;
  restricted = pos 1;
  title = title o;
  class = codes "object.container.storageFolder";
  icon = [];
  date = [];
  album_art_uri = none;
})

video_resource : Text → Object → Resource
unfolding video_url video_protocol_info
video_resource host o = record {
  protocol_info = video_protocol_info o;
  url = video_url host o;
  size = o.file_size;
  bitrate = o.bitrate;
  duration = duration_to_string (wrap_int64 (scale o.duration 1000000));
  resolution = decimal_ℤ o.width ++ b'x' ∷ decimal_ℤ o.height;
  audio_channels = o.channels;
  sample_frequency = o.frequency;
}

thumb_resource : Text → Object → Resource
unfolding thumb_url
thumb_resource host o = record {
  protocol_info = thumb_protocol_info;
  url = thumb_url host o.id;
  size = pos 0;
  bitrate = pos 0;
  duration = [];
  resolution = [];
  audio_channels = pos 0;
  sample_frequency = pos 0;
}

unfoldable pub video_entry : (ℤ → Text) → Object → ℤ → Request → Entry
unfolding video_resource thumb_resource shown_bookmark use_seconds_in_bookmark
video_entry format_date o parent r =
    item
      (record {
        id = decimal o.id;
        parent_id = decimal_ℤ parent;
        restricted = pos 1;
        title = title o;
        class = codes "object.item.videoItem";
        icon = [];
        date = format_date o.date;
        album_art_uri = some (record { profile = codes "JPEG_TN"; value = thumb_url r.host o.id });
      })
      (video_resource r.host o ∷ thumb_resource r.host o ∷ [])
      (shown_bookmark (use_seconds_in_bookmark r) o.bookmark)

unfoldable pub entry_of : (ℤ → Text) → ObjectType → Object → ℤ → Request → Entry
entry_of format_date folder o parent r = folder_entry o parent
entry_of format_date video o parent r = video_entry format_date o parent r

-- The date of a Unix time is that of the local zone, which the program takes from outside.
unfoldable pub upnpav_obj : (ℤ → Text) → Object → ℤ → Request → Entry
unfolding entry_of folder_entry video_entry
upnpav_obj format_date o parent r = entry_of format_date o.typ o parent r
