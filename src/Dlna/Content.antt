-- ===== src/Dlna/Content.antt =====
-- HandleContentURL of dlna/content_directory_controller.go: the films and their thumbnails.
use godlna.Base.{
  Text, codes, text_beq, List, [], ◌∷◌, Option, none, some, if◌then◌else◌, ℤ, parse_int, ext,
  without_ext,
}
use godlna.Backend.Object.{Object, thumb_path}
use godlna.Backend.Filter.{DatabaseDriver}
use godlna.Backend.Service.{Result, ok, err, object}
use godlna.Soap.Response.{Call, set_header, write_header, serve_file}
use godlna.Dlna.Entries.{mime_type, video_protocol_info, thumb_protocol_info}

-- The headers of a film or its thumbnail, and the file.
unfoldable pub serve_object : Text → Object → List Call
unfolding video_protocol_info mime_type thumb_path
serve_object e o =
    set_header (codes "EXT") []
    ∷ (if text_beq e (codes ".jpg")
        then set_header (codes "transferMode.dlna.org") (codes "Interactive")
          ∷ set_header (codes "contentFeatures.dlna.org") thumb_protocol_info
          ∷ set_header (codes "Content-Type") (codes "image/jpeg")
          ∷ serve_file (thumb_path o)
          ∷ []
        else set_header (codes "transferMode.dlna.org") (codes "Streaming")
          ∷ set_header (codes "contentFeatures.dlna.org") (video_protocol_info o)
          ∷ set_header (codes "Content-Type") (mime_type o)
          ∷ serve_file o.path
          ∷ [])

unfoldable pub serve_found : Text → Result Object → List Call
unfolding serve_object
serve_found e (err x) = write_header 404 ∷ []
serve_found e (ok o) = serve_object e o

module _ {S : Type 0} (drv : DatabaseDriver S) (s : S) where
  unfoldable pub content_by_number : Text → Option ℤ → List Call
  unfolding serve_found object
  content_by_number e none = write_header 404 ∷ []
  content_by_number e (some id) = serve_found e (object drv s id)

  -- HandleContentURL, for the path value `obj`.
  unfoldable pub handle_content_url : Text → List Call
  unfolding content_by_number
  handle_content_url obj = content_by_number (ext obj) (parse_int (without_ext obj))
