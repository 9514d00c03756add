-- ===== src/Dlna/Examples.antt =====
-- The theorems about the HTTP front at one library: a root, a folder in it and a film in the folder.
use godlna.Base.{
  ℕ, Text, codes, text_beq, has_byte, [], ◌∷◌, ◌++◌, none, some, false, ◌≡◌, refl, arith, inl, inr,
  ℤ, pos, wrap_int64, All, length, ext,
}
use godlna.Backend.Object.{Object, thumb_path}
use godlna.Backend.Table.{Table, has_path}
use godlna.Backend.Table.Numbers.{IsSound}
use godlna.Backend.Table.Query.Selection.{page_length, selected_count}
use godlna.Backend.Service.{World, object, children_filter, get_one_object}
use godlna.Backend.Postgres.{postgres}
use godlna.Backend.Postgres.Keys.{IsKeyed}
use godlna.Backend.Examples.{films, film, media, db_at}
use godlna.Backend.Examples.Queries.{keeper}
use godlna.Soap.Didl.{DidlLite}
use godlna.Dlna.Entries.{Request, use_seconds_in_bookmark, video_url, thumb_url, upnpav_obj}
use godlna.Dlna.Content.{handle_content_url}
use godlna.Dlna.Routes.{content, route}
use godlna.Dlna.Urls.{IsServed, urls-handle_content_url}
use godlna.Dlna.ContentDirectory.{
  Env, decoded, browse, found, empty_didl, handle_control_url, SetBookmarkArgs, position,
}
use godlna.Dlna.ContentDirectory.Answers.{IsHandled, handle_control_url_answers}
use godlna.Dlna.ContentDirectory.Browsing.{children_args, metadata_args, browse_metadata-children}
use godlna.Dlna.ContentDirectory.Seconds.{entry_bookmark, position-upnpav_obj}

abbrev season : Object
season = record films { id = 2; path = codes "/v/s" }

abbrev episode : Object
episode = record film {
  id = 3;
  path = codes "/v/s/a.mkv";
  reindex_at = none;
  bookmark = some (pos 5000);
}

abbrev library : Table
library = record { rows = films ∷ season ∷ episode ∷ []; next_id = 4 }

library-IsSound : IsSound library
unfolding has_path text_beq
library-IsSound = record {
  distinct = (refl, (refl, (refl, tt)));
  numbered = (
    omega arith,
    ((omega arith, omega arith), ((omega arith, omega arith), ((omega arith, omega arith), tt))),
  );
}

library-IsKeyed : IsKeyed library.rows
library-IsKeyed a b i j e = ground (arith, i, j, e)

abbrev samsung : Request
samsung = record {
  method = codes "POST";
  soap_action = codes "\"urn:schemas-upnp-org:service:ContentDirectory:1#X_SetBookmark\"";
  user_agent = codes "DLNADOC/1.50";
  x_debug = [];
  host = codes "tv:80";
  body = [];
}

abbrev args : SetBookmarkArgs
args = record { object_id = pos 2; pos_second = pos 5 }

abbrev env : Env
env = record {
  decode_browse = λ body. decoded (metadata_args (pos 2));
  decode_set_bookmark = λ body. decoded args;
  describe = λ e. codes "no";
  format_date = λ t. codes "2024-01-02T03:04:05";
  roots = codes "/v" ∷ [];
}

abbrev stored : World Object Unit
stored = record { store = film; files = tt }

handle_control_url_answers_example :
    IsHandled keeper
      (media false)
      env
      stored
      samsung
      (handle_control_url keeper (media false) env stored samsung)
handle_control_url_answers_example =
    handle_control_url_answers keeper (media false) env stored samsung

browse_metadata-children_example :
    (v : DidlLite) × (total : ℕ) × (browse
        (postgres (db_at (pos 9)))
        env
        library
        samsung
        (decoded (children_args 2 (pos 10) (pos 0)))
      ≡ found v total)
    × (total ≡ selected_count (pos 9) (children_filter season (pos 10) (pos 0)) library.rows)
    × (length v.items ≡ page_length (pos 10) (pos 0) total)
    × All
        (λ e.
          (id : ℤ) × (browse
              (postgres (db_at (pos 9)))
              env
              library
              samsung
              (decoded (metadata_args id))
            ≡ found (record (empty_didl samsung) { items = e ∷ [] }) 1))
        v.items
browse_metadata-children_example =
    browse_metadata-children (db_at (pos 9)) env library (codes "/v") samsung season b'/'
      (codes "v/s") (pos 10) (pos 0) refl refl library-IsSound library-IsKeyed (inr (inl refl)) refl
      refl (unfold text_beq in refl) (ground arith)

position-upnpav_obj_example :
    entry_bookmark (upnpav_obj env.format_date episode (pos 2) samsung) ≡ pos 5
position-upnpav_obj_example =
    position-upnpav_obj env.format_date episode (pos 2) samsung args 5 refl refl (omega arith)
      (unfold position use_seconds_in_bookmark text_beq wrap_int64 in refl)

urls-handle_content_url_example :
    (v : Text) × (x : Text) × (t : Text) × (y : Text) × (video_url (codes "tv:80") film
      ≡ codes "http://" ++ (codes "tv:80" ++ v))
    × (route v ≡ content x)
    × (IsServed (codes "/v/a.mkv") (handle_content_url keeper film x))
    × (thumb_url (codes "tv:80") 2 ≡ codes "http://" ++ (codes "tv:80" ++ t))
    × (route t ≡ content y)
    × (IsServed (thumb_path film) (handle_content_url keeper film y))
urls-handle_content_url_example =
    urls-handle_content_url keeper film film (codes "tv:80") (omega arith)
      (unfold object get_one_object in refl) (unfold ext has_byte in λ e. ground (arith, e))
