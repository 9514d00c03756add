-- ===== src/Backend/Examples.antt =====
-- The theorems about dlna/backend at one library: a folder with a film in it.
pub mod Queries
pub mod Files
use godlna.Base.{
  ℕ, ◌+◌, ◌<◌, Text, codes, List, [], ◌∷◌, ◌++◌, Option, none, some, Bool, true, false, ◌≡◌, ◌≢◌,
  ◌↔◌, ◌⊎◌, inl, inr, refl, arith, ℤ, pos, All, length, text_beq, if◌then◌else◌, has_prefix, Lacks,
  ext, base_name, has_byte, ◌||◌, ◌&&◌,
}
use godlna.Watcher.WatchMap.{is_under}
use godlna.Watcher.WatchMap.Relocation.{relocate}
use godlna.Backend.Object.{Object, VideoInfo, folder, video, title, title-base_name}
use godlna.Backend.Files.{
  ignore_fn, thumbnail_file, bookmark_info_cache_file, video_info_cache_file, ignore_fn_own_files,
}
use godlna.Backend.Like.{under_parent, under_parent_iff, under_parent_wildcard, IsPlain, IsChild}
use godlna.Backend.Filter.{Filter, SearchResponse, DatabaseDriver, reindex}
use godlna.Backend.Table.{Table, has_path, index_delete, index_rename, slash, new_row}
use godlna.Backend.Table.Rows.{find_row, DistinctPaths, find_row-index_delete}
use godlna.Backend.Table.Distinct.{IsDistinct}
use godlna.Backend.Table.Moves.{repath}
use godlna.Backend.Table.Numbers.{IsSound}
use godlna.Backend.Table.Rescan.{Seen, rescan, was_seen, IsScanned, rescan_exact}
use godlna.Backend.Table.Rename.{index_rename_folder, index_rename_taken}
use godlna.Backend.Table.Query.{Db, selects, get_objects}
use godlna.Backend.Table.Query.Selection.{
  get_objects_exact, IsRow, page_length, selected_count, IsInOrder,
}
use godlna.Backend.Table.Update.{
  update_object, find_id, indexed, update_object_exact, update_object_loses_mark,
}
use godlna.Backend.Service.{
  World, Media, Error, any_filter, get_one_object, ok, by_number, set_bookmark, thumbnail_error,
}
use godlna.Backend.Service.Bookmarks.{IsSaved, set_bookmark_success, set_bookmark_unsaved}
use godlna.Backend.Service.Reindexer.{reindex_dirty, out_of_fuel, failed, chunk_filter}
use godlna.Backend.Service.Reindexer.Ends.{reindex_dirty_forgets}
use godlna.Backend.Postgres.{postgres, Backend, Event, on_watcher_event, remove}
use godlna.Backend.Postgres.Paging.{reindex_dirty_ends_on_postgres}
use godlna.Backend.Postgres.Events.{run_events, run_events-IsSound, full_walk, full_walk-rescan}

abbrev pub films : Object
films = record {
  id = 1;
  path = codes "/v";
  typ = folder;
  format = [];
  file_size = pos 0;
  video_codec = [];
  audio_codec = [];
  width = pos 0;
  height = pos 0;
  channels = pos 0;
  bitrate = pos 0;
  frequency = pos 0;
  duration = pos 0;
  bookmark = none;
  date = pos 0;
  online = true;
  reindex_at = none;
}

abbrev pub film : Object
film = record films { id = 2; path = codes "/v/a.mkv"; typ = video; reindex_at = some (pos 5) }

abbrev pub library : Table
library = record { rows = films ∷ film ∷ []; next_id = 3 }

abbrev pub info : VideoInfo
info = record {
  format = codes "mkv";
  file_size = pos 7;
  video_codec = codes "h264";
  audio_codec = codes "aac";
  width = pos 16;
  height = pos 9;
  channels = pos 2;
  bitrate = pos 1;
  frequency = pos 48;
  duration = pos 60;
  date = pos 1;
}

-- Nothing on the disk can be read or written, or all of it.
abbrev pub media : Bool → Media Unit
media works = record {
  get_video_info = λ f p. (f, some info);
  get_bookmark_info = λ f p. some none;
  set_bookmark_info = λ f p b. (f, works);
  make_thumbnail = λ f p d b. (f, works);
  thumbnail_exists = λ f p. false;
}

abbrev pub db_at : ℤ → Db
db_at t = record { now = t; up = true; collate = λ a b. true }

abbrev pub world : World Table Unit
world = record { store = library; files = tt }

pub library-IsDistinct : IsDistinct library
unfolding has_path text_beq
library-IsDistinct = (refl, (refl, tt))

library-IsSound : IsSound library
library-IsSound = record {
  distinct = library-IsDistinct;
  numbered = (omega arith, ((omega arith, omega arith), ((omega arith, omega arith), tt)));
}

reindex_dirty_ends_on_postgres_example :
    (reindex_dirty (λ k. postgres (db_at (pos k))) (media true) (λ k. false) 4 true false world).2
    ≢ out_of_fuel
reindex_dirty_ends_on_postgres_example =
    reindex_dirty_ends_on_postgres (λ k. db_at (pos k)) (media true) (λ k. false) 4 true false world
      library-IsSound (omega arith)

abbrev pub down : Db
down = record { now = pos 9; up = false; collate = λ a b. true }

reindex_dirty_forgets_example :
    reindex_dirty (λ k. postgres down) (media true) (λ k. false) 1 true false world
    ≡ (world, false, failed)
reindex_dirty_forgets_example =
    reindex_dirty_forgets (λ k. postgres down) (media true) (λ k. false) 0 false world
      (λ k f. unfold postgres get_objects in refl)

abbrev seen : List Seen
seen = record { at = pos 8; is_dir = false; name = codes "/v/b.mkv" } ∷ []

rescan_exact_example :
    IsDistinct (rescan library seen)
    × IsScanned
        (was_seen (codes "/v/b.mkv") seen)
        (find_row (codes "/v/b.mkv") library.rows)
        (find_row (codes "/v/b.mkv") (rescan library seen).rows)
rescan_exact_example = rescan_exact library seen (codes "/v/b.mkv") library-IsDistinct

index_rename_folder_example :
    (index_rename library true (codes "/v") (codes "/w")
      ≡ some (record library { rows = repath (relocate (codes "/v") (codes "/w")) library.rows }))
    × DistinctPaths (repath (relocate (codes "/v") (codes "/w")) library.rows)
unfolding is_under text_beq has_prefix
index_rename_folder_example =
    index_rename_folder library (codes "/v") (codes "/w") library-IsDistinct (refl, (refl, tt)) refl

abbrev removal : Event
removal = record { op = remove; is_dir = false; name = codes "/v/a.mkv"; renamed_from = [] }

abbrev backend : Backend Table
backend = record { store = library; dirty_flag = false; reindexing = false }

run_events-IsSound_example : IsSound (run_events ((db_at (pos 1), removal) ∷ []) backend).store
run_events-IsSound_example =
    run_events-IsSound ((db_at (pos 1), removal) ∷ []) backend library-IsSound
