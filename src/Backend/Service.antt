-- ===== src/Backend/Service.antt =====
-- The operations of dlna/backend/backend.go, over any database driver and any store of cache files.
pub mod Bookmarks
pub mod Reindexer
use godlna.Base.{
  ℕ, zero, suc, ◌+◌, Text, codes, text_beq, List, [], ◌∷◌, Option, none, some, Bool, true, false,
  ◌&&◌, ◌||◌, not, if◌then◌else◌, ◌≡◌, refl, length, ltb, leb, nat_beq, ℤ, pos, negsuc, ltb_ℤ,
  dir_name,
}
use godlna.Backend.Object.{Object, ObjectType, folder, video, VideoInfo, option_beq}
use godlna.Backend.Filter.{
  Filter, SearchResponse, DatabaseDriver, public, dirty, reindex, by_public, by_id,
}
use godlna.Backend.Filter.{ObjectSort}

pub data Error : Type 0 where
  no_rows driver_error video_info_error bookmark_error thumbnail_error store_error : Error

pub data Result {ℓ} (A : Type ℓ) : Type ℓ where
  ok : A → Result A
  err : Error → Result A

-- What the backend calls in video_info.go, bookmark_info.go and thumbnail.go, over a state of the files.
-- GetVideoInfo may write its cache file; a failed write of the bookmark may leave the files changed, and so may a
-- thumbnail that fails.
pub record Media (F : Type 0) : Type 0 where
  pub get_video_info : F → Text → F × Option VideoInfo
  pub get_bookmark_info : F → Text → Option (Option ℤ)
  pub set_bookmark_info : F → Text → Option ℤ → F × Bool
  pub make_thumbnail : F → Text → ℤ → Option ℤ → F × Bool
  pub thumbnail_exists : F → Text → Bool

pub record World (S F : Type 0) : Type 0 where
  pub store : S
  pub files : F

abbrev pub any_filter : Filter
any_filter = record {
  id = 0;
  limit = pos 0;
  offset = pos 0;
  parent_path = [];
  own_paths = [];
  last_visited_id = 0;
  with_total_matches = false;
  status = public;
  sort = by_public;
}

unfoldable pub first_item : Option SearchResponse → Result Object
first_item none = err driver_error
first_item (some r) = elim r.items [ [] ↦ err no_rows | o ∷ os ↦ ok o ]

abbrev pub root_object : Object
root_object = record {
  id = 0;
  path = codes "Video Root";
  typ = folder;
  format = [];
  file_size = pos 0;
  video_codec = [];
  audio_codec = [];
  width = pos 0;
  height = pos 0;
  channels = pos 0;
  bitrate = pos 0;
  frequency = pos 0;
  duration = pos 0;
  bookmark = none;
  date = pos 0;
  online = true;
  reindex_at = none;
}

-- Whether an object is one of the roots.
is_root : List Text → Text → Bool
is_root [] p = false
is_root (r ∷ rs) p = text_beq p r || is_root rs p

abbrev pub by_number : ℕ → Filter
by_number n = record any_filter { id = n; sort = ObjectSort.none }

abbrev pub children_filter : Object → ℤ → ℤ → Filter
children_filter o limit offset = record any_filter {
  parent_path = o.path;
  limit = limit;
  offset = offset;
  with_total_matches = true;
}

unfoldable pub is_single_root : List Text → Text → Bool
is_single_root [] p = false
is_single_root (r ∷ []) p = text_beq p r
is_single_root (r ∷ q ∷ rs) p = false

module _ {S : Type 0} (drv : DatabaseDriver S) where
  unfoldable pub get_one_object : S → Filter → Result Object
  unfolding first_item
  get_one_object s f = first_item (drv.get_objects s f)

  unfoldable pub object : S → ℤ → Result Object
  unfolding get_one_object
  object s (negsuc n) = ok root_object
  object s (pos zero) = ok root_object
  object s (pos (suc n)) = get_one_object s (by_number (suc n))

  root_children : List Text → Filter → S → Option SearchResponse
  root_children [] f s = some (record { items = []; total_matches = 0 })
  root_children (r ∷ []) f s = drv.get_objects s (record f { parent_path = r })
  root_children (r ∷ q ∷ rs) f s =
      drv.get_objects s (record f { parent_path = []; own_paths = r ∷ q ∷ rs })

  unfoldable pub children : List Text → S → Object → ℤ → ℤ → Option SearchResponse
  unfolding root_children
  children roots s o limit offset =
      if nat_beq o.id 0
      then root_children roots (children_filter o limit offset) s
      else drv.get_objects s (children_filter o limit offset)

  unfoldable pub parent_number : List Text → Result Object → Result ℤ
  parent_number roots (err e) = err e
  parent_number roots (ok parent) =
      if is_single_root roots parent.path then ok (pos 0) else ok (pos parent.id)

  unfoldable pub parent_id : List Text → S → Object → Result ℤ
  unfolding parent_number is_single_root is_root get_one_object
  parent_id roots s o =
      if nat_beq o.id 0
      then ok (negsuc 0)
      else if ltb 1 (length roots) && is_root roots o.path
      then ok (pos 0)
      else parent_number roots (
          get_one_object s (record any_filter {
            own_paths = dir_name o.path ∷ [];
            sort = ObjectSort.none;
            limit = pos 1;
          }))

module _ {S F : Type 0} (drv : DatabaseDriver S) (media : Media F) where
  -- The thumbnail and then the cache file, once the row is stored.
  after_update : World S F → Object → ℤ → World S F × Option Error
  after_update w o bookmark =
      let (files, made) = media.make_thumbnail w.files o.path o.duration (some bookmark) in
      let (files', written) = media.set_bookmark_info files o.path (some bookmark) in
      if not made
      then (record w { files = files }, some thumbnail_error)
      else if not written
      then (record w { files = files' }, some store_error)
      else (record w { files = files' }, none)

  store_bookmark : World S F → Object → ℤ → World S F × Option Error
  unfolding after_update
  store_bookmark w o bookmark =
      let (o', stored) = drv.update_object w.store o none (some (some bookmark)) in
      if option_beq o.bookmark (some bookmark) then (w, none) else elim stored [
        | none ↦ (w, some driver_error)
        | some s ↦ after_update (record w { store = s }) o' bookmark
      ]

  with_object : World S F → ℤ → Result Object → World S F × Option Error
  with_object w bookmark (err e) = (w, some e)
  with_object w bookmark (ok o) = store_bookmark w o bookmark

  -- The result is the error, if there is one.
  unfoldable pub set_bookmark : World S F → ℤ → ℤ → World S F × Option Error
  unfolding with_object store_bookmark get_one_object
  set_bookmark w id (negsuc b) = (w, none)
  set_bookmark w (negsuc n) (pos b) = (w, some no_rows)
  set_bookmark w (pos zero) (pos b) = (w, some no_rows)
  set_bookmark w (pos (suc n)) (pos b) =
      with_object w (pos b) (get_one_object drv w.store (by_number (suc n)))

  finish_reindex : World S F → Object → Option ℤ → World S F × Option Error
  finish_reindex w o bookmark =
      let (files, made) = media.make_thumbnail w.files o.path o.duration bookmark in
      if media.thumbnail_exists w.files o.path
      then (w, none)
      else (record w { files = files }, if made then none else some thumbnail_error)

  update_reindexed : World S F → Object → VideoInfo → Option (Option ℤ) → World S F × Option Error
  unfolding finish_reindex
  update_reindexed w o v none = (w, some bookmark_error)
  update_reindexed w o v (some b) =
      let (o', stored) = drv.update_object w.store o (some v) (some b) in
      elim stored [
        | none ↦ (w, some driver_error)
        | some s ↦ finish_reindex (record w { store = s }) o' b
      ]

  reindex_video : World S F → Object → World S F × Option Error
  unfolding update_reindexed
  reindex_video w o =
      let (files, info) = media.get_video_info w.files o.path in
      elim info [
        | none ↦ (record w { files = files }, some video_info_error)
        | some v ↦
            update_reindexed (record w { files = files }) o v (media.get_bookmark_info files o.path)
      ]

  by_type : ObjectType → World S F → Object → World S F × Option Error
  by_type folder w o = (w, none)
  by_type video w o = reindex_video w o

  unfoldable pub reindex_object : World S F → Object → World S F × Option Error
  unfolding by_type reindex_video
  reindex_object w o = if nat_beq o.id 0 then (w, none) else by_type o.typ w o
