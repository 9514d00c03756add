-- ===== src/Backend/Table.antt =====
-- The objects table: scripts/schema.psql.sql and the queries of dlna/backend/db_driver_postgres.go.
-- A row is an `Object`. A statement that meets an error changes nothing. Rows are updated one after the other, and the
-- UNIQUE constraint on the path is checked at each, as the database does. Positions in a text count bytes; the
-- database counts characters, and both cut a path where the old path ends.
pub mod Rows
pub mod Distinct
pub mod Rescan
pub mod Moves
pub mod Rename
pub mod Query
pub mod Update
pub mod Numbers
use godlna.Base.{
  ℕ, suc, zero, ◌+◌, Text, codes, text_beq, has_prefix, List, [], ◌∷◌, ◌++◌, Option, none, some,
  Bool, true, false, ◌&&◌, ◌||◌, not, if◌then◌else◌, ◌≡◌, refl, length, drop, ℤ, pos, ◌+ℤ◌, map,
}
use godlna.Backend.Object.{Object, ObjectType, folder, video}

pub record Table : Type 0 where
  pub rows : List Object
  pub next_id : ℕ

abbrev pub slash : Text
slash = codes "/"

unfoldable pub has_path : Text → List Object → Bool
has_path p [] = false
has_path p (r ∷ rs) = text_beq r.path p || has_path p rs

-- The columns' defaults.
unfoldable pub new_row : ℕ → Text → ObjectType → Option ℤ → Object
new_row id p typ reindex_at = record {
  id = id;
  path = p;
  typ = typ;
  format = [];
  file_size = pos 0;
  video_codec = [];
  audio_codec = [];
  width = pos 0;
  height = pos 0;
  channels = pos 0;
  bitrate = pos 0;
  frequency = pos 0;
  duration = pos 0;
  bookmark = none;
  date = pos 0;
  online = true;
  reindex_at = reindex_at;
}

upsert_rows : Text → ObjectType → Option ℤ → List Object → List Object
upsert_rows p typ at [] = []
upsert_rows p typ at (r ∷ rs) =
    if text_beq r.path p
    then record r { typ = typ; online = true; reindex_at = at } ∷ upsert_rows p typ at rs
    else r ∷ upsert_rows p typ at rs

-- INSERT … ON CONFLICT (path) DO UPDATE. A conflict uses up a number of the sequence too.
unfoldable pub upsert : Table → Text → ObjectType → Option ℤ → Table
unfolding upsert_rows new_row
upsert t p typ at = record {
  rows =
      if has_path p t.rows
      then upsert_rows p typ at t.rows
      else t.rows ++ new_row t.next_id p typ at ∷ [];
  next_id = t.next_id + 1;
}

abbrev pub ten_seconds : ℤ
ten_seconds = pos 10_000_000_000

unfoldable pub index_add : ℤ → Table → Bool → Text → Table
index_add now t is_dir p =
    if is_dir then upsert t p folder none else upsert t p video (some (now +ℤ ten_seconds))

unfoldable pub delete_where : (Object → Bool) → List Object → List Object
delete_where test [] = []
delete_where test (r ∷ rs) = if test r then delete_where test rs else r ∷ delete_where test rs

unfoldable pub index_delete : Table → Bool → Text → Table
index_delete t is_dir p =
    let rows = delete_where (λ r. text_beq r.path p) t.rows in
    record t {
      rows = if is_dir then delete_where (λ r. has_prefix (p ++ slash) r.path) rows else rows;
    }

-- UPDATE objects SET path = …: the function gives the new path of the rows that the statement selects.
unfoldable pub update_paths :
    (Text → Option Text) → List Object → List Object → Option (List Object)
unfolding has_path
update_paths move done [] = some done
update_paths move done (r ∷ rs) = elim (move r.path) [
  | none ↦ update_paths move (done ++ r ∷ []) rs
  | some p ↦
      let rest = update_paths move (done ++ record r { path = p } ∷ []) rs in
      if has_path p (done ++ rs) then none else rest
]

unfoldable pub move_exact : Text → Text → Text → Option Text
move_exact old new p = if text_beq p old then some new else none

-- `concat(new_path, '/', substring(path, length(old_path) + 2))`; positions count from 1.
unfoldable pub move_below : Text → Text → Text → Option Text
move_below old new p =
    if has_prefix (old ++ slash) p then some (new ++ (slash ++ drop (length old + 1) p)) else none

then_below : Bool → Text → Text → Option (List Object) → Option (List Object)
then_below is_dir old new none = none
then_below false old new (some rows) = some rows
then_below true old new (some rows) = update_paths (move_below old new) [] rows

-- `none` is the error of a path that is taken.
unfoldable pub index_rename : Table → Bool → Text → Text → Option Table
unfolding then_below
index_rename t is_dir old new =
    elim (then_below is_dir old new (update_paths (move_exact old new) [] t.rows)) [
      | none ↦ none
      | some rows ↦ some (record t { rows = rows })
    ]

unfoldable pub set_online : Bool → List Object → List Object
set_online b [] = []
set_online b (r ∷ rs) = record r { online = b } ∷ set_online b rs

-- UPDATE objects SET online = false WHERE online
unfoldable pub all_objects_to_offline : Table → Table
unfolding set_online
all_objects_to_offline t = record t { rows = set_online false t.rows }

-- DELETE FROM objects WHERE NOT online
unfoldable pub delete_offline_objects : Table → Table
unfolding delete_where
delete_offline_objects t = record t { rows = delete_where (λ r. not r.online) t.rows }
