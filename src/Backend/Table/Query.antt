-- ===== src/Backend/Table/Query.antt =====
-- `GetObjects` of dlna/backend/db_driver_postgres.go. The SQL text that it builds is read as what it selects.
-- The database answers wholly or not at all.
pub mod Selection
use mathlib.Core.List.{append_assoc, append-nil}
use godlna.Base.{
  ℕ, zero, suc, ◌+◌, ◌≤◌, ◌<◌, Text, codes, text_beq, text_beq_iff, List, [], ◌∷◌, ◌++◌, Option,
  none, some, Bool, true, false, ◌&&◌, ◌||◌, not, if◌then◌else◌, ◌≡◌, ◌≢◌, refl, sym, ap, ◌∙◌,
  length, take, drop, arith, ◌⊎◌, inl, inr, Bool-cases, Option-cases, ltb, leb, nat_beq,
  nat_beq_iff, ℤ, pos, negsuc, ltb_ℤ, pos_part, All,
}
use godlna.Backend.Object.{
  Object, ObjectType, folder, video, VideoInfo, int_beq, option_beq, int_beq_iff, option_beq_iff,
}
use godlna.Backend.Files.{has_text}
use godlna.Backend.Like.{under_parent}
use godlna.Backend.Filter.{
  Filter, SearchResponse, ObjectStatus, ObjectSort, public, dirty, reindex, all, by_public, by_id,
  DatabaseDriver,
}
use godlna.Backend.Table.{
  Table, delete_where, index_add, index_delete, index_rename, all_objects_to_offline,
  delete_offline_objects,
}

-- The database as a query meets it: its clock, whether it answers, and the collation of its texts.
pub record Db : Type 0 where
  pub now : ℤ
  pub up : Bool
  pub collate : Text → Text → Bool

is_due : ℤ → Option ℤ → Bool
is_due now none = false
is_due now (some t) = not (ltb_ℤ now t)

is_valid : Option ℤ → Bool
is_valid none = false
is_valid (some t) = true

status_test : ℤ → ObjectStatus → Option ℤ → Bool
unfolding is_due is_valid
status_test now public at = not (is_valid at)
status_test now dirty at = is_valid at
status_test now reindex at = is_due now at
status_test now all at = true

is_empty : List Text → Bool
is_empty [] = true
is_empty (t ∷ ts) = false

-- The WHERE clause: all the conditions that the filter adds.
unfoldable pub selects : ℤ → Filter → Object → Bool
unfolding status_test is_empty has_text
selects now f o =
    (nat_beq f.id 0 || nat_beq o.id f.id)
    && ((nat_beq f.last_visited_id 0 || ltb f.last_visited_id o.id)
        && ((text_beq f.parent_path [] || under_parent f.parent_path o.path)
            && ((is_empty f.own_paths || has_text f.own_paths o.path)
                && status_test now f.status o.reindex_at)))

unfoldable pub where_rows : (Object → Bool) → List Object → List Object
where_rows test [] = []
where_rows test (r ∷ rs) = if test r then r ∷ where_rows test rs else where_rows test rs

type_number : ObjectType → ℕ
type_number folder = 0
type_number video = 1

-- ORDER BY typ, path and ORDER BY id
before : (Text → Text → Bool) → ObjectSort → Object → Object → Bool
unfolding type_number
before collate by_public a b =
    ltb (type_number a.typ) (type_number b.typ)
    || nat_beq (type_number a.typ) (type_number b.typ) && collate a.path b.path
before collate by_id a b = leb a.id b.id
before collate ObjectSort.none a b = true

unfoldable pub insert_sorted : (Object → Object → Bool) → Object → List Object → List Object
insert_sorted le x [] = x ∷ []
insert_sorted le x (y ∷ ys) = if le x y then x ∷ y ∷ ys else y ∷ insert_sorted le x ys

unfoldable pub sort_rows : (Object → Object → Bool) → List Object → List Object
unfolding insert_sorted
sort_rows le [] = []
sort_rows le (r ∷ rs) = insert_sorted le r (sort_rows le rs)

-- LIMIT and OFFSET, which only positive numbers add.
unfoldable pub page : ℤ → ℤ → List Object → List Object
page limit offset rows =
    let rest = drop (pos_part offset) rows in
    if ltb 0 (pos_part limit) then take (pos_part limit) rest else rest

respond : Db → Filter → List Object → SearchResponse
unfolding before sort_rows page
respond db f rows =
    let total = if f.with_total_matches then length rows else 0 in
    let none_found : SearchResponse = record { items = []; total_matches = total } in
    let found : SearchResponse = record {
      items = page f.limit f.offset (sort_rows (before db.collate f.sort) rows);
      total_matches = total;
    } in
    if f.with_total_matches && nat_beq total 0 then none_found else found

unfoldable pub get_objects : Db → Table → Filter → Option SearchResponse
unfolding respond
get_objects db t f =
    if db.up then some (respond db f (where_rows (selects db.now f) t.rows)) else none
