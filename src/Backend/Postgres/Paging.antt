-- ===== src/Backend/Postgres/Paging.antt =====
-- The driver of dlna/backend/db_driver_postgres.go gives the indexer of backend.go what it relies on.
use godlna.Base.{
  ℕ, ◌<◌, Text, List, [], ◌∷◌, Option, some, Bool, true, ◌≡◌, ◌≢◌, refl, arith, inl, inr, All,
  All-mono, ℤ,
}
use godlna.Backend.Object.{Object, VideoInfo}
use godlna.Backend.Filter.{Filter}
use godlna.Backend.Table.{Table, has_path}
use godlna.Backend.Table.Rows.{DistinctPaths}
use godlna.Backend.Table.Numbers.{IsSound, IsGiven, update_rows-Given}
use godlna.Backend.Table.Query.{Db, selects}
use godlna.Backend.Table.Query.Selection.{get_objects_exact, IsRow}
use godlna.Backend.Table.Update.{
  set_columns, set_columns-keeps, update_rows, update_object, update_object-cases,
}
use godlna.Backend.Service.{World, Media}
use godlna.Backend.Service.Reindexer.{reindex_dirty, out_of_fuel}
use godlna.Backend.Service.Reindexer.Ends.{IsPaged, reindex_dirty_ends}
use godlna.Backend.Postgres.{postgres}

module _ (f : Object → Object) (id : ℕ) (keeps : (r : Object) → (f r).path ≡ r.path) where
  has_path-update_rows :
      (p : Text) (rs : List Object) → has_path p (update_rows f id rs) ≡ has_path p rs
  unfolding has_path update_rows
  has_path-update_rows p [] = refl
  has_path-update_rows p (r ∷ rs) = ground (arith, keeps r, has_path-update_rows p rs)

  update_rows-Distinct : (rs : List Object) → DistinctPaths rs → DistinctPaths (update_rows f id rs)
  unfolding update_rows
  update_rows-Distinct [] d = tt
  update_rows-Distinct (r ∷ rs) (h, d) =
      ground (arith, keeps r, has_path-update_rows r.path rs, h, update_rows-Distinct rs d)

pub update_object-IsSound :
    (up : Bool) (t t' : Table) (o : Object) (v : Option VideoInfo) (b : Option (Option ℤ))
    → IsSound t
    → (update_object up t o v b).1 ≡ some t'
    → IsSound t' × (t'.next_id ≡ t.next_id)
update_object-IsSound up t t' o v b s h = elim (update_object-cases up t t' o v b h) [
  | inl e ↦ rw e (s, refl)
  | inr e ↦ rw e (
    record {
      distinct =
          update_rows-Distinct (set_columns v b o) o.id (λ r. (set_columns-keeps v b o r).1) t.rows
            s.distinct;
      numbered = (
        s.numbered.0,
        update_rows-Given t.next_id (set_columns v b o) o.id t.rows
            (λ r. (set_columns-keeps v b o r).0) s.numbered.1,
      );
    },
    refl,
  )
]

pub IsRow-IsGiven :
    (next : ℕ) (rs : List Object) (o : Object) → All (IsGiven next) rs → IsRow rs o → IsGiven next o
IsRow-IsGiven next [] o a i = absurd i
IsRow-IsGiven next (r ∷ rs) o (h, a) (inl e) = rw e h
IsRow-IsGiven next (r ∷ rs) o (h, a) (inr i) = IsRow-IsGiven next rs o a i

selects-after :
    (now : ℤ) (f : Filter) (o : Object)
    → 0 < o.id
    → selects now f o ≡ true
    → f.last_visited_id < o.id
unfolding selects
selects-after now f o h e = ground arith

-- The driver at each moment of a run, as the clock and the connection go on.
pub postgres-IsPaged : (db : ℕ → Db) → IsPaged (λ k. postgres (db k))
unfolding postgres
postgres-IsPaged db = record {
  IsGood = IsSound;
  bound = λ t. t.next_id;
  later = λ k t f r s e.
      All-mono r.items
        (λ o h.
          let given = IsRow-IsGiven t.next_id t.rows o s.numbered.1 h.0 in
          (selects-after (db k).now f o given.0 h.1, omega arith))
        (get_objects_exact (db k) t f r e).0;
  update = λ k t t' o v b s e. update_object-IsSound (db k).up t t' o v b s e;
}

-- A run of the indexer over the Postgres driver, on a well-formed table, with more fuel than the next number of the
-- sequence: it comes to an end, whatever the clock, the connection, the files and the stop signal do meanwhile.
pub reindex_dirty_ends_on_postgres :
    {F : Type 0} (db : ℕ → Db) (media : Media F) (closed : ℕ → Bool) (fuel : ℕ) (flag marked : Bool)
    (w : World Table F)
    → IsSound w.store
    → w.store.next_id < fuel
    → (reindex_dirty (λ k. postgres (db k)) media closed fuel flag marked w).2 ≢ out_of_fuel
unfolding postgres-IsPaged
reindex_dirty_ends_on_postgres db media closed fuel flag marked w s l =
    reindex_dirty_ends (λ k. postgres (db k)) media closed (postgres-IsPaged db) fuel flag marked w
      s l
