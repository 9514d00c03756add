-- ===== src/Backend/Table/Rows.antt =====
-- What the statements of scripts/schema.psql.sql and db_driver_postgres.go do to the row of one path.
use godlna.Base.{
  ℕ, Text, text_beq, text_beq_iff, has_prefix, List, [], ◌∷◌, ◌++◌, Option, none, some, Bool, true,
  false, ◌&&◌, ◌||◌, not, if◌then◌else◌, ◌≡◌, refl, ℤ, arith, inl, inr, Option-cases,
}
use godlna.Backend.Object.{Object, ObjectType}
use godlna.Backend.Table.{
  Table, slash, has_path, new_row, upsert_rows, upsert, delete_where, index_delete, set_online,
  delete_offline_objects,
}

unfoldable pub find_row : Text → List Object → Option Object
find_row p [] = none
find_row p (r ∷ rs) = if text_beq r.path p then some r else find_row p rs

-- UNIQUE on the path, and the primary key.
abbrev pub DistinctPaths : List Object → Type 0
DistinctPaths [] = Unit
DistinctPaths (r ∷ rs) = (has_path r.path rs ≡ false) × DistinctPaths rs

pub find_row-has_path : (p : Text) (rs : List Object) → has_path p rs ≡ false → find_row p rs ≡ none
unfolding find_row has_path
find_row-has_path p [] h = refl
find_row-has_path p (r ∷ rs) h = ground (arith, find_row-has_path p rs)

pub has_path-find_row : (p : Text) (rs : List Object) → find_row p rs ≡ none → has_path p rs ≡ false
unfolding find_row has_path
has_path-find_row p [] h = refl
has_path-find_row p (r ∷ rs) h = ground (arith, has_path-find_row p rs)

abbrev updated : ObjectType → Option ℤ → Object → Object
updated typ at r = record r { typ = typ; online = true; reindex_at = at }

abbrev pub merged : ℕ → Text → ObjectType → Option ℤ → Option Object → Object
merged id p typ at none = new_row id p typ at
merged id p typ at (some r) = record r { typ = typ; online = true; reindex_at = at }

module _ (p : Text) (typ : ObjectType) (at : Option ℤ) where
  find_row-upsert_rows_self :
      (rs : List Object) (r : Object)
      → find_row p rs ≡ some r
      → find_row p (upsert_rows p typ at rs) ≡ some (updated typ at r)
  unfolding find_row upsert_rows
  find_row-upsert_rows_self [] r h = cc
  find_row-upsert_rows_self (x ∷ rs) r h = ground (arith, find_row-upsert_rows_self rs r)

  find_row-upsert_rows_other :
      (q : Text) (rs : List Object)
      → text_beq p q ≡ false
      → find_row q (upsert_rows p typ at rs) ≡ find_row q rs
  unfolding find_row upsert_rows
  find_row-upsert_rows_other q [] h = refl
  find_row-upsert_rows_other q (x ∷ rs) h = ground (
    arith,
    text_beq_iff x.path p,
    text_beq_iff x.path q,
    text_beq_iff p q,
    find_row-upsert_rows_other q rs h,
  )

find_row-append :
    (p : Text) (xs ys : List Object) → has_path p xs ≡ false → find_row p (xs ++ ys) ≡ find_row p ys
unfolding find_row has_path
find_row-append p [] ys h = refl
find_row-append p (x ∷ xs) ys h = ground (arith, find_row-append p xs ys)

find_row-append_other :
    (p : Text) (xs : List Object) (y : Object)
    → text_beq y.path p ≡ false
    → find_row p (xs ++ y ∷ []) ≡ find_row p xs
unfolding find_row
find_row-append_other p [] y h = rw h refl
find_row-append_other p (x ∷ xs) y h = ground (arith, find_row-append_other p xs y h)

module _ (t : Table) (p : Text) (typ : ObjectType) (at : Option ℤ) where
  upsert_self :
      find_row p (upsert t p typ at).rows ≡ some (merged t.next_id p typ at (find_row p t.rows))
  unfolding upsert
  upsert_self = elim (Option-cases (find_row p t.rows)) [
    | inl e ↦
        rw
          (
            has_path-find_row p t.rows e,
            e,
            find_row-append p t.rows (new_row t.next_id p typ at ∷ [])
                (has_path-find_row p t.rows e),
          )
          (unfold find_row new_row in ground (arith, text_beq_iff p p))
    | inr (r, e) ↦
        ground (arith, find_row-has_path p t.rows, e, find_row-upsert_rows_self p typ at t.rows r)
  ]

  upsert_other :
      (q : Text) → text_beq p q ≡ false → find_row q (upsert t p typ at).rows ≡ find_row q t.rows
  unfolding upsert
  upsert_other q n = ground (
    arith,
    find_row-append_other q t.rows (new_row t.next_id p typ at),
    n,
    find_row-upsert_rows_other p typ at q t.rows n,
  )

-- INSERT … ON CONFLICT: the row of the path is made, or updated with all its other columns kept; no other row changes.
pub find_row-upsert :
    (t : Table) (p : Text) (typ : ObjectType) (at : Option ℤ) (q : Text)
    → find_row q (upsert t p typ at).rows ≡ (
        if text_beq p q
        then some (merged t.next_id p typ at (find_row q t.rows))
        else find_row q t.rows)
find_row-upsert t p typ at q =
    ground (arith, text_beq_iff p q, upsert_self t p typ at, upsert_other t p typ at q)

-- Deleting by a test on the path.
pub find_row-delete_where :
    (test : Text → Bool) (p : Text) (rs : List Object)
    → find_row p (delete_where (λ r. test r.path) rs) ≡ (if test p then none else find_row p rs)
unfolding find_row delete_where
find_row-delete_where test p [] = ground arith
find_row-delete_where test p (r ∷ rs) =
    ground (arith, text_beq_iff r.path p, find_row-delete_where test p rs)

-- A deleted path is gone, with all paths below it if it is a directory, and every other row stays.
pub find_row-index_delete :
    (t : Table) (is_dir : Bool) (p q : Text)
    → find_row q (index_delete t is_dir p).rows
      ≡ (if text_beq q p || is_dir && has_prefix (p ++ slash) q then none else find_row q t.rows)
unfolding index_delete
find_row-index_delete t is_dir p q = ground (
  arith,
  find_row-delete_where (λ x. text_beq x p) q t.rows,
  find_row-delete_where (λ x. has_prefix (p ++ slash) x) q
      (delete_where (λ r. text_beq r.path p) t.rows),
)

abbrev pub offline : Option Object → Option Object
offline none = none
offline (some r) = some (record r { online = false })

pub find_row-offline :
    (p : Text) (rs : List Object) → find_row p (set_online false rs) ≡ offline (find_row p rs)
unfolding find_row set_online
find_row-offline p [] = refl
find_row-offline p (r ∷ rs) = ground (arith, find_row-offline p rs)

abbrev pub if_online : Option Object → Option Object
if_online none = none
if_online (some r) = if r.online then some r else none

find_row-delete_offline :
    (p : Text) (rs : List Object)
    → DistinctPaths rs
    → find_row p (delete_where (λ r. not r.online) rs) ≡ if_online (find_row p rs)
unfolding find_row delete_where
find_row-delete_offline p [] d = refl
find_row-delete_offline p (r ∷ rs) (f, d) =
    ground (arith, text_beq_iff r.path p, find_row-delete_offline p rs d, find_row-has_path p rs)

pub find_row-delete_offline_objects :
    (p : Text) (t : Table)
    → DistinctPaths t.rows
    → find_row p (delete_offline_objects t).rows ≡ if_online (find_row p t.rows)
unfolding delete_offline_objects
find_row-delete_offline_objects p t d = find_row-delete_offline p t.rows d
