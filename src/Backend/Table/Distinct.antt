-- ===== src/Backend/Table/Distinct.antt =====
-- The UNIQUE constraint on the path: the statements of scripts/schema.psql.sql keep it.
use godlna.Base.{
  Text, text_beq, text_beq_iff, has_prefix, List, [], ◌∷◌, ◌++◌, Option, none, some, Bool, true,
  false, ◌||◌, not, ◌≡◌, refl, ◌∙◌, ℤ, arith, inl, inr, Bool-cases, ◌+ℤ◌,
}
use godlna.Backend.Object.{Object, ObjectType, folder, video}
use godlna.Backend.Table.{
  Table, slash, has_path, new_row, upsert_rows, upsert, index_add, delete_where, index_delete,
  set_online, all_objects_to_offline, delete_offline_objects, ten_seconds,
}
use godlna.Backend.Table.Rows.{DistinctPaths}

abbrev pub IsDistinct : Table → Type 0
IsDistinct t = DistinctPaths t.rows

module _ (p : Text) (typ : ObjectType) (at : Option ℤ) where
  has_path-upsert_rows :
      (q : Text) (rs : List Object) → has_path q (upsert_rows p typ at rs) ≡ has_path q rs
  unfolding has_path upsert_rows
  has_path-upsert_rows q [] = refl
  has_path-upsert_rows q (r ∷ rs) = ground (arith, has_path-upsert_rows q rs)

  upsert_rows-Distinct :
      (rs : List Object) → DistinctPaths rs → DistinctPaths (upsert_rows p typ at rs)
  unfolding upsert_rows
  upsert_rows-Distinct [] d = tt
  upsert_rows-Distinct (r ∷ rs) (f, d) =
      ground (arith, has_path-upsert_rows r.path rs, upsert_rows-Distinct rs d)

has_path-append_one :
    (q : Text) (rs : List Object) (y : Object)
    → has_path q (rs ++ y ∷ []) ≡ (has_path q rs || text_beq y.path q)
unfolding has_path
has_path-append_one q [] y = ground arith
has_path-append_one q (r ∷ rs) y = ground (arith, has_path-append_one q rs y)

append_one-Distinct :
    (rs : List Object) (y : Object)
    → has_path y.path rs ≡ false
    → DistinctPaths rs
    → DistinctPaths (rs ++ y ∷ [])
unfolding has_path
append_one-Distinct [] y n d = (refl, tt)
append_one-Distinct (r ∷ rs) y n (f, d) = (
  ground (
    arith,
    has_path-append_one r.path rs y,
    text_beq_iff r.path y.path,
    text_beq_iff y.path r.path,
  ),
  append_one-Distinct rs y (ground arith) d,
)

upsert-IsDistinct :
    (t : Table) (p : Text) (typ : ObjectType) (at : Option ℤ)
    → IsDistinct t
    → IsDistinct (upsert t p typ at)
unfolding upsert
upsert-IsDistinct t p typ at d = elim (Bool-cases (has_path p t.rows)) [
  | inl e ↦ rw e (upsert_rows-Distinct p typ at t.rows d)
  | inr e ↦ rw e (append_one-Distinct t.rows (new_row t.next_id p typ at) (unfold new_row in e) d)
]

has_path-delete_where :
    (test : Object → Bool) (p : Text) (rs : List Object)
    → has_path p rs ≡ false
    → has_path p (delete_where test rs) ≡ false
unfolding has_path delete_where
has_path-delete_where test p [] h = refl
has_path-delete_where test p (r ∷ rs) h = ground (arith, has_path-delete_where test p rs)

delete_where-Distinct :
    (test : Object → Bool) (rs : List Object)
    → DistinctPaths rs
    → DistinctPaths (delete_where test rs)
unfolding delete_where
delete_where-Distinct test [] d = tt
delete_where-Distinct test (r ∷ rs) (f, d) =
    ground (arith, has_path-delete_where test r.path rs f, delete_where-Distinct test rs d)

has_path-set_online :
    (b : Bool) (p : Text) (rs : List Object) → has_path p (set_online b rs) ≡ has_path p rs
unfolding has_path set_online
has_path-set_online b p [] = refl
has_path-set_online b p (r ∷ rs) = ground (arith, has_path-set_online b p rs)

set_online-Distinct :
    (b : Bool) (rs : List Object) → DistinctPaths rs → DistinctPaths (set_online b rs)
unfolding set_online
set_online-Distinct b [] d = tt
set_online-Distinct b (r ∷ rs) (f, d) =
    (has_path-set_online b r.path rs ∙ f, set_online-Distinct b rs d)

pub index_add-IsDistinct :
    (now : ℤ) (t : Table) (is_dir : Bool) (p : Text)
    → IsDistinct t
    → IsDistinct (index_add now t is_dir p)
unfolding index_add
index_add-IsDistinct now t true p d = upsert-IsDistinct t p folder none d
index_add-IsDistinct now t false p d = upsert-IsDistinct t p video (some (now +ℤ ten_seconds)) d

pub index_delete-IsDistinct :
    (t : Table) (is_dir : Bool) (p : Text) → IsDistinct t → IsDistinct (index_delete t is_dir p)
unfolding index_delete
index_delete-IsDistinct t true p d =
    delete_where-Distinct (λ r. has_prefix (p ++ slash) r.path) _
      (delete_where-Distinct (λ r. text_beq r.path p) t.rows d)
index_delete-IsDistinct t false p d = delete_where-Distinct (λ r. text_beq r.path p) t.rows d

pub offline-IsDistinct : (t : Table) → IsDistinct t → IsDistinct (all_objects_to_offline t)
unfolding all_objects_to_offline
offline-IsDistinct t d = set_online-Distinct false t.rows d

pub delete_offline-IsDistinct : (t : Table) → IsDistinct t → IsDistinct (delete_offline_objects t)
unfolding delete_offline_objects
delete_offline-IsDistinct t d = delete_where-Distinct (λ r. not r.online) t.rows d
