-- ===== src/Backend/Table/Numbers.antt =====
-- The numbers and paths of the rows under every statement of dlna/backend/db_driver_postgres.go.
use mathlib.Core.List.{append_assoc, append-nil}
use godlna.Base.{
  ℕ, ◌+◌, ◌<◌, Text, List, [], ◌∷◌, ◌++◌, Option, none, some, Bool, true, false, not, ◌≡◌, refl,
  sym, arith, inl, inr, Bool-cases, Option-cases, ℤ, ◌+ℤ◌, All, All-append, All-mono, text_beq,
  text_beq_iff, has_prefix,
}
use godlna.Backend.Object.{Object, ObjectType, folder, video}
use godlna.Backend.Table.{
  Table, slash, has_path, new_row, upsert_rows, upsert, index_add, delete_where, index_delete,
  update_paths, move_exact, move_below, then_below, index_rename, set_online,
  all_objects_to_offline, delete_offline_objects, ten_seconds,
}
use godlna.Backend.Table.Rows.{DistinctPaths}
use godlna.Backend.Table.Moves.{has_path-append}
use godlna.Backend.Table.Distinct.{
  IsDistinct, index_add-IsDistinct, index_delete-IsDistinct, offline-IsDistinct,
  delete_offline-IsDistinct,
}
use godlna.Backend.Table.Update.{update_rows}

-- The numbers that the sequence has given.
abbrev pub IsGiven : ℕ → Object → Type 0
IsGiven next r = (0 < r.id) × (r.id < next)

abbrev pub IsNumbered : Table → Type 0
IsNumbered t = (0 < t.next_id) × All (IsGiven t.next_id) t.rows

upsert_rows-Given :
    (next : ℕ) (p : Text) (typ : ObjectType) (at : Option ℤ) (rs : List Object)
    → All (IsGiven next) rs
    → All (IsGiven next) (upsert_rows p typ at rs)
unfolding upsert_rows
upsert_rows-Given next p typ at [] a = tt
upsert_rows-Given next p typ at (r ∷ rs) (h, a) =
    ground (arith, upsert_rows-Given next p typ at rs a)

upsert-IsNumbered :
    (t : Table) (p : Text) (typ : ObjectType) (at : Option ℤ)
    → IsNumbered t
    → IsNumbered (upsert t p typ at)
unfolding upsert
upsert-IsNumbered t p typ at (h, a) =
    let wider : All (IsGiven (t.next_id + 1)) t.rows =
      All-mono t.rows (λ r g. (g.0, omega arith)) a in
    elim (Bool-cases (has_path p t.rows)) [
      | inl e ↦ rw e (omega arith, upsert_rows-Given (t.next_id + 1) p typ at t.rows wider)
      | inr e ↦ rw e (
        omega arith,
        All-append (IsGiven (t.next_id + 1)) t.rows (new_row t.next_id p typ at ∷ []) wider
            (unfold new_row in ((h, omega arith), tt)),
      )
    ]

pub index_add-IsNumbered :
    (now : ℤ) (t : Table) (is_dir : Bool) (p : Text)
    → IsNumbered t
    → IsNumbered (index_add now t is_dir p)
unfolding index_add
index_add-IsNumbered now t true p n = upsert-IsNumbered t p folder none n
index_add-IsNumbered now t false p n = upsert-IsNumbered t p video (some (now +ℤ ten_seconds)) n

module _ (next : ℕ) where
  delete_where-Given :
      (test : Object → Bool) (rs : List Object)
      → All (IsGiven next) rs
      → All (IsGiven next) (delete_where test rs)
  unfolding delete_where
  delete_where-Given test [] a = tt
  delete_where-Given test (r ∷ rs) (h, a) = ground (arith, delete_where-Given test rs a)

  set_online-Given :
      (b : Bool) (rs : List Object) → All (IsGiven next) rs → All (IsGiven next) (set_online b rs)
  unfolding set_online
  set_online-Given b [] a = tt
  set_online-Given b (r ∷ rs) (h, a) = (h, set_online-Given b rs a)

  pub update_rows-Given :
      (f : Object → Object) (id : ℕ) (rs : List Object)
      → ((r : Object) → (f r).id ≡ r.id)
      → All (IsGiven next) rs
      → All (IsGiven next) (update_rows f id rs)
  unfolding update_rows
  update_rows-Given f id [] keeps a = tt
  update_rows-Given f id (r ∷ rs) keeps (h, a) =
      ground (arith, keeps r, update_rows-Given f id rs keeps a)

  All-replaced :
      (done rs : List Object) (r : Object) (q : Text)
      → All (IsGiven next) (done ++ r ∷ rs)
      → All (IsGiven next) (done ++ record r { path = q } ∷ rs)
  All-replaced [] rs r q a = a
  All-replaced (x ∷ done) rs r q (h, a) = (h, All-replaced done rs r q a)

  -- An UPDATE of paths that goes through keeps the numbers.
  update_paths-Given :
      (move : Text → Option Text) (done rs rows : List Object)
      → update_paths move done rs ≡ some rows
      → All (IsGiven next) (done ++ rs)
      → All (IsGiven next) rows
  update_paths-Given move done [] rows e a =
      let same : done ≡ rows = unfold update_paths in ground (arith, e) in
      rw (sym same) (rw append-nil at a)
  update_paths-Given move done (r ∷ rs) rows e a = elim (Option-cases (move r.path)) [
    | inl f ↦
        update_paths-Given move (done ++ r ∷ []) rs rows
          (unfold update_paths in ground (arith, f, e)) (rw append_assoc a)
    | inr (q, f) ↦
        update_paths-Given move (done ++ record r { path = q } ∷ []) rs rows
          (unfold update_paths in ground (arith, f, e))
          (rw append_assoc (All-replaced done rs r q a))
  ]

Distinct_replaced :
    (done rs : List Object) (r : Object) (q : Text)
    → DistinctPaths (done ++ r ∷ rs)
    → has_path q (done ++ rs) ≡ false
    → DistinctPaths (done ++ record r { path = q } ∷ rs)
unfolding has_path
Distinct_replaced [] rs r q (h, d) free = (free, d)
Distinct_replaced (x ∷ done) rs r q (h, d) free = (
  ground (
    arith,
    has_path-append x.path done (r ∷ rs),
    has_path-append x.path done (record r { path = q } ∷ rs),
    text_beq_iff x.path q,
    text_beq_iff q x.path,
  ),
  Distinct_replaced done rs r q d (ground arith),
)

-- An UPDATE of paths that goes through leaves no two rows with one path.
update_paths-Distinct :
    (move : Text → Option Text) (done rs rows : List Object)
    → update_paths move done rs ≡ some rows
    → DistinctPaths (done ++ rs)
    → DistinctPaths rows
update_paths-Distinct move done [] rows e d =
    let same : done ≡ rows = unfold update_paths in ground (arith, e) in
    rw (sym same) (rw append-nil at d)
update_paths-Distinct move done (r ∷ rs) rows e d = elim (Option-cases (move r.path)) [
  | inl f ↦
      update_paths-Distinct move (done ++ r ∷ []) rs rows
        (unfold update_paths in ground (arith, f, e)) (rw append_assoc d)
  | inr (q, f) ↦ elim (Bool-cases (has_path q (done ++ rs))) [
    | inl g ↦ absurd (unfold update_paths in ground (arith, f, g, e))
    | inr g ↦
        update_paths-Distinct move (done ++ record r { path = q } ∷ []) rs rows
          (unfold update_paths in ground (arith, f, g, e))
          (rw append_assoc (Distinct_replaced done rs r q d g))
  ]
]

-- The table is well formed: no two rows have one path, and the sequence has given every number.
pub record IsSound (t : Table) : Type 0 where
  pub distinct : IsDistinct t
  pub numbered : IsNumbered t

pub index_add-IsSound :
    (now : ℤ) (t : Table) (is_dir : Bool) (p : Text)
    → IsSound t
    → IsSound (index_add now t is_dir p)
index_add-IsSound now t is_dir p s = record {
  distinct = index_add-IsDistinct now t is_dir p s.distinct;
  numbered = index_add-IsNumbered now t is_dir p s.numbered;
}

pub index_delete-IsSound :
    (t : Table) (is_dir : Bool) (p : Text) → IsSound t → IsSound (index_delete t is_dir p)
index_delete-IsSound t is_dir p s = record {
  distinct = index_delete-IsDistinct t is_dir p s.distinct;
  numbered = (
    unfold index_delete in s.numbered.0,
    unfold index_delete in
        ground (
          arith,
          s.numbered,
          delete_where-Given t.next_id (λ r. text_beq r.path p) t.rows s.numbered.1,
          delete_where-Given t.next_id (λ r. has_prefix (p ++ slash) r.path)
              (delete_where (λ r. text_beq r.path p) t.rows),
        ),
  );
}

pub offline-IsSound : (t : Table) → IsSound t → IsSound (all_objects_to_offline t)
offline-IsSound t s = record {
  distinct = offline-IsDistinct t s.distinct;
  numbered =
      unfold all_objects_to_offline in
      (s.numbered.0, set_online-Given t.next_id false t.rows s.numbered.1);
}

pub delete_offline-IsSound : (t : Table) → IsSound t → IsSound (delete_offline_objects t)
delete_offline-IsSound t s = record {
  distinct = delete_offline-IsDistinct t s.distinct;
  numbered =
      unfold delete_offline_objects in
      (s.numbered.0, delete_where-Given t.next_id (λ r. not r.online) t.rows s.numbered.1);
}

then_below-keeps :
    (next : ℕ) (is_dir : Bool) (old new : Text) (o : Option (List Object)) (rows : List Object)
    → ((mid : List Object) → o ≡ some mid → All (IsGiven next) mid × DistinctPaths mid)
    → then_below is_dir old new o ≡ some rows
    → All (IsGiven next) rows × DistinctPaths rows
unfolding then_below
then_below-keeps next is_dir old new none rows k e = absurd (cc)
then_below-keeps next false old new (some mid) rows k e = k rows e
then_below-keeps next true old new (some mid) rows k e = (
  update_paths-Given next (move_below old new) [] mid rows e (k mid refl).0,
  update_paths-Distinct (move_below old new) [] mid rows e (k mid refl).1,
)

pub index_rename-IsSound :
    (t t' : Table) (is_dir : Bool) (old new : Text)
    → IsSound t
    → index_rename t is_dir old new ≡ some t'
    → IsSound t'
unfolding index_rename
index_rename-IsSound t t' is_dir old new s e =
    elim (Option-cases (then_below is_dir old new (update_paths (move_exact old new) [] t.rows))) [
      | inl f ↦ absurd (ground (arith, f, e))
      | inr (rows, f) ↦
          let same : record t { rows = rows } ≡ t' = ground (arith, f, e) in
          let (g, d) =
            then_below-keeps t.next_id is_dir old new (update_paths (move_exact old new) [] t.rows)
              rows
              (λ mid h. (
                update_paths-Given t.next_id (move_exact old new) [] t.rows mid h s.numbered.1,
                update_paths-Distinct (move_exact old new) [] t.rows mid h s.distinct,
              ))
              f in
          rw (sym same) (record { distinct = d; numbered = (s.numbered.0, g) })
    ]
