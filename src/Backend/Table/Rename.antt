-- ===== src/Backend/Table/Rename.antt =====
-- `index_rename` of scripts/schema.psql.sql, called for every Rename event.
use mathlib.Core.List.{append_assoc}
use godlna.Base.{
  ℕ, ◌+◌, Text, text_beq_iff, has_prefix, has_prefix-append, append-drop_of_prefix, append_cancel,
  drop-append, List, [], ◌∷◌, ◌++◌, none, some, Bool, true, false, ◌≡◌, ◌≢◌, refl, sym, ap, ◌∙◌,
  length, drop, length-append, arith, All,
}
use godlna.Backend.Object.{Object}
use godlna.Backend.Table.{
  Table, slash, has_path, update_paths, move_exact, move_below, index_rename,
}
use godlna.Backend.Table.Rows.{DistinctPaths}
use godlna.Watcher.WatchMap.{is_under}
use godlna.Watcher.WatchMap.Relocation.{relocate, relocate_self, self-is_under}
use godlna.Backend.Table.Moves.{
  repath, chosen, has_path-append, repath-Distinct, moves, repath_twice,
}

has_prefix_self : (s : Text) → has_prefix (s ++ slash) s ≡ false
unfolding has_prefix
has_prefix_self [] = refl
has_prefix_self (c ∷ s) = ground (arith, has_prefix_self s)

-- Nothing stands at or under the directory.
abbrev pub IsVacant : Text → List Object → Type 0
IsVacant dir = All (λ r. is_under dir r.path ≡ false)

module _ (old new : Text) where
  exact-lands : (p q : Text) → move_exact old new p ≡ some q → is_under new q ≡ true
  unfolding move_exact
  exact-lands p q e = ground (arith, self-is_under new)

  exact-apart :
      (p p' q : Text) → move_exact old new p ≡ some q → move_exact old new p' ≡ some q → p ≡ p'
  unfolding move_exact
  exact-apart p p' q e e' = ground (arith, text_beq_iff p old, text_beq_iff p' old)

  below-lands : (p q : Text) → move_below old new p ≡ some q → has_prefix (new ++ slash) q ≡ true
  unfolding move_below
  below-lands p q e = ground (
    arith,
    has_prefix-append (new ++ slash) (drop (length old + 1) p),
    append_assoc new slash (drop (length old + 1) p),
  )

  below-whole :
      (p : Text)
      → has_prefix (old ++ slash) p ≡ true
      → p ≡ old ++ (slash ++ drop (length old + 1) p)
  below-whole p h =
      sym (append-drop_of_prefix (old ++ slash) p h)
      ∙ append_assoc old slash (drop (length (old ++ slash)) p)
      ∙ ap (λ (n : ℕ). old ++ (slash ++ drop n p)) (length-append old slash)

  below-some :
      (p q : Text)
      → move_below old new p ≡ some q
      → (has_prefix (old ++ slash) p ≡ true) × (q ≡ new ++ (slash ++ drop (length old + 1) p))
  unfolding move_below
  below-some p q e = ground arith

  below-apart :
      (p p' q : Text) → move_below old new p ≡ some q → move_below old new p' ≡ some q → p ≡ p'
  below-apart p p' q e e' =
      let (u, f) = below-some p q e in
      let (u', f') = below-some p' q e' in
      below-whole p u ∙ ap (◌++◌ old) (append_cancel new (sym f ∙ f')) ∙ sym (below-whole p' u')

  exact-off :
      (rs : List Object)
      → IsVacant new rs
      → All
          (λ r. has_prefix (new ++ slash) r.path ≡ false)
          (repath (chosen (move_exact old new)) rs)
  unfolding move_exact is_under
  exact-off [] v = tt
  exact-off (r ∷ rs) (n, v) = (ground (arith, has_prefix_self new), exact-off rs v)

  below-drop :
      (p : Text)
      → has_prefix (old ++ slash) p ≡ true
      → drop (length old) p ≡ slash ++ drop (length old + 1) p
  below-drop p h =
      ap (drop (length old)) (below-whole p h) ∙ drop-append old (slash ++ drop (length old + 1) p)

  both-relocate :
      (p : Text)
      → is_under old new ≡ false
      → chosen (move_below old new) (chosen (move_exact old new) p) ≡ relocate old new p
  unfolding move_below move_exact is_under
  both-relocate p apart = ground (arith, text_beq_iff p old, relocate_self old new, below-drop p)

  All-relocated :
      (rs : List Object)
      → is_under old new ≡ false
      → All
          (λ r.
            chosen (move_below old new) (chosen (move_exact old new) r.path)
            ≡ relocate old new r.path)
          rs
  All-relocated [] apart = tt
  All-relocated (r ∷ rs) apart = (both-relocate r.path apart, All-relocated rs apart)

index_rename-some :
    (t : Table) (old new : Text) {mid final : List Object}
    → update_paths (move_exact old new) [] t.rows ≡ some mid
    → update_paths (move_below old new) [] mid ≡ some final
    → index_rename t true old new ≡ some (record t { rows = final })
unfolding index_rename
index_rename-some t old new e f = ground arith

-- Renaming a folder, when the new name is not inside the old one and the table holds nothing at or under the new
-- name: the procedure succeeds; the rows of the folder and of all that is under it have the old name replaced by
-- the new one at the start of their paths, as in the watch map; all else in the rows, their order and the other
-- rows stay; and the paths stay distinct.
pub index_rename_folder :
    (t : Table) (old new : Text)
    → DistinctPaths t.rows
    → IsVacant new t.rows
    → is_under old new ≡ false
    → (index_rename t true old new ≡ some (record t { rows = repath (relocate old new) t.rows }))
      × DistinctPaths (repath (relocate old new) t.rows)
index_rename_folder t old new d v apart = (renames, rw together at distinct)
  where
    first : Text → Text
    first = chosen (move_exact old new)

    second : Text → Text
    second = chosen (move_below old new)

    mid : List Object
    mid = repath first t.rows

    mid-Distinct : DistinctPaths mid
    mid-Distinct =
        repath-Distinct (move_exact old new) (is_under new) (exact-lands old new)
          (exact-apart old new) t.rows d v

    off : All (λ r. has_prefix (new ++ slash) r.path ≡ false) mid
    off = exact-off old new t.rows v

    together : repath second mid ≡ repath (relocate old new) t.rows
    together =
        repath_twice first second (relocate old new) t.rows (All-relocated old new t.rows apart)

    distinct : DistinctPaths (repath second mid)
    distinct =
        repath-Distinct (move_below old new) (has_prefix (new ++ slash)) (below-lands old new)
          (below-apart old new) mid mid-Distinct off

    renames :
        index_rename t true old new ≡ some (record t { rows = repath (relocate old new) t.rows })
    renames =
        index_rename-some t old new
          (moves (move_exact old new) (is_under new) (exact-lands old new) (exact-apart old new)
            t.rows d v)
          (moves (move_below old new) (has_prefix (new ++ slash)) (below-lands old new)
              (below-apart old new) mid mid-Distinct off
            ∙ ap some together)

update_paths_taken :
    (old new : Text) (rs done : List Object)
    → old ≢ new
    → has_path old rs ≡ true
    → has_path new (done ++ rs) ≡ true
    → update_paths (move_exact old new) done rs ≡ none
unfolding update_paths has_path move_exact
update_paths_taken old new [] done other here there = cc
update_paths_taken old new (r ∷ rs) done other here there = ground (
  arith,
  text_beq_iff r.path old,
  text_beq_iff r.path new,
  has_path-append new done (r ∷ rs),
  has_path-append new done rs,
  append_assoc done (r ∷ []) rs,
  update_paths_taken old new rs (done ++ r ∷ []) other,
)

-- Renaming onto a name that another row has: the procedure fails on the UNIQUE constraint, so the table is left
-- as it was, with a row under the old name too.
pub index_rename_taken :
    (t : Table) (is_dir : Bool) (old new : Text)
    → old ≢ new
    → has_path old t.rows ≡ true
    → has_path new t.rows ≡ true
    → index_rename t is_dir old new ≡ none
unfolding index_rename
index_rename_taken t is_dir old new other here there =
    ground (arith, update_paths_taken old new t.rows [] other here there)
