-- ===== src/Watcher/WatchMap.antt =====
-- pkg/fswatcher/driver_inotify_watch_map.go: the two maps between inotify watch descriptors and
-- paths. A `range` loop over `pathByWd` runs over the entries that the map holds when it starts:
-- its body sets or deletes only the entry that it visits.
pub mod Consistency
pub mod Relocation
pub mod Rename
pub mod Removal
pub mod Examples
use godlna.Base.{
  ℕ, Bool, Text, codes, text_beq, has_prefix, lookup, insert, erase, ◌==◌, text_eq, nat_eq, length,
  drop, List, [], ◌∷◌, ◌++◌, Option, none, some, ◌||◌, if◌then◌else◌, ◌≡◌, refl,
}

pub record WatchMap : Type 0 where
  pub path_by_wd : List (ℕ × Text)
  pub wd_by_path : List (Text × ℕ)

unfoldable pub new_watch_map : WatchMap
new_watch_map = record { path_by_wd = []; wd_by_path = [] }

abbrev pub slash : Text
slash = codes "/"

-- The test by which the watcher selects a path and what lies under it.
unfoldable pub is_under : Text → Text → Bool
is_under dir p = text_beq p dir || has_prefix (dir ++ slash) p

unfoldable pub add : WatchMap → ℕ → Text → WatchMap
add w wd p = record w {
  path_by_wd = insert wd p w.path_by_wd;
  wd_by_path = insert p wd w.wd_by_path;
}

unfoldable pub path : WatchMap → ℕ → Option Text
path w wd = lookup wd w.path_by_wd

-- The value that one round of `rename` gives to `to`; the empty text is the variable's initial value.
unfoldable pub renamed : Text → Text → Text → Text
renamed old new p =
    if text_beq p old
    then new
    else if has_prefix (old ++ slash) p
    then new ++ drop (length old) p
    else []

rename_entry : Text → Text → WatchMap → ℕ × Text → WatchMap
rename_entry old new w (wd, p) =
    let to = renamed old new p in
    if text_beq to [] then w else record w {
      path_by_wd = insert wd to w.path_by_wd;
      wd_by_path = insert to wd (erase p w.wd_by_path);
    }

rename_loop : Text → Text → List (ℕ × Text) → WatchMap → WatchMap
rename_loop old new [] w = w
rename_loop old new (e ∷ es) w = rename_loop old new es (rename_entry old new w e)

unfoldable pub rename : WatchMap → Text → Text → WatchMap
unfolding rename_loop rename_entry
rename w old new = rename_loop old new w.path_by_wd w

unfoldable pub rm_by_path : WatchMap → Text → WatchMap
rm_by_path w p = elim (lookup p w.wd_by_path) [
  | none ↦ w
  | some wd ↦ record w { path_by_wd = erase wd w.path_by_wd; wd_by_path = erase p w.wd_by_path }
]

rm_loop : Text → List (ℕ × Text) → WatchMap → List ℕ → WatchMap × List ℕ
rm_loop dir [] w wds = (w, wds)
rm_loop dir ((wd, p) ∷ es) w wds =
    let removed =
      rm_loop dir es
        (record w { path_by_wd = erase wd w.path_by_wd; wd_by_path = erase p w.wd_by_path })
        (wds ++ wd ∷ []) in
    let kept = rm_loop dir es w wds in if is_under dir p then removed else kept

unfoldable pub rm_by_path_recursive : WatchMap → Text → WatchMap × List ℕ
unfolding rm_loop
rm_by_path_recursive w dir = rm_loop dir w.path_by_wd w []

unfoldable pub reset : WatchMap → WatchMap
reset w = record { path_by_wd = []; wd_by_path = [] }

abbrev pub sample : WatchMap
sample = record {
  path_by_wd = (1, codes "/v") ∷ (2, codes "/v/a") ∷ (3, codes "/v/a/b") ∷ (4, codes "/v/ab") ∷ [];
  wd_by_path = (codes "/v", 1) ∷ (codes "/v/a", 2) ∷ (codes "/v/a/b", 3) ∷ (codes "/v/ab", 4) ∷ [];
}

rename_sample :
    (rename sample (codes "/v/a") (codes "/v/c")).path_by_wd
    ≡ (1, codes "/v") ∷ (2, codes "/v/c") ∷ (3, codes "/v/c/b") ∷ (4, codes "/v/ab") ∷ []
unfolding rename renamed text_beq has_prefix insert
rename_sample = refl

rm_sample : (rm_by_path_recursive sample (codes "/v/a")).1 ≡ 2 ∷ 3 ∷ []
unfolding rm_by_path_recursive is_under text_beq has_prefix
rm_sample = refl
