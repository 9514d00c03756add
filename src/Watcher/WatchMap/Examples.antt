-- ===== src/Watcher/WatchMap/Examples.antt =====
-- The theorems about driver_inotify_watch_map.go at a map with a folder and two folders in it.
use mathlib.Core.Option
use godlna.Base.{
  codes, none, ◌≡◌, refl, arith, nat_eq, text_eq, lookup, insert, text_beq, if◌then◌else◌,
  has_prefix, inl,
}
use godlna.Watcher.WatchMap.{
  WatchMap, add, reset, sample, path, rename, is_under, rm_by_path_recursive,
}
use godlna.Watcher.WatchMap.Consistency.{IsConsistent, add-IsConsistent, reset-IsConsistent}
use godlna.Watcher.WatchMap.Relocation.{relocate}
use godlna.Watcher.WatchMap.Rename.{rename_relocates, IsUnwatched}
use godlna.Watcher.WatchMap.Removal.{contains, watches_under, rm_by_path_recursive_exact}

abbrev root : WatchMap
root = add (reset sample) 1 (codes "/v")

abbrev with_first : WatchMap
with_first = add root 2 (codes "/v/a")

abbrev watched : WatchMap
watched = add with_first 3 (codes "/v/b")

watched-IsConsistent : IsConsistent watched
unfolding lookup insert reset add text_beq
watched-IsConsistent =
    add-IsConsistent {w = with_first}
      (add-IsConsistent {w = root}
        (add-IsConsistent {w = reset sample} (reset-IsConsistent sample) 1 (codes "/v")
          (inl (refl, refl)))
        2 (codes "/v/a") (inl (refl, refl)))
      3 (codes "/v/b") (inl (refl, refl))

nothing_under_c : IsUnwatched watched (codes "/v/c")
unfolding lookup insert reset add text_beq is_under has_prefix
nothing_under_c wd p h = ground arith

rename_relocates_example :
    IsConsistent (rename watched (codes "/v/a") (codes "/v/c"))
    × (path (rename watched (codes "/v/a") (codes "/v/c")) 2
        ≡ Option.map (relocate (codes "/v/a") (codes "/v/c")) (path watched 2))
rename_relocates_example =
    rename_relocates watched (codes "/v/a") (codes "/v/c") 2 watched-IsConsistent (λ e. cc)
      nothing_under_c

rm_by_path_recursive_exact_example :
    let removed = rm_by_path_recursive watched (codes "/v/a") in
    IsConsistent removed.0
    × (contains 2 removed.1 ≡ watches_under (codes "/v/a") (lookup 2 watched.path_by_wd))
    × (lookup 2 removed.0.path_by_wd ≡ (
        if watches_under (codes "/v/a") (lookup 2 watched.path_by_wd)
        then none
        else lookup 2 watched.path_by_wd))
rm_by_path_recursive_exact_example =
    rm_by_path_recursive_exact watched (codes "/v/a") 2 watched-IsConsistent
