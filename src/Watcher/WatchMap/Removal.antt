-- ===== src/Watcher/WatchMap/Removal.antt =====
-- `rmByPathRecursive` of driver_inotify_watch_map.go: a directory that left the tree.
use godlna.Base.{
  ℕ, Text, nat_beq_iff, lookup, erase, lookup-erase, Distinct, ◌==◌, text_eq, nat_eq, List, [], ◌∷◌,
  ◌++◌, Option, none, some, ◌≡◌, refl, inl, inr, arith, Bool-cases, Bool, false, if◌then◌else◌, All,
  All-zip, fresh-All, lookup-All, ◌||◌,
}
use godlna.Watcher.WatchMap.{WatchMap, is_under, rm_loop, rm_by_path_recursive}
use godlna.Watcher.WatchMap.Consistency.{IsConsistent, drop-IsConsistent}

-- Whether a descriptor's path, if it has one, is the directory or lies under it.
abbrev pub watches_under : Text → Option Text → Bool
watches_under dir none = false
watches_under dir (some p) = is_under dir p

abbrev pub contains : ℕ → List ℕ → Bool
contains n [] = false
contains n (x ∷ xs) = x == n || contains n xs

contains-append :
    (n : ℕ) (xs ys : List ℕ) → contains n (xs ++ ys) ≡ (contains n xs || contains n ys)
contains-append n [] ys = refl
contains-append n (x ∷ xs) ys = ground (arith, contains-append n xs ys)

module _ (dir : Text) where
  rm_loop-lookup :
      (es : List (ℕ × Text)) (w : WatchMap) (wds : List ℕ) (wd : ℕ)
      → Distinct es
      → lookup wd (rm_loop dir es w wds).0.path_by_wd
        ≡ (if watches_under dir (lookup wd es) then none else lookup wd w.path_by_wd)
  unfolding rm_loop lookup
  rm_loop-lookup [] w wds wd d = refl
  rm_loop-lookup ((wd0, p) ∷ es) w wds wd (f, d) = ground (
    arith,
    nat_beq_iff wd0 wd,
    lookup-erase wd0 wd w.path_by_wd,
    rm_loop-lookup es
        (record w { path_by_wd = erase wd0 w.path_by_wd; wd_by_path = erase p w.wd_by_path })
        (wds ++ wd0 ∷ []) wd d,
    rm_loop-lookup es w wds wd d,
  )

  rm_loop-contains :
      (es : List (ℕ × Text)) (w : WatchMap) (wds : List ℕ) (wd : ℕ)
      → Distinct es
      → contains wd (rm_loop dir es w wds).1 ≡ (contains wd wds || watches_under dir (lookup wd es))
  unfolding rm_loop lookup
  rm_loop-contains [] w wds wd d = ground arith
  rm_loop-contains ((wd0, p) ∷ es) w wds wd (f, d) = ground (
    arith,
    nat_beq_iff wd0 wd,
    contains-append wd wds (wd0 ∷ []),
    rm_loop-contains es
        (record w { path_by_wd = erase wd0 w.path_by_wd; wd_by_path = erase p w.wd_by_path })
        (wds ++ wd0 ∷ []) wd d,
    rm_loop-contains es w wds wd d,
  )

  rm_loop-IsConsistent :
      (es : List (ℕ × Text)) (w : WatchMap) (wds : List ℕ)
      → Distinct es
      → All (λ x. lookup x.0 w.path_by_wd ≡ some x.1) es
      → IsConsistent w
      → IsConsistent (rm_loop dir es w wds).0
  unfolding rm_loop
  rm_loop-IsConsistent [] w wds d present c = c
  rm_loop-IsConsistent ((wd, p) ∷ es) w wds (f, d) (e, present) c =
      elim (Bool-cases (is_under dir p)) [
        | inl under ↦ rw under (
            rm_loop-IsConsistent es _ (wds ++ wd ∷ []) d
              (All-zip es
                (λ x h g.
                  ground (
                    arith,
                    nat_beq_iff wd x.0,
                    nat_beq_iff x.0 wd,
                    lookup-erase wd x.0 w.path_by_wd,
                  ))
                present (fresh-All wd es f))
              (drop-IsConsistent c wd p e))
        | inr other ↦ rw other (rm_loop-IsConsistent es w wds d present c)
      ]

-- The recursive removal forgets exactly the watches of the directory and of what lies under it, returns
-- their descriptors and no others, and leaves the two maps inverse to each other.
pub rm_by_path_recursive_exact :
    (w : WatchMap) (dir : Text) (wd : ℕ)
    → IsConsistent w
    → let removed = rm_by_path_recursive w dir in
      IsConsistent removed.0
      × (contains wd removed.1 ≡ watches_under dir (lookup wd w.path_by_wd))
      × (lookup wd removed.0.path_by_wd
          ≡ (if watches_under dir (lookup wd w.path_by_wd) then none else lookup wd w.path_by_wd))
unfolding rm_by_path_recursive
rm_by_path_recursive_exact w dir wd c = (
  rm_loop-IsConsistent dir w.path_by_wd w [] c.distinct (lookup-All w.path_by_wd c.distinct) c,
  rm_loop-contains dir w.path_by_wd w [] wd c.distinct,
  rm_loop-lookup dir w.path_by_wd w [] wd c.distinct,
)
