-- ===== src/Watcher/WatchMap/Rename.antt =====
-- `rename` of driver_inotify_watch_map.go: a watched directory that moved within the tree.
use mathlib.Core.Option
use godlna.Base.{
  ℕ, Text, text_beq_iff, nat_beq_iff, lookup, insert, erase, lookup-insert, lookup-erase, Distinct,
  ◌==◌, text_eq, nat_eq, List, [], ◌∷◌, Option, none, some, ◌≡◌, ◌≢◌, refl, ap, ◌∙◌, inl, inr,
  arith, text_beq, Bool-cases, Option-cases, true, false, if◌then◌else◌, All, All-zip, All-mono,
  fresh-All, lookup-All,
}
use godlna.Watcher.WatchMap.{WatchMap, path, is_under, renamed, rename, rename_loop, rename_entry}
use godlna.Watcher.WatchMap.Consistency.{IsConsistent, move-IsConsistent}
use godlna.Watcher.WatchMap.Relocation.{
  relocate, relocate_self, self-is_under, renamed_other, renamed_relocates, renamed-injective,
  renamed-is_under, renamed-ne-nil,
}

module _ (old new : Text) where
  abbrev replaced : Option Text → Option Text → Option Text
  replaced none now = now
  replaced (some p) now = if text_beq (renamed old new p) [] then now else some (renamed old new p)

  rename_loop-lookup :
      (es : List (ℕ × Text)) (w : WatchMap) (wd : ℕ)
      → Distinct es
      → lookup wd (rename_loop old new es w).path_by_wd
        ≡ replaced (lookup wd es) (lookup wd w.path_by_wd)
  unfolding rename_loop rename_entry lookup
  rename_loop-lookup [] w wd d = refl
  rename_loop-lookup ((wd0, p) ∷ es) w wd (f, d) = ground (
    arith,
    nat_beq_iff wd0 wd,
    lookup-insert wd0 wd (renamed old new p) w.path_by_wd,
    rename_loop-lookup es (rename_entry old new w (wd0, p)) wd d,
  )

  -- An entry that the loop has still to visit: its path is the one the map holds, and where it moves to is free.
  abbrev IsPending : WatchMap → ℕ × Text → Type 0
  IsPending w (wd, p) =
      (lookup wd w.path_by_wd ≡ some p)
      × (is_under old p ≡ true → lookup (renamed old new p) w.wd_by_path ≡ none)

  module _ (named : new ≢ []) where
    moved_entry :
        (w : WatchMap) (wd : ℕ) (p : Text)
        → is_under old p ≡ true
        → rename_entry old new w (wd, p) ≡ record w {
          path_by_wd = insert wd (renamed old new p) w.path_by_wd;
          wd_by_path = insert (renamed old new p) wd (erase p w.wd_by_path);
        }
    unfolding rename_entry
    moved_entry w wd p u =
        ground (arith, text_beq_iff (renamed old new p) [], renamed-ne-nil old new named p u)

    kept_entry :
        (w : WatchMap) (wd : ℕ) (p : Text)
        → is_under old p ≡ false
        → rename_entry old new w (wd, p) ≡ w
    unfolding rename_entry
    kept_entry w wd p n =
        ground (arith, text_beq_iff (renamed old new p) [], renamed_other old new p n)

    rename_entry-IsConsistent :
        (w : WatchMap) (wd : ℕ) (p : Text)
        → IsPending w (wd, p)
        → IsConsistent w
        → IsConsistent (rename_entry old new w (wd, p))
    rename_entry-IsConsistent w wd p (here, free) c = elim (Bool-cases (is_under old p)) [
      | inl u ↦
          rw (moved_entry w wd p u) (move-IsConsistent c wd p (renamed old new p) here (free u))
      | inr n ↦ rw (kept_entry w wd p n) c
    ]

    rename_entry-IsPending :
        (w : WatchMap) (wd : ℕ) (p : Text) (x : ℕ × Text)
        → IsConsistent w
        → lookup wd w.path_by_wd ≡ some p
        → IsPending w x
        → (x.0 == wd) ≡ false
        → IsPending (rename_entry old new w (wd, p)) x
    rename_entry-IsPending w wd p (wd', q) c here (e, free) other =
        elim (Bool-cases (is_under old p)) [
          | inl u ↦ rw (moved_entry w wd p u) (
            ground (
              arith,
              lookup-insert wd wd' (renamed old new p) w.path_by_wd,
              nat_beq_iff wd wd',
              nat_beq_iff wd' wd,
            ),
            λ v. ground (
              arith,
              lookup-insert (renamed old new p) (renamed old new q) wd (erase p w.wd_by_path),
              lookup-erase p (renamed old new q) w.wd_by_path,
              free v,
              nat_beq_iff wd' wd,
              text_beq_iff (renamed old new p) (renamed old new q),
              renamed-injective old new p q u v,
              c.to_path wd p here,
              c.to_path wd' q e,
            ),
          )
          | inr n ↦ rw (kept_entry w wd p n) (e, free)
        ]

    rename_loop-IsConsistent :
        (es : List (ℕ × Text)) (w : WatchMap)
        → Distinct es
        → All (IsPending w) es
        → IsConsistent w
        → IsConsistent (rename_loop old new es w)
    unfolding rename_loop
    rename_loop-IsConsistent [] w d pending c = c
    rename_loop-IsConsistent ((wd, p) ∷ es) w (f, d) (first, pending) c =
        rename_loop-IsConsistent es (rename_entry old new w (wd, p)) d
          (All-zip es (λ x g h. rename_entry-IsPending w wd p x c first.0 g h) pending
            (fresh-All wd es f))
          (rename_entry-IsConsistent w wd p first c)

-- Nothing at or under the directory is watched.
abbrev pub IsUnwatched : WatchMap → Text → Type 0
IsUnwatched w dir = (wd : ℕ) (p : Text) → lookup wd w.path_by_wd ≡ some p → is_under dir p ≡ false

rename-lookup :
    (w : WatchMap) (old new : Text) (wd : ℕ)
    → new ≢ []
    → Distinct w.path_by_wd
    → path (rename w old new) wd ≡ Option.map (relocate old new) (path w wd)
unfolding rename path
rename-lookup w old new wd named d = elim (Option-cases (lookup wd w.path_by_wd)) [
  | inl e ↦ rw (rename_loop-lookup old new w.path_by_wd w wd d, e)
  | inr (p, e) ↦
      rw (rename_loop-lookup old new w.path_by_wd w wd d, e)
        (ground (
          arith,
          text_beq_iff (renamed old new p) [],
          renamed-ne-nil old new named p,
          renamed_relocates old new p,
          renamed_other old new p,
        ))
]

-- A renamed directory: when the new name is not empty and nothing at or under it is watched, every watched
-- path at or under the old name has that prefix replaced by the new name, every other watch stays, and the
-- two maps stay inverse to each other.
pub rename_relocates :
    (w : WatchMap) (old new : Text) (wd : ℕ)
    → IsConsistent w
    → new ≢ []
    → IsUnwatched w new
    → IsConsistent (rename w old new)
      × (path (rename w old new) wd ≡ Option.map (relocate old new) (path w wd))
unfolding rename
rename_relocates w old new wd c named clear = (
  rename_loop-IsConsistent old new named w.path_by_wd w c.distinct
      (All-mono w.path_by_wd (λ x e. (e, λ u. vacant x u)) (lookup-All w.path_by_wd c.distinct)) c,
  rename-lookup w old new wd named c.distinct,
)
  where
    vacant :
        (x : ℕ × Text) → is_under old x.1 ≡ true → lookup (renamed old new x.1) w.wd_by_path ≡ none
    vacant x u = elim (Option-cases (lookup (renamed old new x.1) w.wd_by_path)) [
      | inl e ↦ e
      | inr (wd', e) ↦
          ground (
            arith,
            clear wd' (renamed old new x.1) (c.to_wd _ wd' e),
            renamed-is_under old new x.1 u,
          )
    ]

-- A directory renamed onto another watched directory: afterwards both descriptors name the new path, so the
-- maps are no longer inverse to each other.
pub rename_onto_watched :
    (w : WatchMap) (old new : Text) (wd wd' : ℕ)
    → IsConsistent w
    → new ≢ []
    → path w wd ≡ some old
    → path w wd' ≡ some new
    → is_under old new ≡ false
    → (path (rename w old new) wd ≡ some new)
      × (path (rename w old new) wd' ≡ some new)
      × ¬ IsConsistent (rename w old new)
rename_onto_watched w old new wd wd' c named at_old at_new apart = (first, second, clash)
  where
    first : path (rename w old new) wd ≡ some new
    first =
        rename-lookup w old new wd named c.distinct ∙ rw at_old (ap some (relocate_self old new))

    second : path (rename w old new) wd' ≡ some new
    second = rename-lookup w old new wd' named c.distinct ∙ rw at_new (rw apart)

    clash : ¬ IsConsistent (rename w old new)
    clash c' =
        unfold path in
        ground (
          arith,
          c'.to_path wd new first,
          c'.to_path wd' new second,
          at_old,
          at_new,
          relocate_self old new,
          self-is_under old,
        )
