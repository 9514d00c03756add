-- ===== src/Watcher/Inotify/Walk/Covers.antt =====
-- pkg/fswatcher/driver_inotify.go: which directories are watched after a walk.
use godlna.Base.{
  ℕ, Text, List, [], ◌∷◌, ◌++◌, Option, none, some, Bool, true, false, ◌≡◌, refl, sym, ap, ◌∙◌, inl,
  inr, arith, Bool-cases, Option-cases, All, All-append, All-mono, map, nat_eq, lookup,
}
use mathlib.Core.Path.{subst}
use godlna.Watcher.Tree.{Tree, file, broken, sealed, directory, Entries, nil, entry, join}
use godlna.Watcher.Inotify.{
  Failure, unreadable, Kernel, Inotify, Outcome, next, skip_dir, failed, is_failed, should_ignore,
  send_event, watched, visit, walk, walk_entries, walk_error, walk_starting_at,
}
use godlna.Watcher.Inotify.Walk.{
  IsFaithful, event_of, walk-events, visible, visible_entries, walk_entries-preserves,
  visit-directory, descend_failed, descend_next,
}
use godlna.Watcher.Inotify.Walk.Mirror.{
  IsMirror, IsWatched, visit-IsWatched, walk_starting_at-IsMirror,
}

module _ {K : Type 0} (watches : K → ℕ → Option Text) (kernel : Kernel K)
    (faithful : IsFaithful kernel watches) (ignore : Option (Text → Bool → Bool)) where
  -- The directories among the paths are watched.
  abbrev Watched : K → List (Text × Bool) → Type 0
  Watched k = All (λ x. x.1 ≡ true → IsWatched watches kernel faithful k x.0)

  Covers : Inotify K × Outcome → List (Text × Bool) → Type 0
  Covers r xs = is_failed r.1 ≡ false → Watched r.0.kernel xs

  visit-covers :
      (w : Inotify K) (p : Text)
      → (visit kernel ignore w p true).1 ≡ next
      → IsWatched watches kernel faithful (visit kernel ignore w p true).0.kernel p
  unfolding visit watched send_event IsWatched
  visit-covers w p h = elim (Bool-cases (should_ignore ignore p true)) [
    | inl e ↦ absurd (ground (arith, e, h))
    | inr e ↦ elim (Option-cases (kernel.add_watch w.kernel p).1) [
      | inl f ↦ absurd (ground (arith, e, f, h))
      | inr (wd, f) ↦
          rw (e, f)
            (
              wd,
              (faithful.given w.kernel (kernel.add_watch w.kernel p).0 p wd
                  (ap (λ x. ((kernel.add_watch w.kernel p).0, x)) f)).0,
            )
    ]
  ]

  entries-IsWatched :
      (q : Text) (w : Inotify K) (p : Text) (es : Entries)
      → IsWatched watches kernel faithful w.kernel q
      → IsWatched watches kernel faithful (walk_entries kernel ignore w p es).0.kernel q
  entries-IsWatched q w p es i =
      walk_entries-preserves kernel ignore (λ v. IsWatched watches kernel faithful v.kernel q)
        (visit-IsWatched watches kernel faithful ignore q) w p es i

  file-Covers :
      (w : Inotify K) (p : Text) → Covers (visit kernel ignore w p false) (visible ignore p file)
  unfolding Covers visible
  file-Covers w p h = elim (Bool-cases (should_ignore ignore p false)) [
    | inl e ↦ rw e tt
    | inr e ↦ rw e (λ b. cc, tt)
  ]

  directory-Covers :
      (w : Inotify K) (p : Text) (es : Entries)
      → Covers
          (walk_entries kernel ignore (visit kernel ignore w p true).0 p es)
          (visible_entries ignore p es)
      → Covers (walk kernel ignore w p (directory es)) (visible ignore p (directory es))
  unfolding Covers walk visible
  directory-Covers w p es later h = elim (visit-directory kernel ignore w p) [
    | inl (e, f) ↦ rw e tt
    | inr (inl (x, f)) ↦
        let inner = walk_entries kernel ignore (visit kernel ignore w p true).0 p es in
        let bad : true ≡ false =
          sym (descend_failed kernel ignore (visit kernel ignore w p true) inner x f) ∙ h in
        absurd (cc)
    | inr (inr (e, f, g)) ↦
        let v = (visit kernel ignore w p true).0 in
        let inner = walk_entries kernel ignore v p es in
        let same = descend_next kernel ignore (visit kernel ignore w p true) inner f in
        let whole : Watched inner.0.kernel ((p, true) ∷ visible_entries ignore p es) =
          (λ b. entries-IsWatched p v p es (visit-covers w p f), later (rw (sym same) h)) in
        rw e (
          subst (λ r. Watched r.0.kernel ((p, true) ∷ visible_entries ignore p es)) (sym same)
            whole)
  ]

  entry-Covers :
      (w : Inotify K) (p name : Text) (t : Tree) (es : Entries)
      → Covers (walk kernel ignore w (join p name) t) (visible ignore (join p name) t)
      → Covers
          (walk_entries kernel ignore (walk kernel ignore w (join p name) t).0 p es)
          (visible_entries ignore p es)
      → Covers
          (walk_entries kernel ignore w p (entry name t es))
          (visible_entries ignore p (entry name t es))
  unfolding Covers walk visible
  entry-Covers w p name t es first later h =
      let r = walk kernel ignore w (join p name) t in
      elim (Bool-cases (is_failed r.1)) [
        | inl e ↦ let bad : true ≡ false = sym e ∙ (rw e at h) in absurd (cc)
        | inr e ↦ rw e (
            All-append _ (visible ignore (join p name) t) (visible_entries ignore p es)
              (All-mono (visible ignore (join p name) t)
                (λ x i b. entries-IsWatched x.0 r.0 p es (i b)) (first e))
              (later (rw e at h)))
      ]

  stopped-Covers : (w : Inotify K) (e : Failure) → Covers (w, failed e) []
  unfolding Covers
  stopped-Covers w e h = tt

  nothing-Covers : (w : Inotify K) → Covers (w, next) []
  unfolding Covers
  nothing-Covers w h = tt

  mutual
    unfolding walk visible

    walk-Covers :
        (w : Inotify K) (p : Text) (t : Tree)
        → Covers (walk kernel ignore w p t) (visible ignore p t)
    walk-Covers w p file = file-Covers w p
    walk-Covers w p broken = stopped-Covers w (unreadable p)
    walk-Covers w p sealed = stopped-Covers w (unreadable p)
    walk-Covers w p (directory es) =
        directory-Covers w p es (walk_entries-Covers (visit kernel ignore w p true).0 p es)

    walk_entries-Covers :
        (w : Inotify K) (p : Text) (es : Entries)
        → Covers (walk_entries kernel ignore w p es) (visible_entries ignore p es)
    walk_entries-Covers w p nil = nothing-Covers w
    walk_entries-Covers w p (entry name t es) =
        entry-Covers w p name t es (walk-Covers w (join p name) t)
          (walk_entries-Covers (walk kernel ignore w (join p name) t).0 p es)

  of_error : (p : Text) (o : Outcome) → walk_error kernel ignore p o ≡ none → is_failed o ≡ false
  unfolding walk_error is_failed
  of_error p next h = refl
  of_error p skip_dir h = refl
  of_error p (failed e) h = absurd (cc)

  -- A walk without an error, on a kernel that keeps its promises and from a watch map that tells what it watches, has
  -- sent one event for each visible file and directory of the tree, in their order; the watch map still tells what the
  -- kernel watches; and each visible directory is in it.
  pub walk_starting_at_exact :
      (w : Inotify K) (p : Text)
      → IsMirror watches w.watch_map w.kernel
      → (walk_starting_at kernel ignore w p).1 ≡ none
      → let w' = (walk_starting_at kernel ignore w p).0 in
        let seen = visible ignore p (kernel.tree w.kernel p) in
        (w'.events ≡ w.events ++ map event_of seen)
        × IsMirror watches w'.watch_map w'.kernel
        × All (λ x. x.1 ≡ true → (wd : ℕ) × (lookup wd w'.watch_map.path_by_wd ≡ some x.0)) seen
  walk_starting_at_exact w p i h =
      let w' = (walk_starting_at kernel ignore w p).0 in
      let i' = walk_starting_at-IsMirror watches kernel faithful ignore w p i in
      unfold walk_starting_at Covers IsWatched in
      (
        walk-events kernel ignore w p (kernel.tree w.kernel p) (of_error p _ h),
        i',
        All-mono (visible ignore p (kernel.tree w.kernel p))
            (λ x g b. ((g b).0, i'.agrees (g b).0 ∙ (g b).1))
            (walk-Covers w p (kernel.tree w.kernel p) (of_error p _ h)),
      )
