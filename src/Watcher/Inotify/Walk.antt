-- ===== src/Watcher/Inotify/Walk.antt =====
-- pkg/fswatcher/driver_inotify.go: what a walk sends and watches.
pub mod Mirror
pub mod Covers
use godlna.Base.{
  ℕ, Text, List, [], ◌∷◌, ◌++◌, Option, none, some, Bool, true, false, if◌then◌else◌, ◌≡◌, ◌≢◌,
  refl, sym, ap, ◌∙◌, ◌⊎◌, inl, inr, arith, Bool-cases, Option-cases, All, All-append, All-mono,
  map, nat_eq, text_eq, lookup, insert, lookup-insert, nat_beq_iff, nat_beq,
}
use mathlib.Core.List.{append-nil, append_assoc, map-append}
use godlna.Watcher.Event.{Event}
use godlna.Watcher.Tree.{Tree, file, broken, sealed, directory, Entries, nil, entry, join}
use godlna.Watcher.WatchMap.{path}
use godlna.Watcher.WatchMap
use godlna.Watcher.WatchMap.Consistency.{IsConsistent, IsFree, add-IsConsistent}
use godlna.Watcher.Inotify.{
  Failure, unreadable, watch_failed, Kernel, Inotify, Outcome, next, skip_dir, failed, is_failed,
  should_ignore, index_event, send_event, watched, visit, descend, walk, walk_entries, walk_error,
  walk_starting_at,
}

-- The specification: the files and directories of a tree that are not ignored and not below an ignored directory, each
-- directory before its entries.
module _ (ignore : Option (Text → Bool → Bool)) where
  unfoldable mutual
    pub visible : Text → Tree → List (Text × Bool)
    visible p file = if should_ignore ignore p false then [] else (p, false) ∷ []
    visible p broken = []
    visible p sealed = []
    visible p (directory es) =
        let below = visible_entries p es in
        if should_ignore ignore p true then [] else (p, true) ∷ below

    pub visible_entries : Text → Entries → List (Text × Bool)
    visible_entries p nil = []
    visible_entries p (entry name t es) = visible (join p name) t ++ visible_entries p es

abbrev pub event_of : Text × Bool → Event
event_of x = index_event x.0 x.1

-- What the driver relies on of inotify, for the path that each descriptor was given: a directory that is watched
-- already keeps its descriptor, and any other gets one that is not in use. A call that fails changes nothing.
pub record IsFaithful {K : Type 0} (kernel : Kernel K) (watches : K → ℕ → Option Text)
    : Type 0 where
  pub given :
      (k k' : K) (p : Text) (wd : ℕ)
      → kernel.add_watch k p ≡ (k', some wd)
      → (watches k' wd ≡ some p)
        × ((v : ℕ) → v ≢ wd → watches k' v ≡ watches k v)
        × ((watches k wd ≡ some p) ⊎ ((watches k wd ≡ none) × ((v : ℕ) → watches k v ≢ some p)))
  pub kept :
      (k k' : K) (p : Text)
      → kernel.add_watch k p ≡ (k', none)
      → (v : ℕ) → watches k' v ≡ watches k v

module _ {K : Type 0} (kernel : Kernel K) (ignore : Option (Text → Bool → Bool)) where
  module _ (P : Inotify K → Type 0)
      (visits : (w : Inotify K) (p : Text) (d : Bool) → P w → P (visit kernel ignore w p d).0) where
    descend-preserves :
        (r inner : Inotify K × Outcome) → P r.0 → P inner.0 → P (descend kernel ignore r inner).0
    unfolding descend
    descend-preserves (v, next) inner h k = k
    descend-preserves (v, skip_dir) inner h k = h
    descend-preserves (v, failed e) inner h k = h

    -- What each visit keeps, the whole walk keeps.
    mutual
      unfolding walk

      pub walk-preserves :
          (w : Inotify K) (p : Text) (t : Tree) → P w → P (walk kernel ignore w p t).0
      walk-preserves w p file h = visits w p false h
      walk-preserves w p broken h = h
      walk-preserves w p sealed h = h
      walk-preserves w p (directory es) h =
          let r = visit kernel ignore w p true in
          descend-preserves r (walk_entries kernel ignore r.0 p es) (visits w p true h)
            (walk_entries-preserves r.0 p es (visits w p true h))

      pub walk_entries-preserves :
          (w : Inotify K) (p : Text) (es : Entries) → P w → P (walk_entries kernel ignore w p es).0
      walk_entries-preserves w p nil h = h
      walk_entries-preserves w p (entry name t es) h =
          let r = walk kernel ignore w (join p name) t in
          let g = walk-preserves w (join p name) t h in
          let rest = walk_entries-preserves r.0 p es g in
          elim (Bool-cases (is_failed r.1)) [ inl e ↦ rw e g | inr e ↦ rw e rest ]

  -- How the visit of a directory ends.
  pub visit-directory :
      (w : Inotify K) (p : Text)
      → ((should_ignore ignore p true ≡ true) × (visit kernel ignore w p true ≡ (w, skip_dir)))
        ⊎ ((e : Failure) × ((visit kernel ignore w p true).1 ≡ failed e))
        ⊎ ((should_ignore ignore p true ≡ false)
            × ((visit kernel ignore w p true).1 ≡ next)
            × ((visit kernel ignore w p true).0.events ≡ w.events ++ index_event p true ∷ []))
  unfolding visit watched send_event
  visit-directory w p = elim (Bool-cases (should_ignore ignore p true)) [
    | inl e ↦ inl (e, rw e refl)
    | inr e ↦ elim (Option-cases (kernel.add_watch w.kernel p).1) [
      | inl f ↦ inr (inl (watch_failed p, rw (e, f) refl))
      | inr (wd, f) ↦ inr (inr (e, rw (e, f) refl, rw (e, f) refl))
    ]
  ]

  pub descend_failed :
      (r inner : Inotify K × Outcome) (e : Failure)
      → r.1 ≡ failed e
      → is_failed (descend kernel ignore r inner).1 ≡ true
  unfolding descend is_failed
  descend_failed (v, next) inner e h = cc
  descend_failed (v, skip_dir) inner e h = cc
  descend_failed (v, failed x) inner e h = refl

  pub descend_next :
      (r inner : Inotify K × Outcome) → r.1 ≡ next → descend kernel ignore r inner ≡ inner
  unfolding descend
  descend_next (v, next) inner h = refl
  descend_next (v, skip_dir) inner h = cc
  descend_next (v, failed x) inner h = cc

  -- The events of a walk that came to its end.
  Sends : Inotify K → Inotify K × Outcome → List (Text × Bool) → Type 0
  Sends w r xs = is_failed r.1 ≡ false → r.0.events ≡ w.events ++ map event_of xs

  visit_file-Sends :
      (w : Inotify K) (p : Text) → Sends w (visit kernel ignore w p false) (visible ignore p file)
  unfolding Sends visit visible send_event
  visit_file-Sends w p h = elim (Bool-cases (should_ignore ignore p false)) [
    | inl e ↦ rw e (sym (append-nil w.events))
    | inr e ↦ rw e refl
  ]

  directory-Sends :
      (w : Inotify K) (p : Text) (es : Entries)
      → Sends
          (visit kernel ignore w p true).0
          (walk_entries kernel ignore (visit kernel ignore w p true).0 p es)
          (visible_entries ignore p es)
      → Sends w (walk kernel ignore w p (directory es)) (visible ignore p (directory es))
  unfolding Sends walk visible
  directory-Sends w p es later h = elim (visit-directory w p) [
    | inl (e, f) ↦ rw (e, f) (unfold descend in sym (append-nil w.events))
    | inr (inl (x, f)) ↦
        let inner = walk_entries kernel ignore (visit kernel ignore w p true).0 p es in
        let bad : true ≡ false =
          sym (descend_failed (visit kernel ignore w p true) inner x f) ∙ h in
        absurd (cc)
    | inr (inr (e, f, g)) ↦
        let inner = walk_entries kernel ignore (visit kernel ignore w p true).0 p es in
        let same = descend_next (visit kernel ignore w p true) inner f in
        rw (e, same)
          (later (rw (sym same) h)
            ∙ ap (λ x. x ++ map event_of (visible_entries ignore p es)) g
            ∙ append_assoc w.events _ _)
  ]

  entry-Sends :
      (w : Inotify K) (p name : Text) (t : Tree) (es : Entries)
      → Sends w (walk kernel ignore w (join p name) t) (visible ignore (join p name) t)
      → Sends
          (walk kernel ignore w (join p name) t).0
          (walk_entries kernel ignore (walk kernel ignore w (join p name) t).0 p es)
          (visible_entries ignore p es)
      → Sends w
          (walk_entries kernel ignore w p (entry name t es))
          (visible_entries ignore p (entry name t es))
  unfolding Sends walk visible
  entry-Sends w p name t es first later h =
      elim (Bool-cases (is_failed (walk kernel ignore w (join p name) t).1)) [
        | inl e ↦ let bad : true ≡ false = sym e ∙ (rw e at h) in absurd (cc)
        | inr e ↦ rw e (
            (later (rw e at h))
            ∙ ap (λ x. x ++ map event_of (visible_entries ignore p es)) (first e)
            ∙ append_assoc w.events _ _
            ∙ ap (λ x. w.events ++ x)
                (sym (
                  map-append event_of (visible ignore (join p name) t)
                    (visible_entries ignore p es))))
      ]

  stopped-Sends : (w : Inotify K) (e : Failure) → Sends w (w, failed e) []
  unfolding Sends is_failed
  stopped-Sends w e h = cc

  nothing-Sends : (w : Inotify K) → Sends w (w, next) []
  unfolding Sends
  nothing-Sends w h = sym (append-nil w.events)

  mutual
    unfolding walk visible

    walk-Sends :
        (w : Inotify K) (p : Text) (t : Tree)
        → Sends w (walk kernel ignore w p t) (visible ignore p t)
    walk-Sends w p file = visit_file-Sends w p
    walk-Sends w p broken = stopped-Sends w (unreadable p)
    walk-Sends w p sealed = stopped-Sends w (unreadable p)
    walk-Sends w p (directory es) =
        directory-Sends w p es (walk_entries-Sends (visit kernel ignore w p true).0 p es)

    walk_entries-Sends :
        (w : Inotify K) (p : Text) (es : Entries)
        → Sends w (walk_entries kernel ignore w p es) (visible_entries ignore p es)
    walk_entries-Sends w p nil = nothing-Sends w
    walk_entries-Sends w p (entry name t es) =
        entry-Sends w p name t es (walk-Sends w (join p name) t)
          (walk_entries-Sends (walk kernel ignore w (join p name) t).0 p es)

  -- A walk that came to its end has sent one event for each visible file and directory, in their order.
  pub walk-events :
      (w : Inotify K) (p : Text) (t : Tree)
      → is_failed (walk kernel ignore w p t).1 ≡ false
      → (walk kernel ignore w p t).0.events ≡ w.events ++ map event_of (visible ignore p t)
  unfolding Sends
  walk-events w p t h = walk-Sends w p t h
