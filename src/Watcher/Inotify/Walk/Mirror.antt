-- ===== src/Watcher/Inotify/Walk/Mirror.antt =====
-- pkg/fswatcher/driver_inotify.go: after a walk the watch map tells what the kernel watches.
use godlna.Base.{
  ℕ, Text, Option, none, some, Bool, true, false, ◌≡◌, ◌≢◌, sym, ap, ◌∙◌, ◌⊎◌, inl, inr, arith,
  Bool-cases, Option-cases, nat_eq, text_eq, lookup, lookup-insert, nat_beq_iff, nat_beq,
}
use godlna.Watcher.WatchMap.{WatchMap, path}
use godlna.Watcher.WatchMap
use godlna.Watcher.WatchMap.Consistency.{IsConsistent, IsFree, add-IsConsistent}
use godlna.Watcher.Inotify.{
  Kernel, Inotify, should_ignore, send_event, watched, visit, walk_starting_at,
}
use godlna.Watcher.Inotify.Walk.{IsFaithful, walk-preserves}

module _ {K : Type 0} (watches : K → ℕ → Option Text) where
  -- The maps are inverse to each other, and each descriptor has in them the path that the kernel watches by it.
  pub record IsMirror (m : WatchMap) (k : K) : Type 0 where
    pub consistent : IsConsistent m
    pub agrees : (wd : ℕ) → lookup wd m.path_by_wd ≡ watches k wd

  module _ (kernel : Kernel K) (faithful : IsFaithful kernel watches) where
    IsFree-given :
        (m : WatchMap) (k : K) (p : Text) (wd : ℕ)
        → IsMirror m k
        → ((watches k wd ≡ some p) ⊎ ((watches k wd ≡ none) × ((v : ℕ) → watches k v ≢ some p)))
        → IsFree m wd p
    IsFree-given m k p wd i (inl e) = inr (i.agrees wd ∙ e)
    IsFree-given m k p wd i (inr (e, n)) = inl (
      i.agrees wd ∙ e,
      elim (Option-cases (lookup p m.wd_by_path)) [
        | inl f ↦ f
        | inr (v, f) ↦ absurd (n v (sym (i.agrees v) ∙ i.consistent.to_wd p v f))
      ],
    )

    add-IsMirror :
        (m : WatchMap) (k k' : K) (p : Text) (wd : ℕ)
        → IsMirror m k
        → kernel.add_watch k p ≡ (k', some wd)
        → IsMirror (WatchMap.add m wd p) k'
    add-IsMirror m k k' p wd i e =
        let (here, others, before) = faithful.given k k' p wd e in
        record {
          consistent = add-IsConsistent i.consistent wd p (IsFree-given m k p wd i before);
          agrees = λ v.
              unfold WatchMap.add in
              ground (
                arith,
                lookup-insert wd v p m.path_by_wd,
                nat_beq_iff wd v,
                here,
                others v,
                i.agrees v,
              );
        }

    kept-IsMirror :
        (m : WatchMap) (k k' : K) (p : Text)
        → IsMirror m k
        → kernel.add_watch k p ≡ (k', none)
        → IsMirror m k'
    kept-IsMirror m k k' p i e = record {
      consistent = i.consistent;
      agrees = λ v. i.agrees v ∙ sym (faithful.kept k k' p e v);
    }

    -- A path that the kernel watches by some descriptor.
    unfoldable pub IsWatched : K → Text → Type 0
    IsWatched k p = (wd : ℕ) × (watches k wd ≡ some p)

    add_watch-IsWatched :
        (k : K) (p q : Text) → IsWatched k q → IsWatched (kernel.add_watch k p).0 q
    unfolding IsWatched
    add_watch-IsWatched k p q (v, h) = elim (Option-cases (kernel.add_watch k p).1) [
      | inl e ↦ (
        v,
        faithful.kept k (kernel.add_watch k p).0 p (ap (λ x. ((kernel.add_watch k p).0, x)) e) v
            ∙ h,
      )
      | inr (wd, e) ↦
          let (here, others, before) =
            faithful.given k (kernel.add_watch k p).0 p wd
              (ap (λ x. ((kernel.add_watch k p).0, x)) e) in
          elim (Bool-cases (nat_beq v wd)) [
            | inl f ↦ elim before [
              | inl g ↦ (wd, ground (arith, nat_beq_iff v wd, f, g, here, h))
              | inr (g, n) ↦ absurd (ground (arith, nat_beq_iff v wd, f, g, h))
            ]
            | inr f ↦ (v, others v (λ s. ground (arith, nat_beq_iff v wd, s, f)) ∙ h)
          ]
    ]

    module _ (ignore : Option (Text → Bool → Bool)) where
      visit-IsMirror :
          (w : Inotify K) (p : Text) (d : Bool)
          → IsMirror w.watch_map w.kernel
          → IsMirror (visit kernel ignore w p d).0.watch_map (visit kernel ignore w p d).0.kernel
      unfolding visit watched send_event
      visit-IsMirror w p false i = elim (Bool-cases (should_ignore ignore p false)) [
        | inl e ↦ rw e i
        | inr e ↦ rw e i
      ]
      visit-IsMirror w p true i = elim (Bool-cases (should_ignore ignore p true)) [
        | inl e ↦ rw e i
        | inr e ↦ elim (Option-cases (kernel.add_watch w.kernel p).1) [
          | inl f ↦
              rw (e, f)
                (kept-IsMirror w.watch_map w.kernel (kernel.add_watch w.kernel p).0 p i
                  (ap (λ x. ((kernel.add_watch w.kernel p).0, x)) f))
          | inr (wd, f) ↦
              rw (e, f)
                (add-IsMirror w.watch_map w.kernel (kernel.add_watch w.kernel p).0 p wd i
                  (ap (λ x. ((kernel.add_watch w.kernel p).0, x)) f))
        ]
      ]

      -- On a kernel that keeps its promises, a walk, whether it comes to its end or not, leaves the watch map telling
      -- what the kernel watches, with two maps that are inverse to each other.
      pub walk_starting_at-IsMirror :
          (w : Inotify K) (p : Text)
          → IsMirror w.watch_map w.kernel
          → let w' = (walk_starting_at kernel ignore w p).0 in IsMirror w'.watch_map w'.kernel
      unfolding walk_starting_at
      walk_starting_at-IsMirror w p i =
          walk-preserves kernel ignore (λ v. IsMirror v.watch_map v.kernel) visit-IsMirror w p
            (kernel.tree w.kernel p) i

      pub visit-IsWatched :
          (q : Text) (w : Inotify K) (p : Text) (d : Bool)
          → IsWatched w.kernel q
          → IsWatched (visit kernel ignore w p d).0.kernel q
      unfolding visit watched send_event
      visit-IsWatched q w p false i = elim (Bool-cases (should_ignore ignore p false)) [
        | inl e ↦ rw e i
        | inr e ↦ rw e i
      ]
      visit-IsWatched q w p true i = elim (Bool-cases (should_ignore ignore p true)) [
        | inl e ↦ rw e i
        | inr e ↦ elim (Option-cases (kernel.add_watch w.kernel p).1) [
          | inl f ↦ rw (e, f) (add_watch-IsWatched w.kernel p q i)
          | inr (wd, f) ↦ rw (e, f) (add_watch-IsWatched w.kernel p q i)
        ]
      ]
