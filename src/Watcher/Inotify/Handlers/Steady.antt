-- ===== src/Watcher/Inotify/Handlers/Steady.antt =====
-- pkg/fswatcher/driver_inotify.go: what the handlers of events leave alone.
use godlna.Base.{
  ℕ, Text, List, [], ◌∷◌, Option, none, some, Bool, true, false, not, ◌&&◌, ◌≡◌, refl, ◌∙◌,
  Bool-cases, inl, inr, nat_eq,
}
use godlna.Watcher.Event.{Op, walk_start, walk_complete, index, remove, rename}
use godlna.Watcher.Tree.{Tree, file, broken, sealed, directory, Entries, nil, entry, join}
use godlna.Watcher.WatchMap.{rm_by_path_recursive}
use godlna.Watcher.MvEvents.{Move, add_mv_to}
use godlna.Watcher.Inotify.{
  State, Channel, Failure, Kernel, Inotify, Outcome, next, skip_dir, failed, is_failed,
  should_ignore, send_event, send_error, watched, visit, descend, walk, walk_entries,
  walk_starting_at,
}
use godlna.Watcher.Inotify.Handlers.{
  has_flag, in_create, in_ignored, in_delete, in_moved_from, in_moved_to, in_close_write, in_isdir,
  rm_watch, rm_watches, report, moved_away, by_op, handle_move_event, with_call, moved_to, deleted,
  by_mask, at_path, handle_inotify_event,
}

module _ {K : Type 0} where
  -- The roots, the state, the two channels and whether there is a reader.
  abbrev pub shape : Inotify K → List Text × State × Channel × Channel × Bool
  shape w = (w.roots, w.state, w.done, w.stop_done, w.reading)

module _ {K : Type 0} (kernel : Kernel K) (ignore : Option (Text → Bool → Bool)) where
  shape-watched :
      (w : Inotify K) (p : Text) (k : K) (wd : Option ℕ)
      → shape (watched kernel ignore w p k wd).0 ≡ shape w
  unfolding watched send_event
  shape-watched w p k none = refl
  shape-watched w p k (some wd) = refl

  shape-visit :
      (w : Inotify K) (p : Text) (is_dir : Bool)
      → shape (visit kernel ignore w p is_dir).0 ≡ shape w
  unfolding visit
  shape-visit w p true = elim (Bool-cases (should_ignore ignore p true)) [
    | inl e ↦ rw e refl
    | inr e ↦ rw e (shape-watched w p _ _)
  ]
  shape-visit w p false = elim (Bool-cases (should_ignore ignore p false)) [
    | inl e ↦ rw e refl
    | inr e ↦ rw e (unfold send_event in refl)
  ]

  shape-descend :
      (w : Inotify K) (r inner : Inotify K × Outcome)
      → shape r.0 ≡ shape w
      → shape inner.0 ≡ shape w
      → shape (descend kernel ignore r inner).0 ≡ shape w
  unfolding descend
  shape-descend w (v, next) inner h k = k
  shape-descend w (v, skip_dir) inner h k = h
  shape-descend w (v, failed e) inner h k = h

  mutual
    unfolding walk

    shape-walk :
        (w : Inotify K) (p : Text) (t : Tree) → shape (walk kernel ignore w p t).0 ≡ shape w
    shape-walk w p file = shape-visit w p false
    shape-walk w p broken = refl
    shape-walk w p sealed = refl
    shape-walk w p (directory es) =
        shape-descend w (visit kernel ignore w p true) _ (shape-visit w p true)
          (shape-walk_entries (visit kernel ignore w p true).0 p es ∙ shape-visit w p true)

    shape-walk_entries :
        (w : Inotify K) (p : Text) (es : Entries)
        → shape (walk_entries kernel ignore w p es).0 ≡ shape w
    shape-walk_entries w p nil = refl
    shape-walk_entries w p (entry name t es) =
        let r = walk kernel ignore w (join p name) t in
        elim (Bool-cases (is_failed r.1)) [
          | inl e ↦ rw e (shape-walk w (join p name) t)
          | inr e ↦ rw e (shape-walk_entries r.0 p es ∙ shape-walk w (join p name) t)
        ]

  pub shape-walk_starting_at :
      (w : Inotify K) (p : Text) → shape (walk_starting_at kernel ignore w p).0 ≡ shape w
  unfolding walk_starting_at
  shape-walk_starting_at w p = shape-walk w p _

  shape-rm_watch : (w : Inotify K) (wd : ℕ) → shape (rm_watch kernel ignore w wd) ≡ shape w
  unfolding rm_watch
  shape-rm_watch w wd = elim (Bool-cases (kernel.rm_watch w.kernel wd).1) [
    | inl e ↦ rw e refl
    | inr e ↦ rw e (unfold send_error in refl)
  ]

  shape-rm_watches :
      (w : Inotify K) (wds : List ℕ) → shape (rm_watches kernel ignore w wds) ≡ shape w
  unfolding rm_watches
  shape-rm_watches w [] = refl
  shape-rm_watches w (wd ∷ wds) =
      shape-rm_watches (rm_watch kernel ignore w wd) wds ∙ shape-rm_watch w wd

  shape-report :
      (w : Inotify K) (r : Inotify K × Option Failure)
      → shape r.0 ≡ shape w
      → shape (report kernel ignore r) ≡ shape w
  unfolding report send_error
  shape-report w (v, none) h = h
  shape-report w (v, some e) h = h

  shape-moved_away : (w : Inotify K) (m : Move) → shape (moved_away kernel ignore w m) ≡ shape w
  unfolding moved_away
  shape-moved_away w m = elim (Bool-cases m.is_dir) [
    | inl e ↦ rw e (
        shape-rm_watches (record w { watch_map = (rm_by_path_recursive w.watch_map m.old_name).0 })
          (rm_by_path_recursive w.watch_map m.old_name).1)
    | inr e ↦ rw e refl
  ]

  shape-by_op : (w : Inotify K) (m : Move) (op : Op) → shape (by_op kernel ignore w m op) ≡ shape w
  unfolding by_op send_event
  shape-by_op w m rename = elim (Bool-cases m.is_dir) [ inl e ↦ rw e refl | inr e ↦ rw e refl ]
  shape-by_op w m remove = shape-moved_away w m
  shape-by_op w m index = elim (Bool-cases m.is_dir) [
    | inl e ↦ rw e (shape-report w _ (shape-walk_starting_at w m.new_name))
    | inr e ↦ rw e refl
  ]
  shape-by_op w m walk_start = refl
  shape-by_op w m walk_complete = refl

  shape-with_call :
      (w : Inotify K) (c : Option Move) → shape (with_call kernel ignore w c) ≡ shape w
  unfolding with_call handle_move_event
  shape-with_call w none = refl
  shape-with_call w (some call) = shape-by_op w call call.op

  shape-moved_to :
      (w : Inotify K) (cookie : ℕ) (p : Text) (is_dir : Bool)
      → shape (moved_to kernel ignore w cookie p is_dir) ≡ shape w
  unfolding moved_to
  shape-moved_to w cookie p is_dir =
      shape-with_call (record w { mv_events = add_mv_to w.mv_events cookie p is_dir }) _

  shape-deleted :
      (w : Inotify K) (p : Text) (is_dir : Bool)
      → shape (deleted kernel ignore w p is_dir) ≡ shape w
  unfolding deleted
  shape-deleted w p true = refl
  shape-deleted w p false = refl

  shape-by_mask :
      (w : Inotify K) (p : Text) (is_dir : Bool) (mask cookie : ℕ)
      → shape (by_mask kernel ignore w p is_dir mask cookie) ≡ shape w
  unfolding by_mask
  shape-by_mask w p is_dir mask cookie =
      let is = λ (flag : ℕ). Bool-cases (has_flag mask flag) in
      elim (is in_create) [
        | inl a ↦ rw a (elim (Bool-cases is_dir) [
          | inl d ↦ rw d (shape-report w _ (shape-walk_starting_at w p))
          | inr d ↦ rw d refl
        ])
        | inr a ↦ rw a (elim (is in_ignored) [
          | inl b ↦ rw b refl
          | inr b ↦ rw b (elim (is in_delete) [
            | inl c ↦ rw c (shape-deleted w p is_dir)
            | inr c ↦ rw c (elim (is in_moved_from) [
              | inl d ↦ rw d refl
              | inr d ↦ rw d (elim (is in_moved_to) [
                | inl e ↦ rw e (shape-moved_to w cookie p is_dir)
                | inr e ↦ rw e (elim (Bool-cases (not is_dir && has_flag mask in_close_write)) [
                  | inl f ↦ rw f (unfold send_event in refl)
                  | inr f ↦ rw f refl
                ])
              ])
            ])
          ])
        ])
      ]

  shape-at_path :
      (w : Inotify K) (name : Text) (parent : Option Text) (wd mask cookie : ℕ)
      → shape (at_path kernel ignore w name parent wd mask cookie) ≡ shape w
  unfolding at_path
  shape-at_path w name none wd mask cookie = unfold send_error in refl
  shape-at_path w name (some parent) wd mask cookie =
      elim (Bool-cases (should_ignore ignore (join parent name) (has_flag mask in_isdir))) [
        | inl e ↦ rw e refl
        | inr e ↦ rw e (shape-by_mask w (join parent name) (has_flag mask in_isdir) mask cookie)
      ]

  -- Handling an event leaves all of this as it is.
  pub shape-handle_inotify_event :
      (w : Inotify K) (name : Text) (wd mask cookie : ℕ)
      → shape (handle_inotify_event kernel ignore w name wd mask cookie) ≡ shape w
  unfolding handle_inotify_event
  shape-handle_inotify_event w name wd mask cookie = shape-at_path w name _ wd mask cookie

  -- Nor do the handlers of moves and removals.
  pub shape-handle_move_event :
      (w : Inotify K) (m : Move) → shape (handle_move_event kernel ignore w m) ≡ shape w
  unfolding handle_move_event
  shape-handle_move_event w m = shape-by_op w m m.op
