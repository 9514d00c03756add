-- ===== src/Watcher/Inotify/Handlers/Moves.antt =====
-- pkg/fswatcher/driver_inotify.go: a move within the watched directories.
use godlna.Base.{
  ℕ, ◌+◌, ◌<◌, ◌∙◌, Text, All, nat_beq, List, [], ◌∷◌, ◌++◌, Option, some, Bool, true, false,
  if◌then◌else◌, ◌≡◌, refl, arith, lookup, nat_eq, nat_beq_iff, lookup-insert,
}
use godlna.Watcher.Event.{rename}
use godlna.Watcher.Tree.{join}
use godlna.Watcher.WatchMap.{path}
use godlna.Watcher.WatchMap
use godlna.Watcher.MvEvents.{
  MvFromEvent, MvEvents, Waiting, add_mv_from, add_mv_to, arrival, answered, closing, close,
}
use godlna.Watcher.Inotify.{Kernel, Inotify, should_ignore, send_event}
use godlna.Watcher.Inotify.Handlers.{
  has_flag, in_moved_from, in_moved_to, in_isdir, by_op, handle_move_event, with_call, moved_to,
  by_mask, at_path, handle_inotify_event,
}

-- The mask of an event with one flag.
abbrev pub mask_of : ℕ → Bool → ℕ
mask_of flag is_dir = if is_dir then in_isdir + flag else flag

module _ {K : Type 0} (kernel : Kernel K) (ignore : Option (Text → Bool → Bool)) where
  handle_moved_from :
      (w : Inotify K) (dir name : Text) (wd cookie : ℕ) (is_dir : Bool)
      → path w.watch_map wd ≡ some dir
      → should_ignore ignore (join dir name) is_dir ≡ false
      → handle_inotify_event kernel ignore w name wd (mask_of in_moved_from is_dir) cookie
        ≡ record w { mv_events = add_mv_from w.mv_events cookie (join dir name) is_dir }
  unfolding handle_inotify_event at_path by_mask has_flag
  handle_moved_from w dir name wd cookie true e i = rw (e, i) refl
  handle_moved_from w dir name wd cookie false e i = rw (e, i) refl

  handle_moved_to :
      (w : Inotify K) (dir name : Text) (wd cookie : ℕ) (is_dir : Bool)
      → path w.watch_map wd ≡ some dir
      → should_ignore ignore (join dir name) is_dir ≡ false
      → handle_inotify_event kernel ignore w name wd (mask_of in_moved_to is_dir) cookie
        ≡ moved_to kernel ignore w cookie (join dir name) is_dir
  unfolding handle_inotify_event at_path by_mask has_flag
  handle_moved_to w dir name wd cookie true e i = rw (e, i) refl
  handle_moved_to w dir name wd cookie false e i = rw (e, i) refl

  -- The second half, while the first is waiting.
  moved_to-waiting :
      (w : Inotify K) (cookie : ℕ) (p : Text) (is_dir : Bool) (e : MvFromEvent)
      → lookup cookie w.mv_events.mv_from ≡ some e
      → e.is_closed ≡ false
      → let w' = moved_to kernel ignore w cookie p is_dir in
        (w'.events
          ≡ w.events
            ++ record { op = rename; is_dir = is_dir; name = p; renamed_from = e.name } ∷ [])
        × (w'.watch_map ≡ (if is_dir then WatchMap.rename w.watch_map e.name p else w.watch_map))
        × (w'.errors ≡ w.errors)
        × (w'.mv_events.waiting ≡ close e.done w.mv_events.waiting)
        × (w'.mv_events.panicked ≡ w.mv_events.panicked)
  unfolding moved_to with_call handle_move_event add_mv_to
  moved_to-waiting w cookie p true e h c =
      rw (h, arrival, c)
        (unfold by_op send_event answered closing in (refl, refl, refl, refl, refl))
  moved_to-waiting w cookie p false e h c =
      rw (h, arrival, c)
        (unfold by_op send_event answered closing in (refl, refl, refl, refl, refl))

  -- A channel that no goroutine waits on.
  close-fresh : (n : ℕ) (gs : List Waiting) → All (λ g. g.done < n) gs → close n gs ≡ gs
  unfolding close
  close-fresh n [] a = refl
  close-fresh n (g ∷ gs) (h, a) =
      let e : nat_beq g.done n ≡ false = ground (arith, h) in rw (e, close-fresh n gs a) refl

  -- The two events of a move between watched directories, neither name being ignored, with one cookie and nothing in
  -- between, in a state where no goroutine waits on a channel that is not made yet: together they send the one event
  -- of the renaming, rename the directory in the watch map, if it is one, report no error and do not panic. The
  -- goroutine of the first half is left with its channel closed, and the others as they were.
  pub handle_moved_pair :
      (w : Inotify K) (dir dir' name name' : Text) (wd wd' cookie : ℕ) (is_dir : Bool)
      → path w.watch_map wd ≡ some dir
      → path w.watch_map wd' ≡ some dir'
      → should_ignore ignore (join dir name) is_dir ≡ false
      → should_ignore ignore (join dir' name') is_dir ≡ false
      → All (λ g. g.done < w.mv_events.next) w.mv_events.waiting
      → let w1 =
          handle_inotify_event kernel ignore w name wd (mask_of in_moved_from is_dir) cookie in
        let w2 =
          handle_inotify_event kernel ignore w1 name' wd' (mask_of in_moved_to is_dir) cookie in
        (w2.events
          ≡ w.events
            ++ record {
              op = rename;
              is_dir = is_dir;
              name = join dir' name';
              renamed_from = join dir name;
            }
              ∷ [])
        × (w2.watch_map ≡ (
            if is_dir
            then WatchMap.rename w.watch_map (join dir name) (join dir' name')
            else w.watch_map))
        × (w2.errors ≡ w.errors)
        × (w2.mv_events.waiting
            ≡ record {
              cookie = cookie;
              name = join dir name;
              is_dir = is_dir;
              done = w.mv_events.next;
              listening = false;
            }
              ∷ w.mv_events.waiting)
        × (w2.mv_events.panicked ≡ w.mv_events.panicked)
  handle_moved_pair w dir dir' name name' wd wd' cookie is_dir e f i j fresh =
      let w1 = record w { mv_events = add_mv_from w.mv_events cookie (join dir name) is_dir } in
      let event : MvFromEvent = record {
        name = join dir name;
        is_dir = is_dir;
        done = w.mv_events.next;
        is_closed = false;
      } in
      let (a, b, c, d, g) =
        moved_to-waiting w1 cookie (join dir' name') is_dir event
          (unfold add_mv_from in
            ground (
              arith,
              lookup-insert cookie cookie event w.mv_events.mv_from,
              nat_beq_iff cookie cookie,
            ))
          refl in
      rw
        (
          handle_moved_from w dir name wd cookie is_dir e i,
          handle_moved_to w1 dir' name' wd' cookie is_dir f j,
        )
        (
          a,
          b,
          c,
          d ∙ closed_first w.mv_events cookie (join dir name) is_dir fresh,
          g ∙ unfold add_mv_from in refl,
        )
    where
      closed_first :
          (s : MvEvents) (cookie : ℕ) (p : Text) (is_dir : Bool)
          → All (λ g. g.done < s.next) s.waiting
          → close s.next (add_mv_from s cookie p is_dir).waiting
            ≡ record {
              cookie = cookie;
              name = p;
              is_dir = is_dir;
              done = s.next;
              listening = false;
            }
              ∷ s.waiting
      closed_first s cookie p is_dir fresh =
          unfold add_mv_from close in
          rw ((nat_beq_iff s.next s.next).1 refl, close-fresh s.next s.waiting fresh) refl
