-- ===== src/Watcher/Inotify/Handlers.antt =====
-- pkg/fswatcher/driver_inotify.go: the handling of one inotify event, of a removal and of a move.
pub mod Steady
pub mod Moves
use godlna.Base.{
  ℕ, suc, ◌+◌, ◌/◌, ◌%◌, Text, codes, text_beq, List, [], ◌∷◌, ◌++◌, Option, none, some, Bool, true,
  false, nat_beq, ◌&&◌, not, if◌then◌else◌, lookup, nat_eq,
}
use godlna.Watcher.Event.{Event, Op, walk_start, walk_complete, index, remove, rename}
use godlna.Watcher.Tree.{Tree, file, broken, sealed, directory, Entries, nil, entry, join}
use godlna.Watcher.WatchMap.{WatchMap, path, rm_by_path, rm_by_path_recursive}
use godlna.Watcher.WatchMap
use godlna.Watcher.DelEvents.{DelEvents, DelItem}
use godlna.Watcher.DelEvents
use godlna.Watcher.MvEvents.{MvEvents, Move, arrival, add_mv_from, add_mv_to}
use godlna.Watcher.Inotify.{
  Inotify, Kernel, Failure, unknown_wd, rm_watch_failed, should_ignore, index_event, send_event,
  send_error, walk_starting_at,
}

unfoldable pub has_flag : ℕ → ℕ → Bool
has_flag mask flag = nat_beq (mask / flag % 2) 1

abbrev pub in_close_write : ℕ
in_close_write = 8

abbrev pub in_moved_from : ℕ
in_moved_from = 64

abbrev pub in_moved_to : ℕ
in_moved_to = 128

abbrev pub in_create : ℕ
in_create = 256

abbrev pub in_delete : ℕ
in_delete = 512

abbrev pub in_ignored : ℕ
in_ignored = 32768

abbrev pub in_isdir : ℕ
in_isdir = 1073741824

module _ {K : Type 0} (kernel : Kernel K) (ignore : Option (Text → Bool → Bool)) where
  -- A descriptor is given back to the kernel, with an error if it refuses.
  rm_watch : Inotify K → ℕ → Inotify K
  unfolding send_error
  rm_watch w wd =
      let (k, fine) = kernel.rm_watch w.kernel wd in
      let w' = record w { kernel = k } in if fine then w' else send_error w' (rm_watch_failed wd)

  rm_watches : Inotify K → List ℕ → Inotify K
  unfolding rm_watch
  rm_watches w [] = w
  rm_watches w (wd ∷ wds) = rm_watches (rm_watch w wd) wds

  report : Inotify K × Option Failure → Inotify K
  report (w, none) = w
  report (w, some e) = send_error w e

  moved_away : Inotify K → Move → Inotify K
  unfolding rm_watches
  moved_away w m =
      let (map, wds) = rm_by_path_recursive w.watch_map m.old_name in
      if m.is_dir then rm_watches (record w { watch_map = map }) wds else w

  by_op : Inotify K → Move → Op → Inotify K
  unfolding moved_away report send_event walk_starting_at
  by_op w m rename =
      send_event
        (if m.is_dir
          then record w { watch_map = WatchMap.rename w.watch_map m.old_name m.new_name }
          else w)
        (record { op = rename; is_dir = m.is_dir; name = m.new_name; renamed_from = m.old_name })
  by_op w m remove =
      send_event (moved_away w m)
        (record { op = remove; is_dir = m.is_dir; name = m.old_name; renamed_from = [] })
  by_op w m index =
      if m.is_dir
      then report (walk_starting_at kernel ignore w m.new_name)
      else send_event w (index_event m.new_name false)
  by_op w m walk_start = w
  by_op w m walk_complete = w

  unfoldable pub handle_move_event : Inotify K → Move → Inotify K
  unfolding by_op
  handle_move_event w m = by_op w m m.op

  unfoldable pub handle_delete_event : Inotify K → DelItem → Inotify K
  handle_delete_event w item =
      send_event w
        (record { op = remove; is_dir = item.is_dir; name = item.path; renamed_from = [] })

  -- The half of a move that arrives calls the handler at once, unless it panics.
  with_call : Inotify K → Option Move → Inotify K
  unfolding handle_move_event
  with_call w none = w
  with_call w (some call) = handle_move_event w call

  unfoldable pub moved_to : Inotify K → ℕ → Text → Bool → Inotify K
  unfolding with_call
  moved_to w cookie p is_dir =
      with_call (record w { mv_events = add_mv_to w.mv_events cookie p is_dir })
        (arrival p is_dir (lookup cookie w.mv_events.mv_from))

  deleted : Inotify K → Text → Bool → Inotify K
  deleted w p is_dir =
      let w' = record w { del_events = DelEvents.add w.del_events p is_dir } in
      if is_dir then record w' { watch_map = rm_by_path w'.watch_map p } else w'

  -- The printing of an IN_IGNORED and the debug output are left out.
  by_mask : Inotify K → Text → Bool → ℕ → ℕ → Inotify K
  unfolding has_flag deleted moved_to report walk_starting_at send_event
  by_mask w p is_dir mask cookie =
      if has_flag mask in_create
      then if is_dir then report (walk_starting_at kernel ignore w p) else w
      else if has_flag mask in_ignored
      then w
      else if has_flag mask in_delete
      then deleted w p is_dir
      else if has_flag mask in_moved_from
      then record w { mv_events = add_mv_from w.mv_events cookie p is_dir }
      else if has_flag mask in_moved_to
      then moved_to w cookie p is_dir
      else if not is_dir && has_flag mask in_close_write
      then send_event w (index_event p is_dir)
      else w

  at_path : Inotify K → Text → Option Text → ℕ → ℕ → ℕ → Inotify K
  unfolding by_mask should_ignore has_flag send_error join
  at_path w name none wd mask cookie = send_error w (unknown_wd wd)
  at_path w name (some parent) wd mask cookie =
      let p = join parent name in
      let is_dir = has_flag mask in_isdir in
      if should_ignore ignore p is_dir then w else by_mask w p is_dir mask cookie

  unfoldable pub handle_inotify_event : Inotify K → Text → ℕ → ℕ → ℕ → Inotify K
  unfolding at_path path
  handle_inotify_event w name wd mask cookie = at_path w name (path w.watch_map wd) wd mask cookie
