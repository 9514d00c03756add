-- ===== src/Watcher/Inotify.antt =====
-- pkg/fswatcher/driver_inotify.go: the driver, over a kernel that is a parameter. The calls of the event handler and of
-- the error handler are recorded in their order; the program sets both handlers before it starts the watcher.
pub mod Handlers
pub mod States
pub mod Buffer
pub mod Walk
pub mod Examples
use godlna.Base.{
  ℕ, suc, ◌+◌, ◌/◌, ◌%◌, Text, codes, text_beq, List, [], ◌∷◌, ◌++◌, Option, none, some, Bool, true,
  false, nat_beq, ◌&&◌, not, if◌then◌else◌, lookup, nat_eq,
}
use godlna.Watcher.Event.{Event, Op, walk_start, walk_complete, index, remove, rename}
use godlna.Watcher.Tree.{Tree, file, broken, sealed, directory, Entries, nil, entry, join}
use godlna.Watcher.WatchMap.{WatchMap, path, rm_by_path, rm_by_path_recursive}
use godlna.Watcher.WatchMap
use godlna.Watcher.DelEvents.{DelEvents, DelItem}
use godlna.Watcher.DelEvents
use godlna.Watcher.MvEvents.{MvEvents, Move, arrival, add_mv_from, add_mv_to}

pub data State : Type 0 where
  stopped running stopping : State

-- A channel that is only ever closed.
pub data Channel : Type 0 where
  unmade open_channel closed : Channel

pub data Failure : Type 0 where
  already_running no_directory : Failure
  init_failed epoll_create_failed epoll_add_failed : Failure
  epoll_del_failed close_inotify_failed close_epoll_failed : Failure
  wait_failed read_failed : Failure
  unreadable : Text → Failure
  watch_failed : Text → Failure
  walk_failed : Text → Failure → Failure
  unknown_wd : ℕ → Failure
  rm_watch_failed : ℕ → Failure

-- The system calls, over a state of the kernel. The result of `rm_watch` is false for an error other than EINVAL, and
-- those of the others for any error.
pub record Kernel (K : Type 0) : Type 0 where
  pub inotify_init : K → K × Bool
  pub epoll_create : K → K × Bool
  pub epoll_add : K → K × Bool
  pub epoll_del : K → K × Bool
  pub close_inotify : K → K × Bool
  pub close_epoll : K → K × Bool
  pub add_watch : K → Text → K × Option ℕ
  pub rm_watch : K → ℕ → K × Bool
  pub tree : K → Text → Tree

-- `reading` tells whether the goroutine of readInotifyEvents runs.
pub record Inotify (K : Type 0) : Type 0 where
  pub roots : List Text
  pub state : State
  pub done : Channel
  pub stop_done : Channel
  pub reading : Bool
  pub watch_map : WatchMap
  pub del_events : DelEvents
  pub mv_events : MvEvents
  pub kernel : K
  pub events : List Event
  pub errors : List Failure

-- How a visit of the walk ends: SkipDir passes over a directory.
pub data Outcome : Type 0 where
  next skip_dir : Outcome
  failed : Failure → Outcome

unfoldable pub is_failed : Outcome → Bool
is_failed next = false
is_failed skip_dir = false
is_failed (failed e) = true

-- A callback that is not set ignores nothing.
unfoldable pub should_ignore : Option (Text → Bool → Bool) → Text → Bool → Bool
should_ignore none p is_dir = false
should_ignore (some ignore_fn) p is_dir = ignore_fn p is_dir

abbrev pub index_event : Text → Bool → Event
index_event p is_dir = record { op = index; is_dir = is_dir; name = p; renamed_from = [] }

module _ {K : Type 0} where
  unfoldable pub send_event : Inotify K → Event → Inotify K
  send_event w e = record w { events = w.events ++ e ∷ [] }

  unfoldable pub send_error : Inotify K → Failure → Inotify K
  send_error w e = record w { errors = w.errors ++ e ∷ [] }

module _ {K : Type 0} (kernel : Kernel K) (ignore : Option (Text → Bool → Bool)) where
  watched : Inotify K → Text → K → Option ℕ → Inotify K × Outcome
  unfolding send_event
  watched w p k none = (record w { kernel = k }, failed (watch_failed p))
  watched w p k (some wd) = (
    send_event (record w { kernel = k; watch_map = WatchMap.add w.watch_map wd p })
        (index_event p true),
    next,
  )

  -- The function that the walk calls for a file or a directory that is there.
  unfoldable pub visit : Inotify K → Text → Bool → Inotify K × Outcome
  unfolding watched should_ignore
  visit w p is_dir =
      if should_ignore ignore p is_dir
      then (w, if is_dir then skip_dir else next)
      else if is_dir
      then (let (k, wd) = kernel.add_watch w.kernel p in watched w p k wd)
      else (send_event w (index_event p is_dir), next)

  -- After the visit of a directory its entries are walked, or not.
  unfoldable pub descend : Inotify K × Outcome → Inotify K × Outcome → Inotify K × Outcome
  descend (w, next) inner = inner
  descend (w, skip_dir) inner = (w, skip_dir)
  descend (w, failed e) inner = (w, failed e)

  unfoldable mutual
    pub walk : Inotify K → Text → Tree → Inotify K × Outcome
    walk w p file = visit w p false
    walk w p broken = (w, failed (unreadable p))
    walk w p sealed = (w, failed (unreadable p))
    walk w p (directory es) =
        let r = visit w p true in let inner = walk_entries r.0 p es in descend r inner

    pub walk_entries : Inotify K → Text → Entries → Inotify K × Outcome
    walk_entries w p nil = (w, next)
    walk_entries w p (entry name t es) =
        let r = walk w (join p name) t in
        let rest = walk_entries r.0 p es in if is_failed r.1 then r else rest

  -- The error of a walk, wrapped; a skipped root is none.
  walk_error : Text → Outcome → Option Failure
  walk_error p next = none
  walk_error p skip_dir = none
  walk_error p (failed e) = some (walk_failed p e)

  unfoldable pub walk_starting_at : Inotify K → Text → Inotify K × Option Failure
  unfolding walk_error walk
  walk_starting_at w p = let (w', o) = walk w p (kernel.tree w.kernel p) in (w', walk_error p o)
