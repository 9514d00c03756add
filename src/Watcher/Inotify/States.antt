-- ===== src/Watcher/Inotify/States.antt =====
-- pkg/fswatcher/driver_inotify.go: start, the reader, stop and shutdown. `start` here runs through; where other calls come
-- in between, Steps takes its steps one by one.
pub mod Scan
pub mod Life
pub mod Steps
pub mod Stops
use godlna.Base.{
  ℕ, Text, List, [], ◌∷◌, ◌++◌, Option, none, some, Bool, true, false, not, if◌then◌else◌, length,
  ltb,
}
use godlna.Watcher.Event.{Event, Op, walk_start, walk_complete}
use godlna.Watcher.WatchMap
use godlna.Watcher.DelEvents
use godlna.Watcher.MvEvents
use godlna.Watcher.Inotify.{
  State, stopped, running, stopping, Channel, unmade, open_channel, closed, Failure,
  already_running, no_directory, init_failed, epoll_create_failed, epoll_add_failed,
  epoll_del_failed, close_inotify_failed, close_epoll_failed, wait_failed, read_failed, Kernel,
  Inotify, send_event, send_error, walk_starting_at,
}
use godlna.Watcher.Inotify.Handlers.{handle_inotify_event}
use godlna.Watcher.Inotify.Buffer.{RawEvent, sizeof_inotify_event, parse_events}

-- What epoll_wait and the read give in one round of the reader.
pub data Round : Type 0 where
  interrupted idle retry : Round
  wait_fails read_fails : Round
  bytes : Text → Round

abbrev pub walk_event : Op → Event
walk_event op = record { op = op; is_dir = false; name = []; renamed_from = [] }

module _ {K : Type 0} (kernel : Kernel K) where
  -- Whatever an earlier run left behind is dropped.
  ready : Inotify K → K → Inotify K
  ready w k = record w {
    kernel = k;
    done = open_channel;
    stop_done = open_channel;
    watch_map = WatchMap.reset w.watch_map;
    del_events = DelEvents.reset w.del_events;
    mv_events = MvEvents.reset w.mv_events;
  }

  -- What was opened is closed again when a later call fails.
  unfoldable pub pre_start : Inotify K → Inotify K × Option Failure
  unfolding ready
  pre_start w =
      let (k, inited) = kernel.inotify_init w.kernel in
      let (k', created) = kernel.epoll_create k in
      let (k'', added) = kernel.epoll_add k' in
      if not inited
      then (record w { kernel = k }, some init_failed)
      else if not created
      then (record w { kernel = (kernel.close_inotify k').0 }, some epoll_create_failed)
      else if not added
      then (
        record w { kernel = (kernel.close_inotify (kernel.close_epoll k'').0).0 },
        some epoll_add_failed,
      )
      else (ready w k'', none)

  -- A call whose failure is only reported.
  called : Failure → (K → K × Bool) → Inotify K → Inotify K
  unfolding send_error
  called e call w =
      let (k, fine) = call w.kernel in
      let w' = record w { kernel = k } in if fine then w' else send_error w' e

  unfoldable pub shutdown : Inotify K → Inotify K
  unfolding called
  shutdown w =
      let w1 = called epoll_del_failed kernel.epoll_del w in
      let w2 = called close_inotify_failed kernel.close_inotify w1 in
      let w3 = called close_epoll_failed kernel.close_epoll w2 in
      record w3 {
        del_events = DelEvents.stop w3.del_events;
        mv_events = MvEvents.stop w3.mv_events;
        state = stopped;
        stop_done = closed;
      }

module _ {K : Type 0} (kernel : Kernel K) (ignore : Option (Text → Bool → Bool)) where
  -- The first error ends the loop over the roots.
  unless_error :
      Inotify K × Option Failure → Inotify K × Option Failure → Inotify K × Option Failure
  unless_error (w, none) rest = rest
  unless_error (w, some e) rest = (w, some e)

  unfoldable pub walk_roots : Inotify K → List Text → Inotify K × Option Failure
  unfolding walk_starting_at unless_error
  walk_roots w [] = (w, none)
  walk_roots w (root ∷ roots) =
      let r = walk_starting_at kernel ignore w root in
      let rest = walk_roots r.0 roots in unless_error r rest

  walked : Inotify K × Option Failure → Inotify K × Option Failure
  unfolding shutdown send_event
  walked (w, some e) = (shutdown kernel w, some e)
  walked (w, none) = (send_event (record w { reading = true }) (walk_event walk_complete), none)

  prepared : Inotify K × Option Failure → Inotify K × Option Failure
  unfolding walked walk_roots send_event
  prepared (w, some e) = (record w { state = stopped }, some e)
  prepared (w, none) = walked (walk_roots (send_event w (walk_event walk_start)) w.roots)

  begun : Inotify K → List Text → Inotify K × Option Failure
  unfolding prepared pre_start
  begun w [] = (w, some no_directory)
  begun w (root ∷ roots) = prepared (pre_start kernel w)

  from_state : Inotify K → State → Inotify K × Option Failure
  unfolding begun
  from_state w stopped = begun (record w { state = running }) w.roots
  from_state w running = (w, some already_running)
  from_state w stopping = (w, some already_running)

  unfoldable pub start : Inotify K → Inotify K × Option Failure
  unfolding from_state
  start w = from_state w w.state

  -- A panic ends the loop, and the program.
  unfoldable pub handle_all : Inotify K → List RawEvent → Inotify K
  unfolding handle_inotify_event
  handle_all w [] = w
  handle_all w (e ∷ es) =
      let w' = handle_inotify_event kernel ignore w e.name e.wd e.mask e.cookie in
      let rest = handle_all w' es in if w'.mv_events.panicked then w' else rest

  ended : Inotify K → Inotify K
  unfolding shutdown
  ended w = shutdown kernel (record w { reading = false })

  with_round : Inotify K → Round → Inotify K
  unfolding ended handle_all parse_events send_error
  with_round w interrupted = w
  with_round w idle = w
  with_round w retry = w
  with_round w wait_fails = ended (send_error w wait_failed)
  with_round w read_fails = ended (send_error w read_failed)
  with_round w (bytes buffer) =
      if ltb (length buffer) sizeof_inotify_event then w else handle_all w (parse_events buffer)

  while_open : Inotify K → Channel → Round → Inotify K
  unfolding with_round ended
  while_open w closed r = ended w
  while_open w open_channel r = with_round w r
  while_open w unmade r = with_round w r

  -- One round of readInotifyEvents, which looks at the done channel first.
  unfoldable pub read_round : Inotify K → Round → Inotify K
  unfolding while_open
  read_round w r = while_open w w.done r

-- A stop that finds the watcher running closes the channel, which panics on a channel that was never made or is closed
-- already, and then waits for the reader.
pub data Stop (K : Type 0) : Type 0 where
  not_running : Stop K
  panics : Stop K
  waits : Inotify K → Stop K

module _ {K : Type 0} where
  close_done : Inotify K → Channel → Stop K
  close_done w open_channel = waits (record w { state = stopping; done = closed })
  close_done w unmade = panics
  close_done w closed = panics

  stop_from : Inotify K → State → Stop K
  unfolding close_done
  stop_from w running = close_done w w.done
  stop_from w stopped = not_running
  stop_from w stopping = not_running

  unfoldable pub stop : Inotify K → Stop K
  unfolding stop_from
  stop w = stop_from w w.state
