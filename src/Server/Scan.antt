-- ===== src/Server/Scan.antt =====
-- The watcher of pkg/fswatcher and the backend of dlna/backend: a start brings the table up to date.
use godlna.Base.{
  Text, List, [], ◌∷◌, ◌++◌, Option, none, Bool, true, ◌≡◌, refl, sym, ap, ◌∙◌, map, ℤ,
}
use godlna.Watcher.Event.{walk_start, walk_complete}
use godlna.Watcher.Tree.{Tree}
use godlna.Watcher.Inotify.{Kernel, Inotify}
use godlna.Watcher.Inotify.Walk.{event_of}
use godlna.Watcher.Inotify.States.{start, walk_event}
use godlna.Watcher.Inotify.States.Scan.{visible_roots, start-events}
use godlna.Backend.Table.{Table}
use godlna.Backend.Table.Rescan.{Seen, rescan}
use godlna.Backend.Table.Query.{Db}
use godlna.Backend.Postgres.{Backend}
use godlna.Backend.Postgres.Events.{run_events, full_walk, walk_events, full_walk-rescan}

-- What an index event tells, with the time at which it is handled left out.
abbrev pub told : Seen → Text × Bool
told s = (s.name, s.is_dir)

walk_events-second :
    (db : ℤ → Db) (end : ℤ) (ss : List Seen)
    → map (λ x. x.1) (walk_events db end ss)
      ≡ map event_of (map told ss) ++ walk_event walk_complete ∷ []
walk_events-second db end [] = refl
walk_events-second db end (s ∷ ss) = ap (◌∷◌ (event_of (told s))) (walk_events-second db end ss)

-- A successful start of a watcher that has sent nothing yet, on file systems that stand still, followed by the backend
-- handling what it sent, each event at some time on a database that answers: the handled events are the events of the
-- start, the table becomes what a full scan of the visible files and directories makes of it, and an indexer runs.
pub start-rescan :
    {K : Type 0} (kernel : Kernel K) (ignore : Option (Text → Bool → Bool)) (trees : Text → Tree)
    (w : Inotify K) (db : ℤ → Db) (begin end : ℤ) (ss : List Seen) (b : Backend Table)
    → ((k : K) (p : Text) → kernel.tree k p ≡ trees p)
    → w.events ≡ []
    → (start kernel ignore w).1 ≡ none
    → map told ss ≡ visible_roots ignore trees w.roots
    → ((t : ℤ) → ((db t).up ≡ true) × ((db t).now ≡ t))
    → let handled = full_walk db begin end ss in
      let after = run_events handled b in
      (map (λ x. x.1) handled ≡ (start kernel ignore w).0.events)
      × (after.store ≡ rescan b.store ss)
      × (after.reindexing ≡ true)
start-rescan kernel ignore trees w db begin end ss b still e h t up = (
  ap (◌∷◌ (walk_event walk_start)) (
        walk_events-second db end ss
        ∙ ap (λ xs. map event_of xs ++ walk_event walk_complete ∷ []) t)
      ∙ sym (start-events kernel ignore trees still w e h),
  (full_walk-rescan db begin end ss b up).0,
  (full_walk-rescan db begin end ss b up).1,
)
