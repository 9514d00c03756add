-- ===== src/Server/Examples.antt =====
-- The theorem about the parts together at one film in one directory.
use godlna.Base.{codes, text_beq, List, [], ◌∷◌, none, true, false, ◌≡◌, refl, map, pos}
use godlna.Watcher.Inotify.{walk_starting_at, visit, should_ignore, descend, is_failed}
use godlna.Watcher.Tree.{join}
use godlna.Watcher.Inotify.Examples.{kernel_one, add_one, fresh, movies}
use godlna.Watcher.Inotify.Walk.{visible}
use godlna.Watcher.Inotify.States.{start, pre_start, walk_roots}
use godlna.Watcher.Inotify.States.Scan.{visible_roots}
use godlna.Backend.Table.{Table}
use godlna.Backend.Table.Rescan.{Seen, rescan}
use godlna.Backend.Postgres.{Backend}
use godlna.Backend.Postgres.Events.{run_events, full_walk}
use godlna.Backend.Examples.{db_at, library}
use godlna.Server.Scan.{start-rescan}

abbrev seen : List Seen
seen =
    record { at = pos 8; is_dir = true; name = codes "/v" }
    ∷ record { at = pos 9; is_dir = false; name = codes "/v/a.mkv" }
    ∷ []

abbrev idle : Backend Table
idle = record { store = library; dirty_flag = false; reindexing = false }

start-rescan_example :
    let handled = full_walk db_at (pos 7) (pos 9) seen in
    let after = run_events handled idle in
    (map (λ x. x.1) handled ≡ (start kernel_one none fresh).0.events)
    × (after.store ≡ rescan library seen)
    × (after.reindexing ≡ true)
start-rescan_example =
    start-rescan kernel_one none (λ p. movies) fresh db_at (pos 7) (pos 9) seen idle (λ k p. refl)
      refl
      (unfold start pre_start walk_roots walk_starting_at visit add_one should_ignore descend
          is_failed join text_beq in
        refl)
      (unfold visible_roots visible should_ignore join text_beq in refl) (λ t. (refl, refl))
