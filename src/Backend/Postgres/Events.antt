-- ===== src/Backend/Postgres/Events.antt =====
-- `onWatcherEvent` of dlna/backend/backend.go over the Postgres driver, event by event.
use godlna.Base.{List, [], ◌∷◌, true, false, ◌≡◌, arith, inl, inr, Bool-cases, Option-cases, ℤ}
use godlna.Backend.Table.{
  Table, index_add, index_rename, all_objects_to_offline, delete_offline_objects,
}
use godlna.Backend.Table.Numbers.{
  IsSound, index_add-IsSound, index_delete-IsSound, index_rename-IsSound, offline-IsSound,
  delete_offline-IsSound,
}
use godlna.Backend.Table.Rescan.{Seen, index_all, rescan}
use godlna.Backend.Table.Query.{Db}
use godlna.Backend.Postgres.{
  postgres, Backend, Event, Op, walk_start, walk_complete, index, remove, rename, on_watcher_event,
  by_op, stored, started,
}

-- Each event with the database as it finds it.
unfoldable pub run_events : List (Db × Event) → Backend Table → Backend Table
run_events [] b = b
run_events ((db, e) ∷ es) b = run_events es (on_watcher_event (postgres db) b e)

by_op-IsSound :
    (db : Db) (b : Backend Table) (e : Event) (op : Op)
    → IsSound b.store
    → IsSound (by_op (postgres db) b e op).store
unfolding by_op stored started postgres
by_op-IsSound db b e walk_start s = ground (arith, offline-IsSound b.store s)
by_op-IsSound db b e walk_complete s = ground (arith, delete_offline-IsSound b.store s)
by_op-IsSound db b e index s = ground (arith, index_add-IsSound db.now b.store e.is_dir e.name s)
by_op-IsSound db b e remove s = ground (arith, index_delete-IsSound b.store e.is_dir e.name s)
by_op-IsSound db b e rename s = elim (Bool-cases db.up) [
  | inl u ↦ elim (Option-cases (index_rename b.store e.is_dir e.renamed_from e.name)) [
    | inl f ↦ ground (arith, u, f, s)
    | inr (t, f) ↦
        ground (arith, u, f, index_rename-IsSound b.store t e.is_dir e.renamed_from e.name s f)
  ]
  | inr u ↦ ground (arith, u, s)
]

-- Whatever events arrive, in whatever order, and whichever of them the database does not answer: no two rows ever
-- have one path, and every number is one that the sequence has given.
pub run_events-IsSound :
    (es : List (Db × Event)) (b : Backend Table) → IsSound b.store → IsSound (run_events es b).store
unfolding run_events on_watcher_event
run_events-IsSound [] b s = s
run_events-IsSound ((db, e) ∷ es) b s =
    run_events-IsSound es (on_watcher_event (postgres db) b e) (by_op-IsSound db b e e.op s)

-- The events of a full walk, each handled at its time by a database that answers.
abbrev pub walk_events : (ℤ → Db) → ℤ → List Seen → List (Db × Event)
walk_events db end [] =
    (db end, record { op = walk_complete; is_dir = false; name = []; renamed_from = [] }) ∷ []
walk_events db end (s ∷ ss) =
    (db s.at, record { op = index; is_dir = s.is_dir; name = s.name; renamed_from = [] })
    ∷ walk_events db end ss

abbrev pub full_walk : (ℤ → Db) → ℤ → ℤ → List Seen → List (Db × Event)
full_walk db begin end ss =
    (db begin, record { op = walk_start; is_dir = false; name = []; renamed_from = [] })
    ∷ walk_events db end ss

walk_events-rescan :
    (db : ℤ → Db) (end : ℤ) (ss : List Seen) (b : Backend Table)
    → ((t : ℤ) → ((db t).up ≡ true) × ((db t).now ≡ t))
    → let after = run_events (walk_events db end ss) b in
      (after.store ≡ delete_offline_objects (index_all b.store ss)) × (after.reindexing ≡ true)
unfolding run_events on_watcher_event by_op stored started postgres index_all
walk_events-rescan db end [] b up = ground (arith, up end)
walk_events-rescan db end (s ∷ ss) b up =
    rw ((up s.at).0, (up s.at).1)
      (walk_events-rescan db end ss
        (record b { store = index_add s.at b.store s.is_dir s.name; dirty_flag = true }) up)

-- The events of a full walk, handled one by one by a database that answers, do to the table what the specification
-- of a full scan says, and leave an indexer running.
pub full_walk-rescan :
    (db : ℤ → Db) (begin end : ℤ) (ss : List Seen) (b : Backend Table)
    → ((t : ℤ) → ((db t).up ≡ true) × ((db t).now ≡ t))
    → let after = run_events (full_walk db begin end ss) b in
      (after.store ≡ rescan b.store ss) × (after.reindexing ≡ true)
unfolding run_events on_watcher_event by_op stored started postgres rescan
full_walk-rescan db begin end ss b up =
    rw ((up begin).0)
      (walk_events-rescan db end ss (record b { store = all_objects_to_offline b.store }) up)
