-- ===== src/Watcher/MvEvents/Examples.antt =====
-- The theorems about driver_inotify_move_events.go at a file that is renamed and one that leaves.
use godlna.Base.{codes, nat_eq, lookup, insert, [], ◌∷◌, Bool, false, refl, inl, All}
use godlna.Watcher.Goroutines.{IsIn}
use godlna.Watcher.MvEvents.{
  MvEvents, Move, Waiting, new_mv_events, add_mv_from, add_mv_to, arrival, answered, closing, close,
  joined, Run, empty, departs, arrives, joins,
}
use godlna.Watcher.MvEvents.NoLoss.{Tells, Run-told}

abbrev left : MvEvents
left = add_mv_from new_mv_events 7 (codes "/v/a") false

abbrev renamed_file : MvEvents
renamed_file = add_mv_to left 7 (codes "/v/b") false

abbrev waits : Bool → Waiting
waits b = record { cookie = 7; name = codes "/v/a"; is_dir = false; done = 0; listening = b }

abbrev settled : MvEvents
settled = joined renamed_file (waits false) []

left-Run : Run (codes "/v/a" ∷ []) left
unfolding new_mv_events
left-Run = departs [] new_mv_events 7 (codes "/v/a") false refl empty

settled-Run : Run (codes "/v/a" ∷ []) settled
unfolding add_mv_to add_mv_from new_mv_events lookup insert arrival answered closing close
settled-Run =
    joins (codes "/v/a" ∷ []) renamed_file (waits false) [] (inl (refl, refl)) refl refl
      (arrives (codes "/v/a" ∷ []) left 7 (codes "/v/b") false refl left-Run)

Run-told_example : All (λ x. (m : Move) × IsIn m settled.sent × Tells x m) (codes "/v/a" ∷ [])
Run-told_example = Run-told (codes "/v/a" ∷ []) settled settled-Run (unfold joined in refl)
