-- ===== src/Watcher/DelEvents/Examples.antt =====
-- The theorems about common_delete_events.go at a run in which a file and then its folder go.
use godlna.Base.{
  codes, text_eq, lookup, insert, erase, dir_name, text_beq, has_prefix, List, [], ◌∷◌, true, false,
  ◌≡◌, refl, inl, All,
}
use godlna.Watcher.WatchMap.{is_under}
use godlna.Watcher.DelEvents.{
  DelItem, DelEvents, Waiting, new_delete_events, add, fire, leave, joined, without_children, Run,
  empty, adds, fires, leaves,
}
use godlna.Watcher.Goroutines.{IsIn}
use godlna.Watcher.DelEvents.NoLoss.{Run-sent}

abbrev file_gone : DelEvents
file_gone = add new_delete_events (codes "/v/a/f") false

abbrev both_gone : DelEvents
both_gone = add file_gone (codes "/v/a") true

abbrev removals : List DelItem
removals =
    record { path = codes "/v/a"; is_dir = true }
    ∷ record { path = codes "/v/a/f"; is_dir = false }
    ∷ []

both-Run : Run removals both_gone
both-Run =
    adds _ file_gone (codes "/v/a") true (unfold is_under text_beq has_prefix dir_name in refl) (
      adds [] new_delete_events (codes "/v/a/f") false
        (unfold is_under text_beq has_prefix dir_name in refl) empty)

abbrev folder_waits : Waiting
folder_waits = record {
  parent = codes "/v";
  items = record { path = codes "/v/a"; is_dir = true } ∷ [];
  done = 1;
  listening = true;
}

abbrev file_waits : Waiting
file_waits = record {
  parent = codes "/v/a";
  items = record { path = codes "/v/a/f"; is_dir = false } ∷ [];
  done = 0;
  listening = false;
}

abbrev sent_all : DelEvents
sent_all = leave (fire both_gone folder_waits (file_waits ∷ [])) []

-- The goroutine of the file finds its channel closed; only the folder is sent.
quiet-Run : Run removals sent_all
unfolding add new_delete_events lookup insert erase is_under text_beq has_prefix dir_name joined
    without_children fire leave
quiet-Run =
    leaves removals (fire both_gone folder_waits (file_waits ∷ [])) file_waits [] (inl (refl, refl))
      refl (fires removals both_gone folder_waits (file_waits ∷ []) (inl (refl, refl)) both-Run)

Run-sent_example :
    All (λ x. (y : DelItem) × (is_under y.path x.path ≡ true) × IsIn y sent_all.sent) removals
Run-sent_example = Run-sent removals sent_all quiet-Run (unfold leave in refl)
