-- ===== src/Watcher/Inotify/Examples.antt =====
-- The theorems about the watcher's driver at a kernel that watches one directory, which has a film in it.
use godlna.Base.{
  ◌≢◌, ℕ, Text, codes, text_beq, text_beq_iff, has_prefix, [], ◌∷◌, ◌++◌, Option, none, some, true,
  false, if◌then◌else◌, ◌≡◌, ◌≢◌, refl, ◌⊎◌, inl, inr, arith, All, nat_beq, nat_beq_iff, lookup,
  nat_eq, Bool-cases, map,
}
use godlna.Watcher.Event.{rename}
use godlna.Watcher.Tree.{Tree, file, directory, nil, entry, join}
use godlna.Watcher.Roots
use godlna.Watcher.Roots.{new}
use godlna.Watcher.Roots.Apart.{new-is_under}
use godlna.Watcher.WatchMap.{new_watch_map, sample, is_under, path}
use godlna.Watcher.WatchMap
use godlna.Watcher.DelEvents.{new_delete_events}
use godlna.Watcher.MvEvents.{new_mv_events}
use godlna.Watcher.Inotify.{
  open_channel, stopping, stopped, unmade, already_running, no_directory, Kernel, Inotify,
  should_ignore, walk_starting_at, visit, descend, is_failed,
}
use godlna.Watcher.Inotify.Handlers.{handle_inotify_event, in_moved_from, in_moved_to}
use godlna.Watcher.Inotify.Handlers.Moves.{mask_of, handle_moved_pair}
use godlna.Watcher.Inotify.Buffer.{RawEvent, parse_events, encode_all, encode_name}
use godlna.Watcher.Inotify.Buffer.RoundTrip.{firsts, IsWritten, parse_events-encode_all}
use godlna.Watcher.Inotify.Walk.{IsFaithful, visible, event_of}
use godlna.Watcher.Inotify.Walk.Mirror.{IsMirror}
use godlna.Watcher.Inotify.Walk.Covers.{walk_starting_at_exact}
use godlna.Watcher.Inotify.States.{start, not_running, panics, waits, stop}
use godlna.Watcher.Inotify.States.Stops.{stop-read_round, start_no_directory, Ends}
use godlna.Watcher.Inotify.States.Steps.{made, start-Life}
use godlna.Watcher.Inotify.States.Life.{resting, claimed}

unfoldable pub add_one : Option Text → Text → Option Text × Option ℕ
unfolding text_beq
add_one none p = (some p, some 1)
add_one (some q) p = (some q, if text_beq q p then some 1 else none)

abbrev pub movies : Tree
movies = directory (entry (codes "a.mkv") file nil)

abbrev pub kernel_one : Kernel (Option Text)
kernel_one = record {
  inotify_init = λ k. (none, true);
  epoll_create = λ k. (k, true);
  epoll_add = λ k. (k, true);
  epoll_del = λ k. (k, true);
  close_inotify = λ k. (none, true);
  close_epoll = λ k. (k, true);
  add_watch = add_one;
  rm_watch = λ k wd. (none, true);
  tree = λ k p. movies;
}

watches_one : Option Text → ℕ → Option Text
watches_one k wd = if nat_beq wd 1 then k else none

given_one :
    (k k' : Option Text) (p : Text) (wd : ℕ)
    → add_one k p ≡ (k', some wd)
    → (watches_one k' wd ≡ some p)
      × ((v : ℕ) → v ≢ wd → watches_one k' v ≡ watches_one k v)
      × ((watches_one k wd ≡ some p)
          ⊎ ((watches_one k wd ≡ none) × ((v : ℕ) → watches_one k v ≢ some p)))
unfolding add_one watches_one
given_one none k' p wd h =
    let one : wd ≡ 1 = ground (arith, h) in
    let now : k' ≡ some p = ground (arith, h) in
    rw (one, now)
      (refl, λ v n. ground (arith, n, nat_beq_iff v 1), inr (refl, λ v e. ground (arith, e)))
given_one (some q) k' p wd h = elim (Bool-cases (text_beq q p)) [
  | inl e ↦
      let one : wd ≡ 1 = ground (arith, h, e) in
      let now : k' ≡ some q = ground (arith, h, e) in
      rw (one, now)
        (
          ground (arith, text_beq_iff q p, e),
          λ v n. refl,
          inl (ground (arith, text_beq_iff q p, e)),
        )
  | inr e ↦ absurd (ground (arith, h, e))
]

kept_one :
    (k k' : Option Text) (p : Text)
    → add_one k p ≡ (k', none)
    → (v : ℕ) → watches_one k' v ≡ watches_one k v
unfolding add_one watches_one
kept_one none k' p h v = absurd (cc)
kept_one (some q) k' p h v = ground (arith, h)

one-IsFaithful : IsFaithful kernel_one watches_one
one-IsFaithful = record { given = given_one; kept = kept_one }

abbrev pub fresh : Inotify (Option Text)
fresh = record {
  roots = codes "/v" ∷ [];
  state = stopped;
  done = unmade;
  stop_done = unmade;
  reading = false;
  watch_map = new_watch_map;
  del_events = new_delete_events;
  mv_events = new_mv_events;
  kernel = none;
  events = [];
  errors = [];
}

fresh-IsMirror : IsMirror watches_one new_watch_map none
unfolding new_watch_map watches_one lookup
fresh-IsMirror = record {
  consistent = record { distinct = tt; to_path = λ wd p h. cc; to_wd = λ p wd h. cc };
  agrees = λ wd. ground arith;
}

walk_starting_at_exact_example :
    let w' = (walk_starting_at kernel_one none fresh (codes "/v")).0 in
    let seen = visible none (codes "/v") movies in
    (w'.events ≡ [] ++ map event_of seen)
    × IsMirror watches_one w'.watch_map w'.kernel
    × All (λ x. x.1 ≡ true → (wd : ℕ) × (lookup wd w'.watch_map.path_by_wd ≡ some x.0)) seen
walk_starting_at_exact_example =
    walk_starting_at_exact watches_one kernel_one one-IsFaithful none fresh (codes "/v")
      fresh-IsMirror
      (unfold walk_starting_at visit add_one should_ignore descend is_failed join text_beq in refl)

abbrev rootless : Inotify (Option Text)
rootless = record fresh { roots = [] }

start_no_directory_example :
    let w' = record (start kernel_one none rootless).0 { roots = codes "/v" ∷ [] } in
    ((start kernel_one none rootless).1 ≡ some no_directory)
    × (start kernel_one none w' ≡ (w', some already_running))
    × (stop w' ≡ panics)
start_no_directory_example =
    start_no_directory kernel_one none rootless (codes "/v" ∷ []) refl refl refl

-- A watcher whose start runs through.
stop-read_round_example :
    let w = (start kernel_one none fresh).0 in
    (((resting ≡ claimed) × ((stop w ≡ panics) ⊎ (w.done ≡ open_channel)))
      ⊎ (stop w ≡ not_running)
      ⊎ ((w' : Inotify (Option Text)) × (stop w ≡ waits w') × (w'.state ≡ stopping)))
    × ((w.state ≢ stopping) ⊎ Ends kernel_one none resting w)
stop-read_round_example =
    stop-read_round kernel_one none resting (start kernel_one none fresh).0
      (start-Life kernel_one none fresh (codes "/v") [] refl refl (made fresh refl refl))

abbrev films_dir : Inotify (Option Text)
films_dir = record fresh { watch_map = sample }

handle_moved_pair_example :
    let w1 =
      handle_inotify_event kernel_one none films_dir (codes "x") 2 (mask_of in_moved_from true) 7 in
    let w2 = handle_inotify_event kernel_one none w1 (codes "y") 3 (mask_of in_moved_to true) 7 in
    (w2.events
      ≡ []
        ++ record {
          op = rename;
          is_dir = true;
          name = join (codes "/v/a/b") (codes "y");
          renamed_from = join (codes "/v/a") (codes "x");
        }
          ∷ [])
    × (w2.watch_map ≡ (
        if true
        then WatchMap.rename sample
            (join (codes "/v/a") (codes "x"))
            (join (codes "/v/a/b") (codes "y"))
        else sample))
    × (w2.errors ≡ [])
    × (w2.mv_events.waiting
        ≡ record {
          cookie = 7;
          name = join (codes "/v/a") (codes "x");
          is_dir = true;
          done = films_dir.mv_events.next;
          listening = false;
        }
          ∷ films_dir.mv_events.waiting)
    × (w2.mv_events.panicked ≡ films_dir.mv_events.panicked)
handle_moved_pair_example =
    handle_moved_pair kernel_one none films_dir (codes "/v/a") (codes "/v/a/b") (codes "x")
      (codes "y") 2 3 7 true (unfold path lookup in refl) (unfold path lookup in refl)
      (unfold should_ignore in refl) (unfold should_ignore in refl) (unfold new_mv_events in tt)

abbrev raw : RawEvent
raw = record { wd = 1; mask = 256; cookie = 0; name = codes "a.mkv" }

raw-IsWritten : All IsWritten ((raw, 10) ∷ [])
unfolding encode_name
raw-IsWritten = ((omega arith, omega arith, omega arith, omega arith, ground arith), tt)

parse_events-encode_all_example :
    parse_events (encode_all ((raw, 10) ∷ [])) ≡ firsts ((raw, 10) ∷ [])
parse_events-encode_all_example = parse_events-encode_all ((raw, 10) ∷ []) raw-IsWritten

new-is_under_example : codes "/v" ≡ codes "/v"
unfolding new
new-is_under_example =
    new-is_under (Roots.directory (codes "/v") ∷ Roots.directory (codes "/w") ∷ [])
      (codes "/v" ∷ codes "/w" ∷ []) (codes "/v") (codes "/v") (codes "/v/a")
      (unfold text_beq has_prefix in refl) (inl refl) (inl refl)
      (unfold is_under has_prefix text_beq in refl) (unfold is_under has_prefix text_beq in refl)
