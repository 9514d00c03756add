-- ===== src/Watcher/Inotify/States/Stops.antt =====
-- pkg/fswatcher/driver_inotify.go: a stop comes to an end, and where it does not.
use godlna.Base.{
  Text, List, [], Option, some, ◌≢◌, Bool, true, false, ◌≡◌, refl, sym, ap, ◌⊎◌, inl, inr,
}
use godlna.Watcher.Event.{walk_complete}
use godlna.Watcher.DelEvents.{DelItem}
use godlna.Watcher.Inotify.{
  stopped, stopping, unmade, open_channel, closed, walk_starting_at, already_running, no_directory,
  Kernel, Inotify, send_event,
}
use godlna.Watcher.Inotify.Handlers.{handle_move_event, handle_delete_event}
use godlna.Watcher.Inotify.Handlers.Steady.{shape, shape-handle_move_event, shape-walk_starting_at}
use godlna.Watcher.Inotify.States.{
  walk_event, shutdown, begun, from_state, start, Round, ended, while_open, read_round, not_running,
  panics, waits, close_done, stop_from, stop,
}
use godlna.Watcher.Inotify.States.Life.{
  Phase, resting, claimed, walking, IsOrderly, IsOrderly-of_shape, refused-IsOrderly,
  prepared-IsOrderly, completed-IsOrderly, stop-cases, read_round-IsOrderly, shutdown-stopped,
  shutdown-IsOrderly,
}
use godlna.Watcher.Inotify.States.Steps.{
  Life, made, adds, claims, refuses, prepares, walks, breaks, completes, stops, reads, moves,
  deletes,
}

module _ {K : Type 0} (kernel : Kernel K) (ignore : Option (Text → Bool → Bool)) where
  shape-handle_delete_event :
      (w : Inotify K) (i : DelItem) → shape (handle_delete_event kernel ignore w i) ≡ shape w
  unfolding handle_delete_event send_event
  shape-handle_delete_event w i = refl

  adds-IsOrderly :
      (p : Phase) (w : Inotify K) (roots : List Text)
      → IsOrderly p w
      → IsOrderly p (record w { roots = roots })
  adds-IsOrderly resting w roots o = o
  adds-IsOrderly claimed w roots o = o
  adds-IsOrderly walking w roots o = o

  resting_reader : (w : Inotify K) → IsOrderly resting w → w.state ≡ stopped → w.reading ≡ false
  resting_reader w (inl (s, d)) e = d
  resting_reader w (inr (inl (s, o, p, d))) e = absurd (cc)
  resting_reader w (inr (inr (s, o, p, d))) e = absurd (cc)

  Life-IsOrderly : {p : Phase} {w : Inotify K} → Life kernel ignore p w → IsOrderly p w
  Life-IsOrderly (made w s r) = inl (s, r)
  Life-IsOrderly (adds p w roots l) = adds-IsOrderly p w roots (Life-IsOrderly l)
  Life-IsOrderly (claims w root roots e s l) = (refl, resting_reader w (Life-IsOrderly l) s)
  Life-IsOrderly (refuses w e f l) = refused-IsOrderly kernel ignore w e f (Life-IsOrderly l)
  Life-IsOrderly (prepares w f l) = prepared-IsOrderly kernel ignore w f (Life-IsOrderly l)
  Life-IsOrderly (walks w root l) =
      IsOrderly-of_shape kernel ignore walking w (walk_starting_at kernel ignore w root).0
        (shape-walk_starting_at kernel ignore w root) (Life-IsOrderly l)
  Life-IsOrderly (breaks w l) = shutdown-IsOrderly kernel ignore w (Life-IsOrderly l).2
  Life-IsOrderly (completes w l) = completed-IsOrderly kernel ignore w (Life-IsOrderly l)
  Life-IsOrderly (stops p w w' n e l) = elim (stop-cases kernel ignore p w (Life-IsOrderly l)) [
    | inl (c, x) ↦ absurd (n c)
    | inr (inl x) ↦ absurd (cc)
    | inr (inr (v, f, s, o)) ↦
        let same : v ≡ w' = cc in IsOrderly-of_shape kernel ignore p v w' (ap shape (sym same)) o
  ]
  Life-IsOrderly (reads w r e l) = read_round-IsOrderly kernel ignore w r (Life-IsOrderly l)
  Life-IsOrderly (moves p w m l) =
      IsOrderly-of_shape kernel ignore p w (handle_move_event kernel ignore w m)
        (shape-handle_move_event kernel ignore w m) (Life-IsOrderly l)
  Life-IsOrderly (deletes p w i l) =
      IsOrderly-of_shape kernel ignore p w (handle_delete_event kernel ignore w i)
        (shape-handle_delete_event w i) (Life-IsOrderly l)

  -- The waiting of a stop is over, and the watcher is stopped.
  abbrev pub IsOver : Inotify K → Type 0
  IsOver w = (w.state ≡ stopped) × (w.stop_done ≡ closed)

  -- What ends the waiting: without a start, the next round of the reader; during a start, the end of the walk and then
  -- the first round of the reader, or the shutdown after a walk that fails.
  abbrev pub Ends : Phase → Inotify K → Type 0
  Ends resting w = (w.reading ≡ true) × ((r : Round) → IsOver (read_round kernel ignore w r))
  Ends claimed w = ⊥
  Ends walking w =
      IsOver (shutdown kernel w)
      × ((r : Round)
          → IsOver (
              read_round kernel ignore
                (send_event (record w { reading = true }) (walk_event walk_complete)) r))

  ended-IsOver : (w : Inotify K) → IsOver (ended kernel ignore w)
  unfolding ended
  ended-IsOver w = let (a, b, c) = shutdown-stopped kernel (record w { reading = false }) in (a, b)

  closed-IsOver :
      (w : Inotify K) (r : Round) → w.done ≡ closed → IsOver (read_round kernel ignore w r)
  unfolding read_round
  closed-IsOver w r d = rw (d, while_open) (ended-IsOver w)

  orderly-Ends : (p : Phase) (w : Inotify K) → IsOrderly p w → (w.state ≢ stopping) ⊎ Ends p w
  orderly-Ends resting w (inl (s, d)) = inl (λ e. cc)
  orderly-Ends resting w (inr (inl (s, o, p, d))) = inl (λ e. cc)
  orderly-Ends resting w (inr (inr (s, d, p, t))) = inr (t, λ r. closed-IsOver w r d)
  orderly-Ends claimed w (s, d) = inl (λ e. cc)
  orderly-Ends walking w (inl (s, o), p, d) = inl (λ e. cc)
  orderly-Ends walking w (inr (s, o), p, d) =
      let (a, b, c) = shutdown-stopped kernel w in
      inr (
        (a, b),
        λ r.
            unfold send_event in
            closed-IsOver (send_event (record w { reading = true }) (walk_event walk_complete)) r o,
      )

  -- In the life of a watcher that is never started without a root, with each start taken step by step and other calls
  -- in between: a call of stop finds the watcher not running, or waits, and does not panic, except while a start has
  -- taken the state and not made the channels; there it panics, unless the channel of an earlier run is still open, and
  -- the life goes on only without it. And wherever a stop is waiting, it comes to its end: outside a start by the next
  -- round of the reader, whatever that reads, and during a start by the first round after the walk, or by the shutdown
  -- when a walk fails; then the watcher is stopped.
  pub stop-read_round :
      (p : Phase) (w : Inotify K)
      → Life kernel ignore p w
      → (((p ≡ claimed) × ((stop w ≡ panics) ⊎ (w.done ≡ open_channel)))
          ⊎ (stop w ≡ not_running)
          ⊎ ((w' : Inotify K) × (stop w ≡ waits w') × (w'.state ≡ stopping)))
        × ((w.state ≢ stopping) ⊎ Ends p w)
  stop-read_round p w l =
      let o = Life-IsOrderly l in
      (
        elim (stop-cases kernel ignore p w o) [
          | inl c ↦ inl c
          | inr (inl n) ↦ inr (inl n)
          | inr (inr (w', e, s, q)) ↦ inr (inr (w', e, s))
        ],
        orderly-Ends p w o,
      )

  -- A start without a root is an error, but leaves a stopped watcher running: from then on every start is refused,
  -- whatever roots are added, and stop panics if the watcher was never started before.
  pub start_no_directory :
      (w : Inotify K) (roots : List Text)
      → w.state ≡ stopped
      → w.roots ≡ []
      → w.done ≡ unmade
      → let w' = record (start kernel ignore w).0 { roots = roots } in
        ((start kernel ignore w).1 ≡ some no_directory)
        × (start kernel ignore w' ≡ (w', some already_running))
        × (stop w' ≡ panics)
  unfolding start from_state begun stop stop_from close_done
  start_no_directory w roots s e d = rw (s, e, d) (refl, refl, refl)
