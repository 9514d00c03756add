-- ===== src/Watcher/Inotify/States/Life.antt =====
-- pkg/fswatcher/driver_inotify.go: the life of a watcher, from its start to its stop.
use godlna.Watcher.Inotify.Handlers.Steady.{shape, shape-handle_inotify_event}
use godlna.Watcher.Inotify.Buffer.{RawEvent, sizeof_inotify_event, parse_events}
use godlna.Watcher.Inotify.Handlers.{handle_inotify_event}
use godlna.Base.{
  ltb, length, Bool, Bool-cases, ◌∙◌, Text, List, [], ◌∷◌, Option, none, some, true, false, ◌≡◌,
  refl, ap, ◌⊎◌, inl, inr, arith,
}
use godlna.Watcher.Event.{walk_start, walk_complete}
use godlna.Watcher.Inotify.{
  stopped, running, stopping, Channel, unmade, open_channel, closed, Failure, wait_failed,
  read_failed, epoll_del_failed, close_inotify_failed, close_epoll_failed, Kernel, Inotify,
  send_event, send_error,
}
use godlna.Watcher.Inotify.States.{
  walk_event, pre_start, ready, called, shutdown, Round, interrupted, idle, retry, wait_fails,
  read_fails, bytes, handle_all, ended, with_round, while_open, read_round, not_running, panics,
  waits, close_done, stop_from, stop,
}

-- Where a call of start is: there is none, it has taken the state but not made the channels, or it walks.
pub data Phase : Type 0 where
  resting claimed walking : Phase

module _ {K : Type 0} where
  -- Without a start, a stopped watcher has no reader; a running one has open channels and a reader, and a stopping one a
  -- reader that finds the channel closed. During a start there is no reader yet.
  abbrev pub IsOrderly : Phase → Inotify K → Type 0
  IsOrderly claimed w = (w.state ≡ running) × (w.reading ≡ false)
  IsOrderly walking w =
      (((w.state ≡ running) × (w.done ≡ open_channel)) ⊎ ((w.state ≡ stopping) × (w.done ≡ closed)))
      × (w.stop_done ≡ open_channel)
      × (w.reading ≡ false)
  IsOrderly resting w =
      ((w.state ≡ stopped) × (w.reading ≡ false))
      ⊎ ((w.state ≡ running)
          × (w.done ≡ open_channel)
          × (w.stop_done ≡ open_channel)
          × (w.reading ≡ true))
      ⊎ ((w.state ≡ stopping)
          × (w.done ≡ closed)
          × (w.stop_done ≡ open_channel)
          × (w.reading ≡ true))

module _ {K : Type 0} (kernel : Kernel K) where
  shape-called :
      (e : Failure) (call : K → K × Bool) (w : Inotify K) → shape (called kernel e call w) ≡ shape w
  unfolding called send_error
  shape-called e call w = elim (Bool-cases (call w.kernel).1) [
    | inl f ↦ rw f refl
    | inr f ↦ rw f refl
  ]

  pub shutdown-stopped :
      (w : Inotify K)
      → ((shutdown kernel w).state ≡ stopped)
        × ((shutdown kernel w).stop_done ≡ closed)
        × ((shutdown kernel w).reading ≡ w.reading)
  unfolding shutdown
  shutdown-stopped w =
      let w1 = called kernel epoll_del_failed kernel.epoll_del w in
      let w2 = called kernel close_inotify_failed kernel.close_inotify w1 in
      (
        refl,
        refl,
        ap (λ x. x.4)
            (shape-called close_epoll_failed kernel.close_epoll w2
              ∙ shape-called close_inotify_failed kernel.close_inotify w1
              ∙ shape-called epoll_del_failed kernel.epoll_del w),
      )

  -- Either an error and the state as it was, or the channels are made.
  pre_start-cases :
      (w : Inotify K)
      → ((e : Failure) × ((pre_start kernel w).1 ≡ some e)
          × (shape (pre_start kernel w).0 ≡ shape w))
        ⊎ (((pre_start kernel w).1 ≡ none)
            × (shape (pre_start kernel w).0
                ≡ (w.roots, w.state, open_channel, open_channel, w.reading)))
  unfolding pre_start ready
  pre_start-cases w =
      let (k, inited) = kernel.inotify_init w.kernel in
      let (k', created) = kernel.epoll_create k in
      let (k'', added) = kernel.epoll_add k' in
      elim (Bool-cases inited) [
        | inr a ↦ rw a (inl (_, refl, refl))
        | inl a ↦ elim (Bool-cases created) [
          | inr b ↦ rw (a, b) (inl (_, refl, refl))
          | inl b ↦ elim (Bool-cases added) [
            | inr c ↦ rw (a, b, c) (inl (_, refl, refl))
            | inl c ↦ rw (a, b, c) (inr (refl, refl))
          ]
        ]
      ]

module _ {K : Type 0} (kernel : Kernel K) (ignore : Option (Text → Bool → Bool)) where
  pub IsOrderly-of_shape :
      (p : Phase) (w w' : Inotify K) → shape w' ≡ shape w → IsOrderly p w → IsOrderly p w'
  IsOrderly-of_shape resting w w' h o =
      let b = ap (λ x. x.1) h in
      let c = ap (λ x. x.2) h in
      let d = ap (λ x. x.3) h in let e = ap (λ x. x.4) h in ground (arith, b, c, d, e, o)
  IsOrderly-of_shape claimed w w' h o =
      let b = ap (λ x. x.1) h in let e = ap (λ x. x.4) h in ground (arith, b, e, o)
  IsOrderly-of_shape walking w w' h o =
      let b = ap (λ x. x.1) h in
      let c = ap (λ x. x.2) h in
      let d = ap (λ x. x.3) h in let e = ap (λ x. x.4) h in ground (arith, b, c, d, e, o)

  pub shutdown-IsOrderly :
      (w : Inotify K) → w.reading ≡ false → IsOrderly resting (shutdown kernel w)
  shutdown-IsOrderly w h = let (a, b, c) = shutdown-stopped kernel w in inl (a, c ∙ h)

  -- The two ends of preStart.
  pub refused-IsOrderly :
      (w : Inotify K) (e : Failure)
      → (pre_start kernel w).1 ≡ some e
      → IsOrderly claimed w
      → IsOrderly resting (record (pre_start kernel w).0 { state = stopped })
  refused-IsOrderly w e f (s, d) = elim (pre_start-cases kernel w) [
    | inl (x, g, h) ↦ inl (refl, ap (λ y. y.4) h ∙ d)
    | inr (g, h) ↦ absurd (cc)
  ]

  pub prepared-IsOrderly :
      (w : Inotify K)
      → (pre_start kernel w).1 ≡ none
      → IsOrderly claimed w
      → IsOrderly walking (send_event (pre_start kernel w).0 (walk_event walk_start))
  unfolding send_event
  prepared-IsOrderly w f (s, d) = elim (pre_start-cases kernel w) [
    | inl (x, g, h) ↦ absurd (cc)
    | inr (g, h) ↦
        (inl (ap (λ y. y.1) h ∙ s, ap (λ y. y.2) h), ap (λ y. y.3) h, ap (λ y. y.4) h ∙ d)
  ]

  pub completed-IsOrderly :
      (w : Inotify K)
      → IsOrderly walking w
      → IsOrderly resting (send_event (record w { reading = true }) (walk_event walk_complete))
  unfolding send_event
  completed-IsOrderly w (inl (s, d), p, r) = inr (inl (s, d, p, refl))
  completed-IsOrderly w (inr (s, d), p, r) = inr (inr (s, d, p, refl))

  pub stop-cases :
      (p : Phase) (w : Inotify K)
      → IsOrderly p w
      → ((p ≡ claimed) × ((stop w ≡ panics) ⊎ (w.done ≡ open_channel)))
        ⊎ (stop w ≡ not_running)
        ⊎ ((w' : Inotify K) × (stop w ≡ waits w') × (w'.state ≡ stopping) × IsOrderly p w')
  unfolding stop stop_from
  stop-cases claimed w (s, r) = inl (refl, by_channel w.done refl)
    where
      by_channel :
          (c : Channel) → w.done ≡ c → (stop_from w w.state ≡ panics) ⊎ (w.done ≡ open_channel)
      by_channel open_channel e = inr e
      by_channel unmade e = inl (rw (s, e) (unfold close_done in refl))
      by_channel closed e = inl (rw (s, e) (unfold close_done in refl))
  stop-cases resting w (inl (s, d)) = inr (inl (rw s refl))
  stop-cases resting w (inr (inl (s, o, p, d))) =
      rw (s, o, close_done)
        (inr (
          inr (
            record w { state = stopping; done = closed },
            refl,
            refl,
            inr (inr (refl, refl, p, d)),
          )))
  stop-cases resting w (inr (inr o)) = inr (inl (rw o.0 refl))
  stop-cases walking w (inl (s, o), p, d) =
      rw (s, o, close_done)
        (inr (
          inr (record w { state = stopping; done = closed }, refl, refl, (inr (refl, refl), p, d))))
  stop-cases walking w (inr (s, o), p, d) = inr (inl (rw s refl))

  shape-handle_all :
      (w : Inotify K) (es : List RawEvent) → shape (handle_all kernel ignore w es) ≡ shape w
  unfolding handle_all
  shape-handle_all w [] = refl
  shape-handle_all w (e ∷ es) =
      let w' = handle_inotify_event kernel ignore w e.name e.wd e.mask e.cookie in
      let h = shape-handle_inotify_event kernel ignore w e.name e.wd e.mask e.cookie in
      elim (Bool-cases w'.mv_events.panicked) [
        | inl p ↦ rw p h
        | inr p ↦ rw p (shape-handle_all w' es ∙ h)
      ]

  ended-IsOrderly : (w : Inotify K) → IsOrderly resting (ended kernel ignore w)
  unfolding ended
  ended-IsOrderly w = shutdown-IsOrderly (record w { reading = false }) refl

  with_round-IsOrderly :
      (w : Inotify K) (r : Round)
      → IsOrderly resting w
      → IsOrderly resting (with_round kernel ignore w r)
  unfolding with_round
  with_round-IsOrderly w interrupted o = o
  with_round-IsOrderly w idle o = o
  with_round-IsOrderly w retry o = o
  with_round-IsOrderly w wait_fails o = ended-IsOrderly (send_error w wait_failed)
  with_round-IsOrderly w read_fails o = ended-IsOrderly (send_error w read_failed)
  with_round-IsOrderly w (bytes buffer) o =
      elim (Bool-cases (ltb (length buffer) sizeof_inotify_event)) [
        | inl e ↦ rw e o
        | inr e ↦ rw e (
            IsOrderly-of_shape resting w (handle_all kernel ignore w (parse_events buffer))
              (shape-handle_all w (parse_events buffer)) o)
      ]

  pub read_round-IsOrderly :
      (w : Inotify K) (r : Round)
      → IsOrderly resting w
      → IsOrderly resting (read_round kernel ignore w r)
  unfolding read_round
  read_round-IsOrderly w r o = by_channel w.done
    where
      by_channel : (c : Channel) → IsOrderly resting (while_open kernel ignore w c r)
      by_channel closed = unfold while_open in ended-IsOrderly w
      by_channel open_channel = unfold while_open in with_round-IsOrderly w r o
      by_channel unmade = unfold while_open in with_round-IsOrderly w r o
