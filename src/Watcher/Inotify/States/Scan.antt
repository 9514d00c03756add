-- ===== src/Watcher/Inotify/States/Scan.antt =====
-- pkg/fswatcher/driver_inotify.go: the events of a start.
use godlna.Base.{
  Text, List, [], ◌∷◌, ◌++◌, Option, none, some, Bool, false, ◌≡◌, refl, sym, ap, ◌∙◌, arith, map,
}
use mathlib.Core.List.{append-nil, append_assoc, map-append}
use godlna.Watcher.Event.{Event, walk_start, walk_complete}
use godlna.Watcher.Tree.{Tree}
use godlna.Watcher.Inotify.{
  State, stopped, running, stopping, Failure, Kernel, Inotify, Outcome, next, skip_dir, failed,
  is_failed, send_event, walk, walk_error, walk_starting_at,
}
use godlna.Watcher.Inotify.Walk.{visible, event_of, walk-events}
use godlna.Watcher.Inotify.States.{
  walk_event, pre_start, ready, walk_roots, unless_error, walked, prepared, begun, from_state,
  start,
}

-- The files and directories below all the roots, in file systems that stand still.
unfoldable pub visible_roots :
    Option (Text → Bool → Bool) → (Text → Tree) → List Text → List (Text × Bool)
unfolding visible
visible_roots ignore trees [] = []
visible_roots ignore trees (root ∷ roots) =
    visible ignore root (trees root) ++ visible_roots ignore trees roots

module _ {K : Type 0} (kernel : Kernel K) (ignore : Option (Text → Bool → Bool))
    (trees : Text → Tree) (still : (k : K) (p : Text) → kernel.tree k p ≡ trees p) where
  walk_error-none :
      (p : Text) (o : Outcome) → walk_error kernel ignore p o ≡ none → is_failed o ≡ false
  unfolding walk_error is_failed
  walk_error-none p next h = refl
  walk_error-none p skip_dir h = refl
  walk_error-none p (failed e) h = absurd (cc)

  walk_starting_at-events :
      (w : Inotify K) (p : Text)
      → (walk_starting_at kernel ignore w p).1 ≡ none
      → (walk_starting_at kernel ignore w p).0.events
        ≡ w.events ++ map event_of (visible ignore p (trees p))
  unfolding walk_starting_at
  walk_starting_at-events w p h =
      walk-events kernel ignore w p (kernel.tree w.kernel p)
        (walk_error-none p (walk kernel ignore w p (kernel.tree w.kernel p)).1 h)
      ∙ ap (λ t. w.events ++ map event_of (visible ignore p t)) (still w.kernel p)

  unless_error-none :
      (r rest : Inotify K × Option Failure)
      → (unless_error kernel ignore r rest).1 ≡ none
      → (r.1 ≡ none) × (unless_error kernel ignore r rest ≡ rest)
  unfolding unless_error
  unless_error-none (v, none) rest h = (refl, refl)
  unless_error-none (v, some e) rest h = absurd (cc)

  walk_roots-events :
      (w : Inotify K) (roots : List Text)
      → (walk_roots kernel ignore w roots).1 ≡ none
      → (walk_roots kernel ignore w roots).0.events
        ≡ w.events ++ map event_of (visible_roots ignore trees roots)
  unfolding walk_roots visible_roots
  walk_roots-events w [] h = sym (append-nil w.events)
  walk_roots-events w (root ∷ roots) h =
      let r = walk_starting_at kernel ignore w root in
      let rest = walk_roots kernel ignore r.0 roots in
      let (a, b) = unless_error-none r rest h in
      ap (λ x. x.0.events) b
      ∙ walk_roots-events r.0 roots (sym (ap (λ x. x.1) b) ∙ h)
      ∙ ap (λ x. x ++ map event_of (visible_roots ignore trees roots))
          (walk_starting_at-events w root a)
      ∙ append_assoc w.events _ _
      ∙ ap (λ x. w.events ++ x)
          (sym (
            map-append event_of (visible ignore root (trees root))
              (visible_roots ignore trees roots)))

  walked-events :
      (r : Inotify K × Option Failure) (xs : List Event)
      → (r.1 ≡ none → r.0.events ≡ xs)
      → (walked kernel ignore r).1 ≡ none
      → (walked kernel ignore r).0.events ≡ xs ++ walk_event walk_complete ∷ []
  unfolding walked
  walked-events (w, some e) xs f h = absurd (cc)
  walked-events (w, none) xs f h =
      unfold send_event in ap (λ x. x ++ walk_event walk_complete ∷ []) (f refl)

  prepared-events :
      (r : Inotify K × Option Failure) (roots : List Text)
      → (r.1 ≡ none → (r.0.events ≡ []) × (r.0.roots ≡ roots))
      → (prepared kernel ignore r).1 ≡ none
      → (prepared kernel ignore r).0.events
        ≡ (walk_event walk_start ∷ map event_of (visible_roots ignore trees roots))
          ++ walk_event walk_complete ∷ []
  unfolding prepared
  prepared-events (w, some e) roots f h = absurd (cc)
  prepared-events (w, none) roots f h =
      let w' = send_event w (walk_event walk_start) in
      walked-events (walk_roots kernel ignore w' w.roots) _
        (λ g.
          walk_roots-events w' w.roots g
          ∙ ap (λ x. x ++ map event_of (visible_roots ignore trees w.roots))
              (unfold send_event in ap (λ x. x ++ walk_event walk_start ∷ []) (f refl).0)
          ∙ ap (λ x. walk_event walk_start ∷ map event_of (visible_roots ignore trees x))
              (f refl).1)
        h

  pre_start-keeps :
      (w : Inotify K)
      → ((pre_start kernel w).0.events ≡ w.events) × ((pre_start kernel w).0.roots ≡ w.roots)
  unfolding pre_start ready
  pre_start-keeps w = ground arith

  -- The events of a full walk over the visible files and directories.
  abbrev pub walk_of : List Text → List Event
  walk_of roots =
      (walk_event walk_start ∷ map event_of (visible_roots ignore trees roots))
      ++ walk_event walk_complete ∷ []

  begun-events :
      (w : Inotify K) (roots : List Text)
      → roots ≡ w.roots
      → w.events ≡ []
      → (begun kernel ignore w roots).1 ≡ none
      → (begun kernel ignore w roots).0.events ≡ walk_of w.roots
  unfolding begun
  begun-events w [] r e h = absurd (cc)
  begun-events w (root ∷ roots) r e h =
      prepared-events (pre_start kernel w) w.roots
        (λ g. ((pre_start-keeps w).0 ∙ e, (pre_start-keeps w).1)) h

  from_state-events :
      (w : Inotify K) (st : State)
      → w.events ≡ []
      → (from_state kernel ignore w st).1 ≡ none
      → (from_state kernel ignore w st).0.events ≡ walk_of w.roots
  unfolding from_state
  from_state-events w stopped e h = begun-events (record w { state = running }) w.roots refl e h
  from_state-events w running e h = absurd (cc)
  from_state-events w stopping e h = absurd (cc)

  pub start-events :
      (w : Inotify K)
      → w.events ≡ []
      → (start kernel ignore w).1 ≡ none
      → (start kernel ignore w).0.events ≡ walk_of w.roots
  unfolding start
  start-events w e h = from_state-events w w.state e h
