-- ===== src/Watcher/Inotify/States/Steps.antt =====
-- pkg/fswatcher/driver_inotify.go: the steps of a watcher's life, and that a start takes them.
use godlna.Base.{Text, List, [], ◌∷◌, Option, none, some, ◌≢◌, Bool, true, false, ◌≡◌, refl}
use godlna.Watcher.Event.{walk_start, walk_complete}
use godlna.Watcher.DelEvents.{DelItem}
use godlna.Watcher.MvEvents.{Move}
use godlna.Watcher.Inotify.{
  stopped, running, stopping, Failure, walk_starting_at, Kernel, Inotify, State, send_event,
}
use godlna.Watcher.Inotify.Handlers.{handle_move_event, handle_delete_event}
use godlna.Watcher.Inotify.States.{
  walk_event, pre_start, shutdown, unless_error, walk_roots, walked, prepared, begun, from_state,
  start, Round, read_round, waits, stop,
}
use godlna.Watcher.Inotify.States.Life.{Phase, resting, claimed, walking}

module _ {K : Type 0} (kernel : Kernel K) (ignore : Option (Text → Bool → Bool)) where
  -- The life of a watcher that is never started without a root, in any order of its steps: it is given directories,
  -- started step by step and stopped, also during a start, the reader takes a round while there is one, and the
  -- goroutines of the delayed events call their handlers at any time. The walks of a start are of any roots. A stop that
  -- comes while a start has taken the state but not made the channels has no step here.
  pub data Life : Phase → Inotify K → Type 0 where
    made : (w : Inotify K) → w.state ≡ stopped → w.reading ≡ false → Life resting w
    adds :
        (p : Phase) (w : Inotify K) (roots : List Text)
        → Life p w
        → Life p (record w { roots = roots })
    claims :
        (w : Inotify K) (root : Text) (roots : List Text)
        → w.roots ≡ root ∷ roots
        → w.state ≡ stopped
        → Life resting w
        → Life claimed (record w { state = running })
    refuses :
        (w : Inotify K) (e : Failure)
        → (pre_start kernel w).1 ≡ some e
        → Life claimed w
        → Life resting (record (pre_start kernel w).0 { state = stopped })
    prepares :
        (w : Inotify K)
        → (pre_start kernel w).1 ≡ none
        → Life claimed w
        → Life walking (send_event (pre_start kernel w).0 (walk_event walk_start))
    walks :
        (w : Inotify K) (root : Text)
        → Life walking w
        → Life walking (walk_starting_at kernel ignore w root).0
    breaks : (w : Inotify K) → Life walking w → Life resting (shutdown kernel w)
    completes :
        (w : Inotify K)
        → Life walking w
        → Life resting (send_event (record w { reading = true }) (walk_event walk_complete))
    stops : (p : Phase) (w w' : Inotify K) → p ≢ claimed → stop w ≡ waits w' → Life p w → Life p w'
    reads :
        (w : Inotify K) (r : Round)
        → w.reading ≡ true
        → Life resting w
        → Life resting (read_round kernel ignore w r)
    moves :
        (p : Phase) (w : Inotify K) (m : Move)
        → Life p w
        → Life p (handle_move_event kernel ignore w m)
    deletes :
        (p : Phase) (w : Inotify K) (i : DelItem)
        → Life p w
        → Life p (handle_delete_event kernel ignore w i)

  -- The start that runs through takes these steps.
  walk_roots-Life :
      (w : Inotify K) (roots : List Text)
      → Life walking w
      → Life resting (walked kernel ignore (walk_roots kernel ignore w roots)).0
  unfolding walk_roots
  walk_roots-Life w [] l = unfold walked in completes w l
  walk_roots-Life w (root ∷ roots) l =
      by_result (walk_starting_at kernel ignore w root) _ (walks w root l)
        (walk_roots-Life (walk_starting_at kernel ignore w root).0 roots (walks w root l))
    where
      by_result :
          (r rest : Inotify K × Option Failure)
          → Life walking r.0
          → Life resting (walked kernel ignore rest).0
          → Life resting (walked kernel ignore (unless_error kernel ignore r rest)).0
      by_result (v, none) rest m h = unfold unless_error in h
      by_result (v, some e) rest m h = unfold unless_error walked in breaks v m

  prepared-Life :
      (w : Inotify K) (r : Inotify K × Option Failure)
      → ((e : Failure) → r.1 ≡ some e → Life resting (record r.0 { state = stopped }))
      → (r.1 ≡ none → Life walking (send_event r.0 (walk_event walk_start)))
      → Life resting (prepared kernel ignore r).0
  unfolding prepared
  prepared-Life w (v, some e) f g = f e refl
  prepared-Life w (v, none) f g = walk_roots-Life _ v.roots (g refl)

  begun-Life :
      (w : Inotify K) (root : Text) (roots rs : List Text)
      → rs ≡ root ∷ roots
      → Life claimed w
      → Life resting (begun kernel ignore w rs).0
  unfolding begun
  begun-Life w root roots [] e l = absurd (cc)
  begun-Life w root roots (r ∷ rs) e l =
      prepared-Life w (pre_start kernel w) (λ x f. refuses w x f l) (λ f. prepares w f l)

  pub start-Life :
      (w : Inotify K) (root : Text) (roots : List Text)
      → w.roots ≡ root ∷ roots
      → w.state ≡ stopped
      → Life resting w
      → Life resting (start kernel ignore w).0
  unfolding start
  start-Life w root roots e s l = by_state w.state s
    where
      by_state : (st : State) → st ≡ stopped → Life resting (from_state kernel ignore w st).0
      by_state stopped f =
          unfold from_state in
          begun-Life (record w { state = running }) root roots w.roots e (claims w root roots e s l)
      by_state running f = absurd (cc)
      by_state stopping f = absurd (cc)
