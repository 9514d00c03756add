-- ===== src/Watcher/MvEvents.antt =====
-- pkg/fswatcher/driver_inotify_move_events.go: the two halves of a move are joined by their cookie.
-- A done channel is a number, and its event knows whether it was closed; a goroutine of `addMvFrom` is a record of what
-- it has captured, while it waits in its select; after that it has only its cookie left to delete.
pub mod NoLoss
pub mod Examples
use godlna.Base.{
  ℕ, suc, ◌+◌, Text, codes, nat_eq, lookup, insert, erase, List, [], ◌∷◌, ◌++◌, Option, none, some,
  Bool, true, false, nat_beq, if◌then◌else◌, ◌≡◌, refl,
}
use godlna.Watcher.Goroutines.{Picks}
pub use godlna.Watcher.Event.{Op, index, remove, rename}

pub record MvFromEvent : Type 0 where
  pub name : Text
  pub is_dir : Bool
  pub done : ℕ
  pub is_closed : Bool

pub record Waiting : Type 0 where
  pub cookie : ℕ
  pub name : Text
  pub is_dir : Bool
  pub done : ℕ
  pub listening : Bool

-- One call of the handler.
pub record Move : Type 0 where
  pub op : Op
  pub old_name : Text
  pub new_name : Text
  pub is_dir : Bool

pub record MvEvents : Type 0 where
  pub mv_from : List (ℕ × MvFromEvent)
  pub waiting : List Waiting
  pub leaving : List ℕ
  pub next : ℕ
  pub sent : List Move
  pub panicked : Bool

unfoldable pub new_mv_events : MvEvents
new_mv_events = record {
  mv_from = [];
  waiting = [];
  leaving = [];
  next = 0;
  sent = [];
  panicked = false;
}

unfoldable pub close : ℕ → List Waiting → List Waiting
close n [] = []
close n (g ∷ gs) = (if nat_beq g.done n then record g { listening = false } else g) ∷ close n gs

unfoldable pub add_mv_from : MvEvents → ℕ → Text → Bool → MvEvents
add_mv_from s cookie name is_dir = record s {
  mv_from =
      insert cookie (record { name = name; is_dir = is_dir; done = s.next; is_closed = false })
        s.mv_from;
  waiting =
      record { cookie = cookie; name = name; is_dir = is_dir; done = s.next; listening = true }
      ∷ s.waiting;
  next = s.next + 1;
}

-- The handler's call; none is the panic of closing a closed channel. A file that comes from outside has no old name.
unfoldable pub arrival : Text → Bool → Option MvFromEvent → Option Move
arrival name is_dir none =
    some (record { op = index; old_name = []; new_name = name; is_dir = is_dir })
arrival name is_dir (some e) =
    if e.is_closed
    then none
    else some (record { op = rename; old_name = e.name; new_name = name; is_dir = is_dir })

-- `close(mvFrom.done)`
unfoldable pub closing : MvEvents → ℕ → Option MvFromEvent → MvEvents
unfolding close
closing s cookie none = s
closing s cookie (some e) = record s {
  mv_from = insert cookie (record e { is_closed = true }) s.mv_from;
  waiting = close e.done s.waiting;
}

unfoldable pub answered : MvEvents → ℕ → Option MvFromEvent → Option Move → MvEvents
unfolding closing
answered s cookie o none = record s { panicked = true }
answered s cookie o (some call) =
    let s' = closing s cookie o in record s' { sent = s'.sent ++ call ∷ [] }

unfoldable pub add_mv_to : MvEvents → ℕ → Text → Bool → MvEvents
unfolding arrival answered
add_mv_to s cookie name is_dir =
    let o = lookup cookie s.mv_from in answered s cookie o (arrival name is_dir o)

-- A goroutine whose timer has run out sends the removal; the rest are the other goroutines.
unfoldable pub expire : MvEvents → Waiting → List Waiting → MvEvents
expire s g rest = record s {
  waiting = rest;
  leaving = g.cookie ∷ s.leaving;
  sent = s.sent ++ record { op = remove; old_name = g.name; new_name = []; is_dir = g.is_dir } ∷ [];
}

-- A goroutine that finds its channel closed.
unfoldable pub joined : MvEvents → Waiting → List Waiting → MvEvents
joined s g rest = record s { waiting = rest; leaving = g.cookie ∷ s.leaving }

-- The end of a goroutine: it deletes the event of its cookie, whosever it is by then.
unfoldable pub clean : MvEvents → ℕ → List ℕ → MvEvents
clean s cookie rest = record s { mv_from = erase cookie s.mv_from; leaving = rest }

-- `close(e.done)`: every goroutine finds that channel closed.
unfoldable pub close_all : List Waiting → List Waiting
close_all [] = []
close_all (g ∷ gs) = record g { listening = false } ∷ close_all gs

unfoldable pub stop : MvEvents → MvEvents
unfolding close_all
stop s = record s { waiting = close_all s.waiting }

unfoldable pub reset : MvEvents → MvEvents
reset s = record s { mv_from = [] }

-- The runs between a reset and a stop: the names that moved away, the latest first, and the state. A select with a
-- closed channel and a timer that has run out may take either. A panic ends the program: nothing follows it.
pub data Run : List Text → MvEvents → Type 0 where
  empty : Run [] new_mv_events
  departs :
      (log : List Text) (s : MvEvents) (cookie : ℕ) (name : Text) (is_dir : Bool)
      → s.panicked ≡ false
      → Run log s
      → Run (name ∷ log) (add_mv_from s cookie name is_dir)
  arrives :
      (log : List Text) (s : MvEvents) (cookie : ℕ) (name : Text) (is_dir : Bool)
      → s.panicked ≡ false
      → Run log s
      → Run log (add_mv_to s cookie name is_dir)
  expires :
      (log : List Text) (s : MvEvents) (g : Waiting) (rest : List Waiting)
      → Picks s.waiting g rest
      → s.panicked ≡ false
      → Run log s
      → Run log (expire s g rest)
  joins :
      (log : List Text) (s : MvEvents) (g : Waiting) (rest : List Waiting)
      → Picks s.waiting g rest
      → g.listening ≡ false
      → s.panicked ≡ false
      → Run log s
      → Run log (joined s g rest)
  cleans :
      (log : List Text) (s : MvEvents) (cookie : ℕ) (rest : List ℕ)
      → Picks s.leaving cookie rest
      → s.panicked ≡ false
      → Run log s
      → Run log (clean s cookie rest)
