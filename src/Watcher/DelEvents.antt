-- ===== src/Watcher/DelEvents.antt =====
-- pkg/fswatcher/common_delete_events.go: removals are held back for a moment, so that of a tree only the top is sent.
-- A done channel is a number; a goroutine of `add` is a record of what it has captured, while it waits in its select.
pub mod Coverage
pub mod NoLoss
pub mod Examples
use godlna.Base.{
  ℕ, suc, ◌+◌, Text, text_eq, lookup, insert, erase, dir_name, List, [], ◌∷◌, ◌++◌, Option, none,
  some, Bool, true, false, nat_beq, if◌then◌else◌, ◌≡◌, refl, ◌⊎◌,
}
use godlna.Watcher.Goroutines.{Picks}
use godlna.Watcher.WatchMap.{is_under}

pub record DelItem : Type 0 where
  pub path : Text
  pub is_dir : Bool

pub record DelEvent : Type 0 where
  pub items : List DelItem
  pub done : ℕ

pub record Waiting : Type 0 where
  pub parent : Text
  pub items : List DelItem
  pub done : ℕ
  pub listening : Bool

-- `sent` records the calls of the handler.
pub record DelEvents : Type 0 where
  pub ev : List (Text × DelEvent)
  pub waiting : List Waiting
  pub next : ℕ
  pub sent : List DelItem

pub new_delete_events : DelEvents
new_delete_events = record { ev = []; waiting = []; next = 0; sent = [] }

unfoldable pub close : ℕ → List Waiting → List Waiting
close n [] = []
close n (g ∷ gs) = (if nat_beq g.done n then record g { listening = false } else g) ∷ close n gs

-- The loop over the events in `add` of a directory.
drop_children :
    Text
    → List (Text × DelEvent)
    → List (Text × DelEvent)
    → List Waiting
    → List (Text × DelEvent) × List Waiting
drop_children dir [] ev ws = (ev, ws)
drop_children dir ((p, e) ∷ es) ev ws =
    let dropped = drop_children dir es (erase p ev) (close e.done ws) in
    let kept = drop_children dir es ev ws in if is_under dir p then dropped else kept

-- The items of the new event, and the goroutines once an older event of the same directory has been closed.
unfoldable pub joined : DelItem → Option DelEvent → List Waiting → List DelItem × List Waiting
unfolding close
joined item none ws = (item ∷ [], ws)
joined item (some e) ws = (e.items ++ item ∷ [], close e.done ws)

unfoldable pub without_children :
    Bool → Text → List (Text × DelEvent) → List Waiting → List (Text × DelEvent) × List Waiting
unfolding drop_children
without_children false p ev ws = (ev, ws)
without_children true p ev ws = drop_children p ev ev ws

unfoldable pub add : DelEvents → Text → Bool → DelEvents
unfolding joined without_children
add s p is_dir =
    let parent = dir_name p in
    let (items, ws) =
      joined (record { path = p; is_dir = is_dir }) (lookup parent s.ev) s.waiting in
    let (ev, ws') = without_children is_dir p s.ev ws in
    record s {
      ev = insert parent (record { items = items; done = s.next }) ev;
      waiting = record { parent = parent; items = items; done = s.next; listening = true } ∷ ws';
      next = s.next + 1;
    }

-- A goroutine whose timer has run out: it deletes the event of its directory, whosever it is by then, and hands its
-- items on. The rest are the other goroutines.
unfoldable pub fire : DelEvents → Waiting → List Waiting → DelEvents
fire s g rest = record s { ev = erase g.parent s.ev; waiting = rest; sent = s.sent ++ g.items }

-- A goroutine that finds its channel closed.
unfoldable pub leave : DelEvents → List Waiting → DelEvents
leave s rest = record s { waiting = rest }

-- `close(e.done)`: every goroutine finds that channel closed.
unfoldable pub close_all : List Waiting → List Waiting
close_all [] = []
close_all (g ∷ gs) = record g { listening = false } ∷ close_all gs

unfoldable pub stop : DelEvents → DelEvents
unfolding close_all
stop s = record s { waiting = close_all s.waiting }

unfoldable pub reset : DelEvents → DelEvents
reset s = record s { ev = [] }

-- The runs between a reset and a stop: the removals that were added, the latest first, and the state. A select with a closed channel and a timer
-- that has run out may take either, so a goroutine may fire whether its channel is open or not.
pub data Run : List DelItem → DelEvents → Type 0 where
  empty : Run [] new_delete_events
  adds :
      (log : List DelItem) (s : DelEvents) (p : Text) (is_dir : Bool)
      → is_under (dir_name p) p ≡ true
      → Run log s
      → Run (record { path = p; is_dir = is_dir } ∷ log) (add s p is_dir)
  fires :
      (log : List DelItem) (s : DelEvents) (g : Waiting) (rest : List Waiting)
      → Picks s.waiting g rest
      → Run log s
      → Run log (fire s g rest)
  leaves :
      (log : List DelItem) (s : DelEvents) (g : Waiting) (rest : List Waiting)
      → Picks s.waiting g rest
      → g.listening ≡ false
      → Run log s
      → Run log (leave s rest)
