-- ===== src/Watcher/DelEvents/NoLoss.antt =====
-- No removal that reaches common_delete_events.go is lost, in any interleaving of its goroutines.
use godlna.Base.{
  ℕ, ◌+◌, ◌<◌, Text, text_eq, lookup, insert, All-insert, All-erase, All-lookup, dir_name, List, [],
  ◌∷◌, Option, some, Bool, true, false, ◌≡◌, refl, ◌⊎◌, inl, inr, All, All-mono, arith,
}
use godlna.Watcher.Goroutines.{IsIn, IsIn-append, Picks, Picks-All, Picks-IsIn}
use godlna.Watcher.WatchMap.{is_under}
use godlna.Watcher.WatchMap.Relocation.{self-is_under}
use godlna.Watcher.DelEvents.{
  DelItem, DelEvent, Waiting, DelEvents, new_delete_events, joined, without_children, add, fire,
  leave, Run, empty, adds, fires, leaves,
}
use godlna.Watcher.DelEvents.Coverage.{
  is_under_trans, Live, IsKept, AllKept, without_children-kept, without_children-Live, joined-kept,
  joined-Live, joined-item, joined-under,
}

abbrev IsTracked : DelEvents → Type 0
IsTracked s = AllKept s.next s.ev s.waiting

-- The new event and the new goroutine.
AllKept-add :
    (next : ℕ) (parent : Text) (items : List DelItem) (ev : List (Text × DelEvent))
    (ws : List Waiting)
    → All (λ y. is_under parent y.path ≡ true) items
    → AllKept next ev ws
    → AllKept
        (next + 1)
        (insert parent (record { items = items; done = next }) ev)
        (record { parent = parent; items = items; done = next; listening = true } ∷ ws)
AllKept-add next parent items ev ws u (k, fresh) = (
  All-insert (IsKept (next + 1) (g ∷ ws)) parent (record { items = items; done = next }) ev
      (
        omega arith,
        u,
        ((λ e. (refl, refl)), All-mono ws (λ h l e. absurd (omega (arith, l, e))) fresh),
      )
      (All-mono ev (λ x h. (omega (arith, h.0), h.1, ((λ e. absurd (omega (arith, h.0, e))), h.2)))
        k),
  (omega arith, All-mono ws (λ h l. omega (arith, l)) fresh),
)
  where
    g : Waiting
    g = record { parent = parent; items = items; done = next; listening = true }

older :
    (s : DelEvents) (p : Text)
    → IsTracked s
    → (e : DelEvent) → lookup p s.ev ≡ some e
    → IsKept s.next s.waiting (p, e)
older s p (k, fresh) e h = All-lookup (IsKept s.next s.waiting) p e s.ev k h

add-IsTracked :
    (s : DelEvents) (p : Text) (is_dir : Bool)
    → is_under (dir_name p) p ≡ true
    → IsTracked s
    → IsTracked (add s p is_dir)
unfolding add
add-IsTracked s p is_dir u t =
    let item : DelItem = record { path = p; is_dir = is_dir } in
    let found = lookup (dir_name p) s.ev in
    let first = joined item found s.waiting in
    AllKept-add s.next (dir_name p) first.0 (without_children is_dir p s.ev first.1).0
      (without_children is_dir p s.ev first.1).1
      (joined-under s.next (dir_name p) item found s.waiting u (older s (dir_name p) t))
      (without_children-kept s.next is_dir p s.ev first.1
        (joined-kept s.next item found s.ev s.waiting t))

kept-rest :
    (next : ℕ) (ev : List (Text × DelEvent)) (gs : List Waiting) (g : Waiting) (rest : List Waiting)
    → Picks gs g rest
    → AllKept next ev gs
    → AllKept next ev rest
kept-rest next ev gs g rest h (k, fresh) = (
  All-mono ev
      (λ x q. (
        q.0,
        q.1,
        Picks-All (λ w. w.done ≡ x.1.done → (w.items ≡ x.1.items) × (w.parent ≡ x.0)) gs g rest h
            q.2,
      ))
      k,
  Picks-All (λ w. w.done < next) gs g rest h fresh,
)

fire-IsTracked :
    (s : DelEvents) (g : Waiting) (rest : List Waiting)
    → Picks s.waiting g rest
    → IsTracked s
    → IsTracked (fire s g rest)
unfolding fire
fire-IsTracked s g rest h t =
    let (k, fresh) = kept-rest s.next s.ev s.waiting g rest h t in
    (All-erase (IsKept s.next rest) g.parent s.ev k, fresh)

leave-IsTracked :
    (s : DelEvents) (g : Waiting) (rest : List Waiting)
    → Picks s.waiting g rest
    → IsTracked s
    → IsTracked (leave s rest)
unfolding leave
leave-IsTracked s g rest h t = kept-rest s.next s.ev s.waiting g rest h t

Run-IsTracked : (log : List DelItem) (s : DelEvents) → Run log s → IsTracked s
unfolding new_delete_events
Run-IsTracked log s empty = (tt, tt)
Run-IsTracked log s (adds log' t p is_dir u r) = add-IsTracked t p is_dir u (Run-IsTracked log' t r)
Run-IsTracked log s (fires log' t g rest h r) = fire-IsTracked t g rest h (Run-IsTracked log' t r)
Run-IsTracked log s (leaves log' t g rest h c r) =
    leave-IsTracked t g rest h (Run-IsTracked log' t r)

-- A removal that has been sent, or will be by a goroutine whose channel is open, is of the path or of a directory
-- that the path lies under.
abbrev pub IsCovered : DelEvents → Text → Type 0
IsCovered s p = (y : DelItem) × (is_under y.path p ≡ true) × (IsIn y s.sent ⊎ Live y s.waiting)

add-covers :
    (s : DelEvents) (p : Text) (is_dir : Bool) (x : Text)
    → IsTracked s
    → IsCovered s x
    → IsCovered (add s p is_dir) x
add-covers s p is_dir x t (y, u, inl i) = unfold add in (y, u, inl i)
add-covers s p is_dir x t (y, u, inr l) =
    elim (joined-Live s.next (dir_name p) item y found s.waiting (older s (dir_name p) t) l) [
      | inr i ↦ unfold add in (y, u, inr (g, inl refl, refl, i))
      | inl l' ↦
          elim (without_children-Live s.next is_dir p y s.ev first.1
            (joined-kept s.next item found s.ev s.waiting t).0 l') [
              | inl (h, j, o, i) ↦ unfold add in (y, u, inr (h, inr j, o, i))
              | inr below ↦
                  unfold add in
                  (
                    item,
                    is_under_trans p y.path x below u,
                    inr (g, inl refl, refl, joined-item item found s.waiting),
                  )
            ]
    ]
  where
    item : DelItem
    item = record { path = p; is_dir = is_dir }

    found : Option DelEvent
    found = lookup (dir_name p) s.ev

    first : List DelItem × List Waiting
    first = joined item found s.waiting

    g : Waiting
    g = record { parent = dir_name p; items = first.0; done = s.next; listening = true }

add-covers_self : (s : DelEvents) (p : Text) (is_dir : Bool) → IsCovered (add s p is_dir) p
add-covers_self s p is_dir =
    unfold add in
    (
      item,
      self-is_under p,
      inr (
        record {
          parent = dir_name p;
          items = (joined item (lookup (dir_name p) s.ev) s.waiting).0;
          done = s.next;
          listening = true;
        },
        inl refl,
        refl,
        joined-item item (lookup (dir_name p) s.ev) s.waiting,
      ),
    )
  where
    item : DelItem
    item = record { path = p; is_dir = is_dir }

fire-covers :
    (s : DelEvents) (g : Waiting) (rest : List Waiting) (x : Text)
    → Picks s.waiting g rest
    → IsCovered s x
    → IsCovered (fire s g rest) x
unfolding fire
fire-covers s g rest x k (y, u, inl i) = (y, u, inl (IsIn-append y s.sent g.items (inl i)))
fire-covers s g rest x k (y, u, inr (h, j, o, i)) = elim (Picks-IsIn s.waiting g h rest k j) [
  | inl e ↦ (y, u, inl (IsIn-append y s.sent g.items (inr (rw e at i))))
  | inr j' ↦ (y, u, inr (h, j', o, i))
]

leave-covers :
    (s : DelEvents) (g : Waiting) (rest : List Waiting) (x : Text)
    → Picks s.waiting g rest
    → g.listening ≡ false
    → IsCovered s x
    → IsCovered (leave s rest) x
unfolding leave
leave-covers s g rest x k c (y, u, inl i) = (y, u, inl i)
leave-covers s g rest x k c (y, u, inr (h, j, o, i)) = elim (Picks-IsIn s.waiting g h rest k j) [
  | inl e ↦ absurd (ground (arith, e, o, c))
  | inr j' ↦ (y, u, inr (h, j', o, i))
]

-- In every run of additions, timers and closed channels, in any interleaving, each removal that was added is
-- covered: it has been sent or is still held by a goroutine that will send it, itself or as part of a directory that
-- it lies under. (The directory of an added path is not the root of the file system.)
pub Run-IsCovered :
    (log : List DelItem) (s : DelEvents) → Run log s → All (λ x. IsCovered s x.path) log
Run-IsCovered log s empty = tt
Run-IsCovered log s (adds log' t p is_dir u r) = (
  add-covers_self t p is_dir,
  All-mono log' (λ x c. add-covers t p is_dir x.path (Run-IsTracked log' t r) c)
      (Run-IsCovered log' t r),
)
Run-IsCovered log s (fires log' t g rest h r) =
    All-mono log (λ x c. fire-covers t g rest x.path h c) (Run-IsCovered log t r)
Run-IsCovered log s (leaves log' t g rest h c r) =
    All-mono log (λ x k. leave-covers t g rest x.path h c k) (Run-IsCovered log t r)

-- In every run of additions, timers and closed channels, in any interleaving, in which the directory of an added path
-- is not the root of the file system: once no goroutine waits any more, every removal that was added has been sent,
-- itself or as part of a directory that it lies under.
pub Run-sent :
    (log : List DelItem) (s : DelEvents)
    → Run log s
    → s.waiting ≡ []
    → All (λ x. (y : DelItem) × (is_under y.path x.path ≡ true) × IsIn y s.sent) log
Run-sent log s r quiet = All-mono log settled (Run-IsCovered log s r)
  where
    settled :
        (x : DelItem)
        → IsCovered s x.path
        → (y : DelItem) × (is_under y.path x.path ≡ true) × IsIn y s.sent
    settled x (y, u, inl i) = (y, u, i)
    settled x (y, u, inr (g, j, o, i)) = absurd (rw quiet at j)
