-- ===== src/Watcher/DelEvents/Coverage.antt =====
-- What `add` of common_delete_events.go does to the items that its goroutines hold.
use mathlib.Core.List.{append_assoc}
use godlna.Base.{
  ℕ, ◌<◌, Text, text_eq, erase, All-erase, List, [], ◌∷◌, ◌++◌, Option, none, some, Bool, true,
  false, nat_beq, nat_beq_iff, ◌≡◌, refl, sym, ◌⊎◌, inl, inr, All, All-mono, All-append, arith,
  Bool-cases,
}
use godlna.Watcher.Goroutines.{IsIn, IsIn-append, All-IsIn}
use godlna.Watcher.WatchMap.{is_under}
use godlna.Watcher.WatchMap.Relocation.{is_under-IsUnder, below-is_under, IsUnder}
use godlna.Watcher.DelEvents.{
  DelItem, DelEvent, Waiting, close, drop_children, joined, without_children,
}

pub is_under_trans :
    (a b c : Text) → is_under a b ≡ true → is_under b c ≡ true → is_under a c ≡ true
is_under_trans a b c h k = by_forms (is_under-IsUnder a b h) (is_under-IsUnder b c k)
  where
    by_forms : IsUnder a b → IsUnder b c → is_under a c ≡ true
    by_forms (inl e) f = rw (sym e) k
    by_forms (inr (s, e)) (inl f) = rw f h
    by_forms (inr (s, e)) (inr (t, f)) =
        rw (f, e, append_assoc a (b'/' ∷ s) (b'/' ∷ t)) (below-is_under a (s ++ b'/' ∷ t))

-- An item that an open goroutine will hand on.
abbrev pub Live : DelItem → List Waiting → Type 0
Live y gs = (g : Waiting) × IsIn g gs × (g.listening ≡ true) × IsIn y g.items

-- The goroutines that wait on an event's channel have that event's directory and items.
abbrev pub IsOwner : List Waiting → Text × DelEvent → Type 0
IsOwner gs (p, e) = All (λ g. g.done ≡ e.done → (g.items ≡ e.items) × (g.parent ≡ p)) gs

close-Live :
    (y : DelItem) (p : Text) (e : DelEvent) (gs : List Waiting)
    → IsOwner gs (p, e)
    → Live y gs
    → Live y (close e.done gs) ⊎ IsIn y e.items
unfolding close
close-Live y p e [] own (g, h, o, i) = absurd h
close-Live y p e (x ∷ gs) (first, own) (g, inl s, o, i) =
    elim (Bool-cases (nat_beq x.done e.done)) [
      | inl b ↦ inr (rw (s, (first ((nat_beq_iff x.done e.done).0 b)).0) at i)
      | inr b ↦ inl (x, inl (ground arith), rw s at o, rw s at i)
    ]
close-Live y p e (x ∷ gs) (first, own) (g, inr h, o, i) =
    elim (close-Live y p e gs own (g, h, o, i)) [
      | inl (g', h', o', i') ↦ inl (g', inr h', o', i')
      | inr k ↦ inr k
    ]

close-All :
    (Q : Waiting → Type 0) (n : ℕ) (gs : List Waiting)
    → ((g : Waiting) → Q g → Q (record g { listening = false }))
    → All Q gs
    → All Q (close n gs)
unfolding close
close-All Q n [] keeps a = tt
close-All Q n (g ∷ gs) keeps (h, a) = ground (arith, keeps g h, close-All Q n gs keeps a)

-- The invariant of the table of events: an event's number is a past one, its items lie under its directory, and its
-- channel is that of the goroutines with its items.
abbrev pub IsKept : ℕ → List Waiting → Text × DelEvent → Type 0
IsKept next gs (p, e) =
    (e.done < next) × All (λ y. is_under p y.path ≡ true) e.items × IsOwner gs (p, e)

IsKept-close :
    (next n : ℕ) (gs : List Waiting) (x : Text × DelEvent)
    → IsKept next gs x
    → IsKept next (close n gs) x
IsKept-close next n gs (p, e) (l, u, own) = (
  l,
  u,
  close-All (λ g. g.done ≡ e.done → (g.items ≡ e.items) × (g.parent ≡ p)) n gs (λ g h. h) own,
)

-- What becomes of a live item when the children of a directory are dropped.
drop_children-Live :
    (next : ℕ) (dir : Text) (y : DelItem) (es ev : List (Text × DelEvent)) (ws : List Waiting)
    → All (IsKept next ws) es
    → Live y ws
    → Live y (drop_children dir es ev ws).1 ⊎ (is_under dir y.path ≡ true)
unfolding drop_children
drop_children-Live next dir y [] ev ws a l = inl l
drop_children-Live next dir y ((p, e) ∷ es) ev ws (k, a) l = elim (Bool-cases (is_under dir p)) [
  | inl u ↦ elim (close-Live y p e ws k.2 l) [
    | inl l' ↦ rw u (
        drop_children-Live next dir y es (erase p ev) (close e.done ws)
          (All-mono es (IsKept-close next e.done ws) a) l')
    | inr i ↦
        inr
          (is_under_trans dir p y.path u (All-IsIn (λ z. is_under p z.path ≡ true) y e.items k.1 i))
  ]
  | inr u ↦ rw u (drop_children-Live next dir y es ev ws a l)
]

-- Dropping keeps the invariant, with every number below the bound.
abbrev pub AllKept : ℕ → List (Text × DelEvent) → List Waiting → Type 0
AllKept next ev ws = All (IsKept next ws) ev × All (λ g. g.done < next) ws

drop_children-kept :
    (next : ℕ) (dir : Text) (es ev : List (Text × DelEvent)) (ws : List Waiting)
    → AllKept next ev ws
    → AllKept next (drop_children dir es ev ws).0 (drop_children dir es ev ws).1
unfolding drop_children
drop_children-kept next dir [] ev ws a = a
drop_children-kept next dir ((p, e) ∷ es) ev ws (k, fresh) = elim (Bool-cases (is_under dir p)) [
  | inl u ↦ rw u (
      drop_children-kept next dir es (erase p ev) (close e.done ws) (
        All-mono (erase p ev) (IsKept-close next e.done ws) (All-erase (IsKept next ws) p ev k),
        close-All (λ g. g.done < next) e.done ws (λ g h. h) fresh,
      ))
  | inr u ↦ rw u (drop_children-kept next dir es ev ws (k, fresh))
]

pub without_children-kept :
    (next : ℕ) (is_dir : Bool) (p : Text) (ev : List (Text × DelEvent)) (ws : List Waiting)
    → AllKept next ev ws
    → AllKept next (without_children is_dir p ev ws).0 (without_children is_dir p ev ws).1
unfolding without_children
without_children-kept next false p ev ws a = a
without_children-kept next true p ev ws a = drop_children-kept next p ev ev ws a

pub without_children-Live :
    (next : ℕ) (is_dir : Bool) (p : Text) (y : DelItem) (ev : List (Text × DelEvent))
    (ws : List Waiting)
    → All (IsKept next ws) ev
    → Live y ws
    → Live y (without_children is_dir p ev ws).1 ⊎ (is_under p y.path ≡ true)
unfolding without_children
without_children-Live next false p y ev ws a l = inl l
without_children-Live next true p y ev ws a l = drop_children-Live next p y ev ev ws a l

-- The same for the older event of the directory.
pub joined-kept :
    (next : ℕ) (item : DelItem) (o : Option DelEvent) (ev : List (Text × DelEvent))
    (ws : List Waiting)
    → AllKept next ev ws
    → AllKept next ev (joined item o ws).1
unfolding joined
joined-kept next item none ev ws a = a
joined-kept next item (some e) ev ws (k, fresh) = (
  All-mono ev (IsKept-close next e.done ws) k,
  close-All (λ g. g.done < next) e.done ws (λ g h. h) fresh,
)

pub joined-Live :
    (next : ℕ) (p : Text) (item y : DelItem) (o : Option DelEvent) (ws : List Waiting)
    → ((e : DelEvent) → o ≡ some e → IsKept next ws (p, e))
    → Live y ws
    → Live y (joined item o ws).1 ⊎ IsIn y (joined item o ws).0
unfolding joined
joined-Live next p item y none ws k l = inl l
joined-Live next p item y (some e) ws k l = elim (close-Live y p e ws (k e refl).2 l) [
  | inl l' ↦ inl l'
  | inr i ↦ inr (IsIn-append y e.items (item ∷ []) (inl i))
]

pub joined-item :
    (item : DelItem) (o : Option DelEvent) (ws : List Waiting) → IsIn item (joined item o ws).0
unfolding joined
joined-item item none ws = inl refl
joined-item item (some e) ws = IsIn-append item e.items (item ∷ []) (inr (inl refl))

pub joined-under :
    (next : ℕ) (p : Text) (item : DelItem) (o : Option DelEvent) (ws : List Waiting)
    → is_under p item.path ≡ true
    → ((e : DelEvent) → o ≡ some e → IsKept next ws (p, e))
    → All (λ y. is_under p y.path ≡ true) (joined item o ws).0
unfolding joined
joined-under next p item none ws h k = (h, tt)
joined-under next p item (some e) ws h k =
    All-append (λ y. is_under p y.path ≡ true) e.items (item ∷ []) (k e refl).1 (h, tt)
