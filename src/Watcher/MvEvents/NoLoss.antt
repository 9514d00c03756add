-- ===== src/Watcher/MvEvents/NoLoss.antt =====
-- No name that moves away in driver_inotify_move_events.go is lost, in any interleaving of its goroutines.
use godlna.Base.{
  ℕ, ◌+◌, ◌<◌, Text, ap, nat_eq, nat_beq, nat_beq_iff, lookup, All-insert, All-erase, All-lookup,
  List, [], ◌∷◌, ◌++◌, Option, none, some, Bool, true, false, ◌≡◌, refl, sym, ◌∙◌, ◌⊎◌, inl, inr,
  All, All-mono, arith, Bool-cases,
}
use godlna.Watcher.Goroutines.{IsIn, IsIn-append, Picks, Picks-All, Picks-IsIn}
use godlna.Watcher.MvEvents.{
  MvFromEvent, Waiting, Move, remove, rename, MvEvents, new_mv_events, close, add_mv_from, arrival,
  closing, answered, Op, add_mv_to, expire, joined, clean, Run, empty, departs, arrives, expires,
  joins, cleans,
}

-- A goroutine that will send the removal of the name.
abbrev pub Live : Text → List Waiting → Type 0
Live x gs = (g : Waiting) × IsIn g gs × (g.listening ≡ true) × (g.name ≡ x)

-- A call that tells what became of the name: it was removed or renamed.
abbrev pub Tells : Text → Move → Type 0
Tells x m = (m.old_name ≡ x) × ((m.op ≡ remove) ⊎ (m.op ≡ rename))

-- The name has been told of, or will be.
abbrev pub IsKnown : MvEvents → Text → Type 0
IsKnown s x = ((m : Move) × IsIn m s.sent × Tells x m) ⊎ Live x s.waiting

-- The goroutines that wait on an event's channel have that event's name.
abbrev IsOwner : List Waiting → ℕ × MvFromEvent → Type 0
IsOwner gs (cookie, e) = All (λ g. g.done ≡ e.done → g.name ≡ e.name) gs

abbrev IsKept : ℕ → List Waiting → ℕ × MvFromEvent → Type 0
IsKept next gs x = (x.1.done < next) × IsOwner gs x

abbrev IsTracked : MvEvents → Type 0
IsTracked s = All (IsKept s.next s.waiting) s.mv_from × All (λ g. g.done < s.next) s.waiting

close-All :
    (Q : Waiting → Type 0) (n : ℕ) (gs : List Waiting)
    → ((g : Waiting) → Q g → Q (record g { listening = false }))
    → All Q gs
    → All Q (close n gs)
unfolding close
close-All Q n [] keeps a = tt
close-All Q n (g ∷ gs) keeps (h, a) = ground (arith, keeps g h, close-All Q n gs keeps a)

close-Live :
    (x : Text) (cookie : ℕ) (e : MvFromEvent) (gs : List Waiting)
    → IsOwner gs (cookie, e)
    → Live x gs
    → Live x (close e.done gs) ⊎ (e.name ≡ x)
unfolding close
close-Live x cookie e [] own (g, h, o, i) = absurd h
close-Live x cookie e (k ∷ gs) (first, own) (g, inl s, o, i) =
    elim (Bool-cases (nat_beq k.done e.done)) [
      | inl b ↦ inr (sym (first ((nat_beq_iff k.done e.done).0 b)) ∙ rw s at i)
      | inr b ↦ inl (k, inl (ground arith), rw s at o, rw s at i)
    ]
close-Live x cookie e (k ∷ gs) (first, own) (g, inr h, o, i) =
    elim (close-Live x cookie e gs own (g, h, o, i)) [
      | inl (g', h', o', i') ↦ inl (g', inr h', o', i')
      | inr j ↦ inr j
    ]

add_mv_from-IsTracked :
    (s : MvEvents) (cookie : ℕ) (name : Text) (is_dir : Bool)
    → IsTracked s
    → IsTracked (add_mv_from s cookie name is_dir)
unfolding add_mv_from
add_mv_from-IsTracked s cookie name is_dir (k, fresh) = (
  All-insert (IsKept (s.next + 1) (g ∷ s.waiting)) cookie
      (record { name = name; is_dir = is_dir; done = s.next; is_closed = false }) s.mv_from
      (omega arith, ((λ e. refl), All-mono s.waiting (λ h l e. absurd (omega (arith, l, e))) fresh))
      (All-mono s.mv_from
        (λ x h. (omega (arith, h.0), ((λ e. absurd (omega (arith, h.0, e))), h.1))) k),
  (omega arith, All-mono s.waiting (λ h l. omega (arith, l)) fresh),
)
  where
    g : Waiting
    g = record { cookie = cookie; name = name; is_dir = is_dir; done = s.next; listening = true }

closing-IsTracked :
    (s : MvEvents) (cookie : ℕ) (o : Option MvFromEvent)
    → ((e : MvFromEvent) → o ≡ some e → IsKept s.next s.waiting (cookie, e))
    → IsTracked s
    → IsTracked (closing s cookie o)
unfolding closing
closing-IsTracked s cookie none own t = t
closing-IsTracked s cookie (some e) own (k, fresh) = (
  All-insert (IsKept s.next (close e.done s.waiting)) cookie (record e { is_closed = true })
      s.mv_from (kept (cookie, record e { is_closed = true }) (own e refl))
      (All-mono s.mv_from kept k),
  close-All (λ g. g.done < s.next) e.done s.waiting (λ g q. q) fresh,
)
  where
    kept :
        (x : ℕ × MvFromEvent) → IsKept s.next s.waiting x → IsKept s.next (close e.done s.waiting) x
    kept x h = (
      h.0,
      close-All (λ g. g.done ≡ x.1.done → g.name ≡ x.1.name) e.done s.waiting (λ g q. q) h.1,
    )

answered-IsTracked :
    (s : MvEvents) (cookie : ℕ) (o : Option MvFromEvent) (c : Option Move)
    → ((e : MvFromEvent) → o ≡ some e → IsKept s.next s.waiting (cookie, e))
    → IsTracked s
    → IsTracked (answered s cookie o c)
unfolding answered
answered-IsTracked s cookie o none own t = t
answered-IsTracked s cookie o (some call) own t =
    tracked (closing s cookie o) (closing-IsTracked s cookie o own t)
  where
    tracked : (s' : MvEvents) → IsTracked s' → IsTracked (record s' { sent = s'.sent ++ call ∷ [] })
    tracked s' h = h

add_mv_to-IsTracked :
    (s : MvEvents) (cookie : ℕ) (name : Text) (is_dir : Bool)
    → IsTracked s
    → IsTracked (add_mv_to s cookie name is_dir)
unfolding add_mv_to
add_mv_to-IsTracked s cookie name is_dir t =
    answered-IsTracked s cookie (lookup cookie s.mv_from) _
      (λ e h. All-lookup (IsKept s.next s.waiting) cookie e s.mv_from t.0 h) t

rest-IsTracked :
    (next : ℕ) (m : List (ℕ × MvFromEvent)) (gs : List Waiting) (g : Waiting) (rest : List Waiting)
    → Picks gs g rest
    → All (IsKept next gs) m
    → All (λ w. w.done < next) gs
    → All (IsKept next rest) m × All (λ w. w.done < next) rest
rest-IsTracked next m gs g rest h k fresh = (
  All-mono m (λ x q. (q.0, Picks-All (λ w. w.done ≡ x.1.done → w.name ≡ x.1.name) gs g rest h q.1))
      k,
  Picks-All (λ w. w.done < next) gs g rest h fresh,
)

Run-IsTracked : (log : List Text) (s : MvEvents) → Run log s → IsTracked s
unfolding new_mv_events expire joined clean
Run-IsTracked log s empty = (tt, tt)
Run-IsTracked log s (departs log' t cookie name is_dir o r) =
    add_mv_from-IsTracked t cookie name is_dir (Run-IsTracked log' t r)
Run-IsTracked log s (arrives log' t cookie name is_dir o r) =
    add_mv_to-IsTracked t cookie name is_dir (Run-IsTracked log' t r)
Run-IsTracked log s (expires log' t g rest h o r) =
    rest-IsTracked t.next t.mv_from t.waiting g rest h (Run-IsTracked log' t r).0
      (Run-IsTracked log' t r).1
Run-IsTracked log s (joins log' t g rest h c o r) =
    rest-IsTracked t.next t.mv_from t.waiting g rest h (Run-IsTracked log' t r).0
      (Run-IsTracked log' t r).1
Run-IsTracked log s (cleans log' t cookie rest h o r) = (
  All-erase (IsKept t.next t.waiting) cookie t.mv_from (Run-IsTracked log' t r).0,
  (Run-IsTracked log' t r).1,
)

add_mv_from-knows :
    (s : MvEvents) (cookie : ℕ) (name : Text) (is_dir : Bool) (x : Text)
    → IsKnown s x
    → IsKnown (add_mv_from s cookie name is_dir) x
unfolding add_mv_from
add_mv_from-knows s cookie name is_dir x (inl h) = inl h
add_mv_from-knows s cookie name is_dir x (inr (g, h, o, i)) = inr (g, inr h, o, i)

closing-Live :
    (s : MvEvents) (cookie : ℕ) (o : Option MvFromEvent) (x : Text)
    → ((e : MvFromEvent) → o ≡ some e → IsKept s.next s.waiting (cookie, e))
    → Live x s.waiting
    → Live x (closing s cookie o).waiting ⊎ ((e : MvFromEvent) × (o ≡ some e) × (e.name ≡ x))
unfolding closing
closing-Live s cookie none x own l = inl l
closing-Live s cookie (some e) x own l = elim (close-Live x cookie e s.waiting (own e refl).1 l) [
  | inl l' ↦ inl l'
  | inr same ↦ inr (e, refl, same)
]

-- The call that comes when an event was found.
arrival-Tells :
    (name x : Text) (is_dir : Bool) (e : MvFromEvent) (call : Move)
    → arrival name is_dir (some e) ≡ some call
    → e.name ≡ x
    → Tells x call
unfolding arrival
arrival-Tells name x is_dir e call h same = elim (Bool-cases e.is_closed) [
  | inl c ↦ let n : none ≡ some call = rw c at h in absurd (cc)
  | inr c ↦
      let n : some (record { op = rename; old_name = e.name; new_name = name; is_dir = is_dir })
          ≡ some call =
        rw c at h in
      (sym (ap old_name_of n) ∙ same, inr (sym (ap op_of n)))
]
  where
    old_name_of : Option Move → Text
    old_name_of none = []
    old_name_of (some m) = m.old_name

    op_of : Option Move → Op
    op_of none = rename
    op_of (some m) = m.op

closing-sent :
    (s : MvEvents) (cookie : ℕ) (o : Option MvFromEvent) → (closing s cookie o).sent ≡ s.sent
unfolding closing
closing-sent s cookie none = refl
closing-sent s cookie (some e) = refl

answered-knows :
    (s : MvEvents) (cookie : ℕ) (o : Option MvFromEvent) (c : Option Move) (name : Text)
    (is_dir : Bool) (x : Text)
    → arrival name is_dir o ≡ c
    → ((e : MvFromEvent) → o ≡ some e → IsKept s.next s.waiting (cookie, e))
    → IsKnown s x
    → IsKnown (answered s cookie o c) x
unfolding answered
answered-knows s cookie o none name is_dir x a own k = k
answered-knows s cookie o (some call) name is_dir x a own (inl (m, h, u)) =
    inl (m, IsIn-append m (closing s cookie o).sent _ (inl (rw (closing-sent s cookie o) h)), u)
answered-knows s cookie o (some call) name is_dir x a own (inr l) =
    elim (closing-Live s cookie o x own l) [
      | inl l' ↦ inr l'
      | inr (e, f, same) ↦ inl (
        call,
        IsIn-append call (closing s cookie o).sent _ (inr (inl refl)),
        arrival-Tells name x is_dir e call (ap (arrival name is_dir) (sym f) ∙ a) same,
      )
    ]

add_mv_to-knows :
    (s : MvEvents) (cookie : ℕ) (name : Text) (is_dir : Bool) (x : Text)
    → IsTracked s
    → IsKnown s x
    → IsKnown (add_mv_to s cookie name is_dir) x
unfolding add_mv_to
add_mv_to-knows s cookie name is_dir x (k, fresh) h =
    answered-knows s cookie (lookup cookie s.mv_from) _ name is_dir x refl
      (λ e f. All-lookup (IsKept s.next s.waiting) cookie e s.mv_from k f) h

expire-knows :
    (s : MvEvents) (g : Waiting) (rest : List Waiting) (x : Text)
    → Picks s.waiting g rest
    → IsKnown s x
    → IsKnown (expire s g rest) x
unfolding expire
expire-knows s g rest x k (inl (m, h, u)) = inl (m, IsIn-append m s.sent _ (inl h), u)
expire-knows s g rest x k (inr (h, j, o, i)) = elim (Picks-IsIn s.waiting g h rest k j) [
  | inl e ↦ inl (
    record { op = remove; old_name = g.name; new_name = []; is_dir = g.is_dir },
    IsIn-append _ s.sent _ (inr (inl refl)),
    (rw e at i, inl refl),
  )
  | inr j' ↦ inr (h, j', o, i)
]

joined-knows :
    (s : MvEvents) (g : Waiting) (rest : List Waiting) (x : Text)
    → Picks s.waiting g rest
    → g.listening ≡ false
    → IsKnown s x
    → IsKnown (joined s g rest) x
unfolding joined
joined-knows s g rest x k c (inl h) = inl h
joined-knows s g rest x k c (inr (h, j, o, i)) = elim (Picks-IsIn s.waiting g h rest k j) [
  | inl e ↦ absurd (ground (arith, e, o, c))
  | inr j' ↦ inr (h, j', o, i)
]

clean-knows :
    (s : MvEvents) (cookie : ℕ) (rest : List ℕ) (x : Text)
    → IsKnown s x
    → IsKnown (clean s cookie rest) x
unfolding clean
clean-knows s cookie rest x k = k

departed-IsKnown :
    (s : MvEvents) (cookie : ℕ) (name : Text) (is_dir : Bool)
    → IsKnown (add_mv_from s cookie name is_dir) name
unfolding add_mv_from
departed-IsKnown s cookie name is_dir = inr (
  record { cookie = cookie; name = name; is_dir = is_dir; done = s.next; listening = true },
  inl refl,
  refl,
  refl,
)

Run-IsKnown : (log : List Text) (s : MvEvents) → Run log s → All (IsKnown s) log
Run-IsKnown log s empty = tt
Run-IsKnown log s (departs log' t cookie name is_dir o r) = (
  departed-IsKnown t cookie name is_dir,
  All-mono log' (λ x k. add_mv_from-knows t cookie name is_dir x k) (Run-IsKnown log' t r),
)
Run-IsKnown log s (arrives log' t cookie name is_dir o r) =
    All-mono log (λ x k. add_mv_to-knows t cookie name is_dir x (Run-IsTracked log t r) k)
      (Run-IsKnown log t r)
Run-IsKnown log s (expires log' t g rest h o r) =
    All-mono log (λ x k. expire-knows t g rest x h k) (Run-IsKnown log t r)
Run-IsKnown log s (joins log' t g rest h c o r) =
    All-mono log (λ x k. joined-knows t g rest x h c k) (Run-IsKnown log t r)
Run-IsKnown log s (cleans log' t cookie rest h o r) =
    All-mono log (λ x k. clean-knows t cookie rest x k) (Run-IsKnown log t r)

-- In every run of the two halves of moves, of the timers and of the closed channels, in any interleaving and with any
-- cookies, up to the panic of a second half whose cookie has been answered already, if there is one: once no goroutine
-- waits any more, of each name that moved away the handler has been told that it was removed or renamed.
pub Run-told :
    (log : List Text) (s : MvEvents)
    → Run log s
    → s.waiting ≡ []
    → All (λ x. (m : Move) × IsIn m s.sent × Tells x m) log
Run-told log s r quiet = All-mono log told (Run-IsKnown log s r)
  where
    told : (x : Text) → IsKnown s x → (m : Move) × IsIn m s.sent × Tells x m
    told x (inl h) = h
    told x (inr (g, j, o, i)) = absurd (rw quiet at j)

-- The second half of a move that arrives when the timer of the first has run out, but before its goroutine has
-- deleted the event: the handler is told of a removal and then of a renaming of the name that was removed.
pub late_arrival :
    (s : MvEvents) (g : Waiting) (rest : List Waiting) (e : MvFromEvent) (name : Text)
    (is_dir : Bool)
    → lookup g.cookie s.mv_from ≡ some e
    → e.is_closed ≡ false
    → (add_mv_to (expire s g rest) g.cookie name is_dir).sent
      ≡ (s.sent ++ record { op = remove; old_name = g.name; new_name = []; is_dir = g.is_dir } ∷ [])
        ++ record { op = rename; old_name = e.name; new_name = name; is_dir = is_dir } ∷ []
unfolding add_mv_to expire arrival answered
late_arrival s g rest e name is_dir h o = rw (h, o) (unfold closing in refl)
