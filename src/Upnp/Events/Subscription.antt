-- ===== src/Upnp/Events/Subscription.antt =====
-- Subscribe, renew, Unsubscribe and Clean of pkg/upnp/events/manager.go.
use godlna.Base.{
  ◌<◌, Text, text_beq_iff, text_eq, List, [], ◌∷◌, Option, none, some, if◌then◌else◌, lookup, erase,
  lookup-erase, Distinct, erase-Distinct, ◌≡◌, refl, ℤ, arith, Option-cases, ◌⊎◌, inl, inr,
}
use godlna.Upnp.Events.{
  Manager, Subscriber, is_expired, clean, clean_loop, check_for_cleanup, clean_after_visits,
}

abbrev pub live_only : ℤ → Option Subscriber → Option Subscriber
live_only now none = none
live_only now (some s) = if is_expired now s then none else some s

abbrev dropped : ℤ → Option Subscriber → Option Subscriber → Option Subscriber
dropped now none cur = cur
dropped now (some s) cur = if is_expired now s then none else cur

clean_loop-lookup :
    (now : ℤ) (es subs : List (Text × Subscriber)) (sid : Text)
    → Distinct es
    → lookup sid (clean_loop now es subs) ≡ dropped now (lookup sid es) (lookup sid subs)
unfolding clean_loop lookup
clean_loop-lookup now [] subs sid d = refl
clean_loop-lookup now ((j, s) ∷ es) subs sid (f, d) = ground (
  arith,
  text_beq_iff j sid,
  lookup-erase j sid subs,
  clean_loop-lookup now es (if is_expired now s then erase j subs else subs) sid d,
)

-- Cleaning up removes the expired subscribers and no others.
pub clean-lookup :
    (now : ℤ) (m : Manager) (sid : Text)
    → Distinct m.subscribers
    → lookup sid (clean now m).subscribers ≡ live_only now (lookup sid m.subscribers)
unfolding clean
clean-lookup now m sid d = ground (arith, clean_loop-lookup now m.subscribers m.subscribers sid d)

clean_loop-Distinct :
    (now : ℤ) (es subs : List (Text × Subscriber))
    → Distinct subs
    → Distinct (clean_loop now es subs)
unfolding clean_loop
clean_loop-Distinct now [] subs d = d
clean_loop-Distinct now ((j, s) ∷ es) subs d =
    clean_loop-Distinct now es (if is_expired now s then erase j subs else subs)
      (ground (arith, erase-Distinct j subs d))

-- Every subscriber is stored once, under its own identifier, and the visits stay below the number that starts a
-- clean-up.
pub record IsValid (m : Manager) : Type 0 where
  pub distinct : Distinct m.subscribers
  pub keyed : (sid : Text) (s : Subscriber) → lookup sid m.subscribers ≡ some s → s.sid ≡ sid
  pub below : m.visits < clean_after_visits

pub keyed_of :
    {m : Manager} (valid : IsValid m) (sid : Text)
    → (lookup sid m.subscribers ≡ none)
      ⊎ ((s : Subscriber) × (lookup sid m.subscribers ≡ some s) × (s.sid ≡ sid))
keyed_of {m} valid sid = elim (Option-cases (lookup sid m.subscribers)) [
  | inl e ↦ inl e
  | inr (s, e) ↦ inr (s, e, valid.keyed sid s e)
]

clean-IsValid : (now : ℤ) (m : Manager) → IsValid m → IsValid (clean now m)
clean-IsValid now m v = record {
  distinct = unfold clean in clean_loop-Distinct now m.subscribers m.subscribers v.distinct;
  keyed = λ sid s h. ground (arith, clean-lookup now m sid v.distinct, v.keyed sid s, h);
  below = unfold clean in v.below;
}

pub check_for_cleanup-IsValid :
    (now : ℤ) (m : Manager) → IsValid m → IsValid (check_for_cleanup now m)
unfolding check_for_cleanup
check_for_cleanup-IsValid now m v = ground (
  arith,
  clean-IsValid now (record m { visits = 0 })
      (record { distinct = v.distinct; keyed = v.keyed; below = omega arith }),
)
