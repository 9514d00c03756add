-- ===== src/Upnp/Events/Notification.antt =====
-- NotifyAll and SendInitialState of pkg/upnp/events/manager.go.
use godlna.Base.{
  ℕ, ◌+◌, ◌%◌, ◌<◌, Text, text_beq, text_beq_iff, text_eq, nat_beq, List, [], ◌∷◌, ◌++◌, Option,
  none, some, if◌then◌else◌, lookup, insert, erase, lookup-insert, lookup-erase, Distinct,
  insert-Distinct, erase-Distinct, ◌≡◌, refl, ℤ, arith, Bool-cases, Option-cases, inl, inr, All,
  lookup-All, All-mono,
}
use godlna.Upnp.Events.{Manager, Subscriber, is_expired, uint32_mod}
use godlna.Upnp.Events.Subscription.{IsValid, keyed_of}

pub record Notification : Type 0 where
  pub to_sid : Text
  pub event_key : ℕ
  pub url : Text
  pub body : Text

-- `subscriber.Seq++` in uint32, which skips zero.
unfoldable pub next_seq : ℕ → ℕ
next_seq n = let m = (n + 1) % uint32_mod in if nat_beq m 0 then m + 1 else m

pub send_to : Subscriber → Text → List Text → List Notification
send_to s body [] = []
send_to s body (u ∷ us) =
    record { to_sid = s.sid; event_key = s.seq; url = u; body = body } ∷ send_to s body us

-- A send that fails is logged and changes nothing, so only what is sent is recorded.
unfoldable pub notify_subscriber :
    ℤ → Subscriber → Text → List (Text × Subscriber) → List (Text × Subscriber) × List Notification
unfolding send_to
notify_subscriber now s body subs =
    if is_expired now s then (erase s.sid subs, []) else (subs, send_to s body s.urls)

unfoldable pub bumped : Subscriber → Subscriber
unfolding next_seq
bumped s = record s { seq = next_seq s.seq }

notify_loop :
    (Text → ℤ)
    → Text
    → List (Text × Subscriber)
    → List (Text × Subscriber)
    → List (Text × Subscriber) × List Notification
notify_loop now body [] subs = (subs, [])
notify_loop now body ((sid, s) ∷ es) subs =
    let (subs', sent) = notify_subscriber (now sid) (bumped s) body (insert sid (bumped s) subs) in
    let (subs'', more) = notify_loop now body es subs' in (subs'', sent ++ more)

-- `now` is the time when a subscriber is reached; `encode` is BuildNotificationBody, the XML encoder's output or
-- its failure.
unfoldable pub notify_all :
    (Text → ℤ)
    → (List (Text × Text) → Option Text)
    → Manager
    → List (Text × Text)
    → Manager × List Notification
unfolding notify_loop
notify_all now encode m [] = (m, [])
notify_all now encode m (v ∷ vars) = elim (encode (v ∷ vars)) [
  | none ↦ (m, [])
  | some body ↦
      let (subs, sent) = notify_loop now body m.subscribers m.subscribers in
      (record m { subscribers = subs }, sent)
]

-- The subscriber and the body that the goroutine of SendInitialState is started with.
unfoldable pub send_initial_state :
    (List (Text × Text) → Option Text)
    → Manager
    → Text
    → List (Text × Text)
    → Option (Subscriber × Text)
send_initial_state encode m sid [] = none
send_initial_state encode m sid (v ∷ vars) = elim (lookup sid m.subscribers) [
  | none ↦ none
  | some s ↦ elim (encode (v ∷ vars)) [
    | none ↦ none
    | some body ↦ some (record s { seq = 0 }, body)
  ]
]

-- What that goroutine does after the delay, to the manager as it is then.
unfoldable pub deliver_initial_state : ℤ → Subscriber → Text → Manager → Manager × List Notification
deliver_initial_state later s body m =
    let (subs, sent) = notify_subscriber later s body m.subscribers in
    (record m { subscribers = subs }, sent)

-- The notifications of one subscriber, in the order in which they are sent.
abbrev pub sent_to : Text → List Notification → List Notification
sent_to sid [] = []
sent_to sid (n ∷ ns) = if text_beq n.to_sid sid then n ∷ sent_to sid ns else sent_to sid ns

pub next_seq_bounds : (n : ℕ) → (0 < next_seq n) × (next_seq n < uint32_mod)
unfolding next_seq
next_seq_bounds n = ground arith

-- What is left of a subscriber, and what it is sent.
abbrev pub noticed : ℤ → Option Subscriber → Option Subscriber
noticed now none = none
noticed now (some s) = if is_expired now s then none else some (bumped s)

abbrev after_notice : ℤ → Option Subscriber → Option Subscriber → Option Subscriber
after_notice now none cur = cur
after_notice now (some s) cur = if is_expired now s then none else some (bumped s)

abbrev pub notices : ℤ → Text → Option Subscriber → List Notification
notices now body none = []
notices now body (some s) = if is_expired now s then [] else send_to (bumped s) body s.urls

abbrev AllKeyed : List (Text × Subscriber) → Type 0
AllKeyed = All (λ x. x.1.sid ≡ x.0)

module _ (now : Text → ℤ) (body : Text) where
  notify_loop-lookup :
      (es subs : List (Text × Subscriber)) (sid : Text)
      → Distinct es
      → AllKeyed es
      → lookup sid (notify_loop now body es subs).0
        ≡ after_notice (now sid) (lookup sid es) (lookup sid subs)
  unfolding notify_loop lookup bumped notify_subscriber
  notify_loop-lookup [] subs sid d k = refl
  notify_loop-lookup ((j, s) ∷ es) subs sid (f, d) (k, ks) = ground (
    arith,
    text_beq_iff j sid,
    lookup-insert j sid (bumped s) subs,
    lookup-erase s.sid sid (insert j (bumped s) subs),
    notify_loop-lookup es (notify_subscriber (now j) (bumped s) body (insert j (bumped s) subs)).0
        sid d ks,
  )

  notify_subscriber-Distinct :
      (t : ℤ) (s : Subscriber) (subs : List (Text × Subscriber))
      → Distinct subs
      → Distinct (notify_subscriber t s body subs).0
  unfolding notify_subscriber
  notify_subscriber-Distinct t s subs d = elim (Bool-cases (is_expired t s)) [
    | inl e ↦ rw e (erase-Distinct s.sid subs d)
    | inr e ↦ rw e d
  ]

  notify_loop-Distinct :
      (es subs : List (Text × Subscriber))
      → Distinct subs
      → Distinct (notify_loop now body es subs).0
  unfolding notify_loop
  notify_loop-Distinct [] subs d = d
  notify_loop-Distinct ((j, s) ∷ es) subs d = notify_loop-Distinct es _ (
      notify_subscriber-Distinct (now j) (bumped s) (insert j (bumped s) subs)
        (insert-Distinct j (bumped s) subs d))

valid-AllKeyed : (m : Manager) → IsValid m → AllKeyed m.subscribers
valid-AllKeyed m v =
    All-mono m.subscribers (λ x h. v.keyed x.0 x.1 h) (lookup-All m.subscribers v.distinct)

-- Notifying keeps the table of subscribers valid, on every path.
pub notify_all-IsValid :
    (now : Text → ℤ) (encode : List (Text × Text) → Option Text) (m : Manager)
    (vars : List (Text × Text))
    → IsValid m
    → IsValid (notify_all now encode m vars).0
unfolding notify_all
notify_all-IsValid now encode m [] valid = valid
notify_all-IsValid now encode m (v ∷ vars) valid = elim (Option-cases (encode (v ∷ vars))) [
  | inl e ↦ rw (e, notify_all) valid
  | inr (body, e) ↦
      rw (e, notify_all)
        (record {
          distinct = notify_loop-Distinct now body m.subscribers m.subscribers valid.distinct;
          keyed = λ sid s h.
              unfold bumped in
              ground (
                arith,
                notify_loop-lookup now body m.subscribers m.subscribers sid valid.distinct
                    (valid-AllKeyed m valid),
                keyed_of valid sid,
              );
          below = valid.below;
        })
]
