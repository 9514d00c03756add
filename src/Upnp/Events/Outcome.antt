-- ===== src/Upnp/Events/Outcome.antt =====
-- The answers of Subscribe and Unsubscribe of pkg/upnp/events/manager.go, and what they store.
use godlna.Base.{
  Text, codes, text_beq, text_beq_iff, text_eq, nat_beq, [], Option, none, some, true, false, ◌&&◌,
  if◌then◌else◌, lookup, insert, lookup-insert, lookup-erase, Distinct, insert-Distinct,
  erase-Distinct, ◌≡◌, ◌≢◌, ◌↔◌, refl, ℤ, ltb_ℤ, arith, Bool-cases, Option-cases, ◌⊎◌, inl, inr,
}
use godlna.Upnp.Events.Header.{parse_timeout_header, parse_callback_header}
use godlna.Upnp.Events.{
  Manager, Subscriber, Env, is_expired, check_for_cleanup, new_subscribe, renew, answer, subscribe,
  unsubscribe, status_ok, is_empty,
}
use godlna.Upnp.Events.Subscription.{
  IsValid, check_for_cleanup-IsValid, clean-lookup, live_only, keyed_of,
}

-- The identifier under which a request is answered.
abbrev pub answer_sid : Env → Text → Text → Text
answer_sid env sid callback = if text_beq sid [] then env.new_sid callback else sid

-- The specification of acceptance: a request without an identifier asks for UPnP events, brings a callback header
-- whose URLs all parse and are not none, and its new identifier is unused; one with an identifier brings no other
-- header and names a subscriber.
abbrev pub Accepts : Env → Manager → Text → Text → Text → Type 0
Accepts env m sid nt callback =
    ((sid ≡ [])
      × (nt ≡ codes "upnp:event")
      × ((parse_callback_header env.parse_url callback).1 ≡ false)
      × ((parse_callback_header env.parse_url callback).0 ≢ [])
      × (lookup (env.new_sid callback) m.subscribers ≡ none))
    ⊎ ((sid ≢ []) × (nt ≡ []) × (callback ≡ []) × (lookup sid m.subscribers ≢ none))

module _ (env : Env) (m : Manager) (sid nt callback timeout : Text) where
  -- A request succeeds, with status 200, exactly when it meets the specification of acceptance.
  pub subscribe_success :
      ((subscribe env m sid nt callback timeout).1.success ≡ true) ↔ Accepts env m sid nt callback
  unfolding subscribe answer new_subscribe renew is_empty
  subscribe_success = (
    ground (
      arith,
      text_beq_iff sid [],
      text_beq_iff nt (codes "upnp:event"),
      text_beq_iff nt [],
      text_beq_iff callback [],
    ),
    ground (
      arith,
      text_beq_iff sid [],
      text_beq_iff nt (codes "upnp:event"),
      text_beq_iff nt [],
      text_beq_iff callback [],
    ),
  )

-- A clean-up may have taken the expired ones away; nothing else has changed.
abbrev pub IsKept : ℤ → Option Subscriber → Option Subscriber → Type 0
IsKept now before after = (after ≡ before) ⊎ (after ≡ live_only now before)

check_for_cleanup-IsKept :
    (now : ℤ) (m : Manager) (x : Text)
    → Distinct m.subscribers
    → IsKept now (lookup x m.subscribers) (lookup x (check_for_cleanup now m).subscribers)
unfolding check_for_cleanup
check_for_cleanup-IsKept now m x d = ground (arith, clean-lookup now (record m { visits = 0 }) x d)

abbrev pub renewed : ℤ → Option Subscriber → Option Subscriber
renewed tm none = none
renewed tm (some s) = some (record s { timeout = tm })

-- What is stored under the answer's identifier.
abbrev pub stored : Env → Manager → Text → Text → Text → Option Subscriber
stored env m sid callback timeout =
    if text_beq sid []
    then some (record {
      sid = env.new_sid callback;
      urls = (parse_callback_header env.parse_url callback).0;
      timeout = parse_timeout_header env.parse_time timeout;
      seq = 0;
    })
    else renewed (parse_timeout_header env.parse_time timeout) (lookup sid m.subscribers)

module _ (env : Env) (m : Manager) (sid nt callback timeout : Text) where
  subscribe_inserts :
      (subscribe env m sid nt callback timeout).1.success ≡ true
      → (s : Subscriber) × (stored env m sid callback timeout ≡ some s)
        × (s.timeout ≡ parse_timeout_header env.parse_time timeout)
        × ((subscribe env m sid nt callback timeout).1.res_sid ≡ answer_sid env sid callback)
        × ((subscribe env m sid nt callback timeout).0
            ≡ check_for_cleanup env.clean_time
                (record m { subscribers = insert (answer_sid env sid callback) s m.subscribers }))
  unfolding subscribe answer new_subscribe renew is_empty
  subscribe_inserts h = elim (Bool-cases (text_beq sid [])) [
    | inl e ↦ (
      record {
        sid = env.new_sid callback;
        urls = (parse_callback_header env.parse_url callback).0;
        timeout = parse_timeout_header env.parse_time timeout;
        seq = 0;
      },
      rw e refl,
      refl,
      ground arith,
      ground arith,
    )
    | inr e ↦ elim (Option-cases (lookup sid m.subscribers)) [
      | inl f ↦ absurd (ground arith)
      | inr (s, f) ↦ (
        record s { timeout = parse_timeout_header env.parse_time timeout },
        ground arith,
        refl,
        ground arith,
        ground arith,
      )
    ]
  ]

  stored-sid :
      IsValid m
      → (s : Subscriber) → stored env m sid callback timeout ≡ some s
      → s.sid ≡ answer_sid env sid callback
  stored-sid v s h = ground (arith, keyed_of v sid, text_beq_iff sid [])

  -- The clean-up spares what has not expired.
  check_for_cleanup-spares :
      (now : ℤ) (n : Manager) (x : Text) (s : Subscriber)
      → Distinct n.subscribers
      → lookup x n.subscribers ≡ some s
      → is_expired now s ≡ false
      → lookup x (check_for_cleanup now n).subscribers ≡ some s
  unfolding check_for_cleanup
  check_for_cleanup-spares now n x s d e live =
      ground (arith, clean-lookup now (record n { visits = 0 }) x d)

  -- A successful request on a valid table, whose subscription has not run out again by the time of the clean-up, is
  -- answered with its identifier; under it the table holds the new subscriber with event key 0, or the old one with
  -- the new deadline; and every other subscriber stays, unless it expired and was cleaned up.
  pub subscribe_stores :
      (x : Text)
      → IsValid m
      → (subscribe env m sid nt callback timeout).1.success ≡ true
      → ltb_ℤ (parse_timeout_header env.parse_time timeout) env.clean_time ≡ false
      → let after = subscribe env m sid nt callback timeout in
        (after.1.res_sid ≡ answer_sid env sid callback)
        × (lookup (answer_sid env sid callback) after.0.subscribers
            ≡ stored env m sid callback timeout)
        × ((x ≡ answer_sid env sid callback)
            ⊎ IsKept env.clean_time (lookup x m.subscribers) (lookup x after.0.subscribers))
  subscribe_stores x v h live =
      let (s, stores, ends, named, same) = subscribe_inserts h in
      let key = answer_sid env sid callback in
      let distinct = insert-Distinct key s m.subscribers v.distinct in
      let now = env.clean_time in
      let grown : Manager = record m { subscribers = insert key s m.subscribers } in
      (
        named,
        rw (same, stores)
            (check_for_cleanup-spares now grown key s distinct
              (ground (arith, lookup-insert key key s m.subscribers, text_beq_iff key key))
              (rw ends live)),
        elim (Bool-cases (text_beq key x)) [
          | inl e ↦ inl (ground (arith, text_beq_iff key x))
          | inr other ↦ inr (
              rw same (
                ground (
                  arith,
                  check_for_cleanup-IsKept now grown x distinct,
                  lookup-insert key x s m.subscribers,
                  text_beq_iff key x,
                )))
        ],
      )

  subscribe_refusal :
      (subscribe env m sid nt callback timeout).1.success ≡ false
      → ((subscribe env m sid nt callback timeout).0 ≡ m)
        ⊎ ((subscribe env m sid nt callback timeout).0 ≡ check_for_cleanup env.clean_time m)
  unfolding subscribe answer new_subscribe renew is_empty
  subscribe_refusal h = ground arith

  -- A refused request stores nothing: every subscriber stays, unless it expired and was cleaned up.
  pub subscribe_refused :
      (x : Text)
      → IsValid m
      → (subscribe env m sid nt callback timeout).1.success ≡ false
      → IsKept env.clean_time
          (lookup x m.subscribers)
          (lookup x (subscribe env m sid nt callback timeout).0.subscribers)
  subscribe_refused x v h = elim (subscribe_refusal h) [
    | inl e ↦ inl (rw e refl)
    | inr e ↦ rw e (check_for_cleanup-IsKept env.clean_time m x v.distinct)
  ]

  -- Subscribing and renewing keep the table valid, whatever the answer.
  pub subscribe-IsValid : IsValid m → IsValid (subscribe env m sid nt callback timeout).0
  subscribe-IsValid v = elim (Bool-cases (subscribe env m sid nt callback timeout).1.success) [
    | inl h ↦
        let (s, stores, ends, named, same) = subscribe_inserts h in
        rw same (
          check_for_cleanup-IsValid env.clean_time _ (record {
            distinct = insert-Distinct (answer_sid env sid callback) s m.subscribers v.distinct;
            keyed = λ x t e. ground (
              arith,
              lookup-insert (answer_sid env sid callback) x s m.subscribers,
              text_beq_iff (answer_sid env sid callback) x,
              stored-sid v s stores,
              keyed_of v x,
            );
            below = v.below;
          }))
    | inr h ↦ elim (subscribe_refusal h) [
      | inl e ↦ rw e v
      | inr e ↦ rw e (check_for_cleanup-IsValid env.clean_time m v)
    ]
  ]

-- Unsubscribing succeeds exactly when no other header is sent and the identifier names a subscriber; then that one
-- is removed and every other stays, and otherwise nothing changes.
pub unsubscribe_exact :
    (m : Manager) (sid nt callback x : Text)
    → let after = unsubscribe m sid nt callback in
      ((after.1 ≡ status_ok)
        ↔ ((nt ≡ []) × (callback ≡ []) × (sid ≢ []) × (lookup sid m.subscribers ≢ none)))
      × (lookup x after.0.subscribers
          ≡ (if nat_beq after.1 status_ok && text_beq sid x then none else lookup x m.subscribers))
unfolding unsubscribe
unsubscribe_exact m sid nt callback x = (
  (
    ground (arith, text_beq_iff sid [], text_beq_iff nt [], text_beq_iff callback []),
    ground (arith, text_beq_iff sid [], text_beq_iff nt [], text_beq_iff callback []),
  ),
  ground (arith, text_beq_iff sid x, lookup-erase sid x m.subscribers),
)

pub unsubscribe-IsValid :
    (m : Manager) (sid nt callback : Text) → IsValid m → IsValid (unsubscribe m sid nt callback).0
unfolding unsubscribe
unsubscribe-IsValid m sid nt callback v = record {
  distinct = ground (arith, v.distinct, erase-Distinct sid m.subscribers v.distinct);
  keyed = λ x s h. ground (arith, lookup-erase sid x m.subscribers, keyed_of v x, h);
  below = ground (arith, v.below);
}
