-- ===== src/Upnp/Events/Handler.antt =====
-- pkg/upnp/events/nethttp_handler.go: the HTTP front of the manager.
use godlna.Base.{
  ℕ, Text, codes, text_beq, List, [], ◌∷◌, ◌++◌, Option, none, some, false, ◌&&◌, if◌then◌else◌,
  ◌≡◌, refl, ◌⊎◌, inl, inr, arith, Bool-cases, text_beq_iff,
}
use godlna.Soap.Response.{Call, set_header, write_header, statuses}
use godlna.Upnp.Events.{
  Manager, SubscribeResult, Env, subscribe, unsubscribe, method_not_allowed, status_ok, answer,
  new_subscribe, renew, is_empty,
}
use godlna.Upnp.Events.Subscription.{IsValid}
use godlna.Upnp.Events.Outcome.{subscribe-IsValid, unsubscribe-IsValid}

-- A missing header reads as the empty text.
pub record Request : Type 0 where
  pub method : Text
  pub sid : Text
  pub nt : Text
  pub callback : Text
  pub timeout : Text

success_headers : SubscribeResult → List Call
success_headers res =
    if res.success
    then set_header (codes "SID") res.res_sid ∷ set_header (codes "TIMEOUT") res.timeout_header ∷ []
    else []

-- The new manager, the calls on the response writer, and the subscriber that SendInitialState is called for.
unfoldable pub handle_event_sub_url : Env → Manager → Request → Manager × List Call × Option Text
unfolding success_headers
handle_event_sub_url env m r =
    if text_beq r.method (codes "SUBSCRIBE")
    then (let (m', res) = subscribe env m r.sid r.nt r.callback r.timeout in
        (
          m',
          success_headers res ++ write_header res.status_code ∷ [],
          if res.success && res.is_new then some res.res_sid else none,
        ))
    else if text_beq r.method (codes "UNSUBSCRIBE")
    then (let (m', status) = unsubscribe m r.sid r.nt r.callback in
        (m', write_header status ∷ [], none))
    else (m, write_header method_not_allowed ∷ [], none)

subscribe_new :
    (env : Env) (m : Manager) (r : Request)
    → let res = (subscribe env m r.sid r.nt r.callback r.timeout).1 in
      ((res.success && res.is_new) ≡ false) ⊎ ((res.status_code ≡ status_ok) × (r.sid ≡ []))
unfolding subscribe answer new_subscribe renew is_empty
subscribe_new env m r = ground (arith, text_beq_iff r.sid [])

statuses_after_success :
    (res : SubscribeResult) (n : ℕ) → statuses (success_headers res ++ write_header n ∷ []) ≡ n ∷ []
unfolding success_headers
statuses_after_success res n = ground arith

-- Every request, by whatever method, is answered with exactly one status and leaves the table of subscribers valid;
-- and the initial state is sent only after a success of a request without an identifier.
pub handle_event_sub_url_once :
    (env : Env) (m : Manager) (r : Request)
    → IsValid m
    → (status : ℕ) × (statuses (handle_event_sub_url env m r).1 ≡ status ∷ [])
      × IsValid (handle_event_sub_url env m r).0
      × (((handle_event_sub_url env m r).2 ≡ none) ⊎ ((status ≡ status_ok) × (r.sid ≡ [])))
unfolding handle_event_sub_url
handle_event_sub_url_once env m r v = elim (Bool-cases (text_beq r.method (codes "SUBSCRIBE"))) [
  | inl e ↦ rw e (
    (subscribe env m r.sid r.nt r.callback r.timeout).1.status_code,
    statuses_after_success (subscribe env m r.sid r.nt r.callback r.timeout).1
        (subscribe env m r.sid r.nt r.callback r.timeout).1.status_code,
    subscribe-IsValid env m r.sid r.nt r.callback r.timeout v,
    ground (arith, subscribe_new env m r),
  )
  | inr e ↦ elim (Bool-cases (text_beq r.method (codes "UNSUBSCRIBE"))) [
    | inl u ↦
        rw (e, u)
          (
            (unsubscribe m r.sid r.nt r.callback).1,
            refl,
            unsubscribe-IsValid m r.sid r.nt r.callback v,
            inl refl,
          )
    | inr u ↦ rw (e, u) (method_not_allowed, refl, v, inl refl)
  ]
]
