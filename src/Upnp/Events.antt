-- ===== src/Upnp/Events.antt =====
-- pkg/upnp/events: subscribers to the state of a service (manager.go, nethttp_handler.go).
pub mod Header
pub mod Subscription
pub mod Notification
pub mod Outcome
pub mod Handler
pub mod Examples
use godlna.Base.{
  ℕ, suc, ◌+◌, ◌*◌, ◌%◌, ◌^◌, Text, codes, text_beq, text_eq, ◌==◌, nat_beq, List, [], ◌∷◌, ◌++◌,
  Option, none, some, Bool, true, false, not, ◌||◌, ◌&&◌, if◌then◌else◌, lookup, insert, erase, ◌≡◌,
  refl, ℤ, pos, ltb_ℤ, map, pos_part, ◌-ℤ◌, decimal_ℤ, ◌/◌, negsuc,
}
use Header.{parse_timeout_header, parse_callback_header, until_seconds}

-- A URL is its text.
pub record Subscriber : Type 0 where
  pub sid : Text
  pub urls : List Text
  pub timeout : ℤ
  pub seq : ℕ

pub record Manager : Type 0 where
  pub subscribers : List (Text × Subscriber)
  pub visits : ℕ

pub record SubscribeResult : Type 0 where
  pub success : Bool
  pub status_code : ℕ
  pub res_sid : Text
  pub timeout_header : Text
  pub is_new : Bool

-- What the standard library and the clock give during one call of Subscribe: the time in nanoseconds when the
-- TIMEOUT header is read, when the answer is printed, and when expired subscribers are cleaned up; `url.Parse`;
-- and the value of NewSID, which is a digest of the time and the callback.
pub record Env : Type 0 where
  pub parse_time : ℤ
  pub answer_time : ℤ
  pub clean_time : ℤ
  pub parse_url : Text → Option Text
  pub new_sid : Text → Text

abbrev pub status_ok : ℕ
status_ok = 200

abbrev pub bad_request : ℕ
bad_request = 400

abbrev pub method_not_allowed : ℕ
method_not_allowed = 405

abbrev pub precondition_failed : ℕ
precondition_failed = 412

abbrev pub internal_server_error : ℕ
internal_server_error = 500

abbrev pub clean_after_visits : ℕ
clean_after_visits = 500

abbrev pub uint32_mod : ℕ
uint32_mod = 2 ^ 32

abbrev pub is_expired : ℤ → Subscriber → Bool
is_expired now s = ltb_ℤ s.timeout now

pub new_manager : Manager
new_manager = record { subscribers = []; visits = 0 }

clean_loop : ℤ → List (Text × Subscriber) → List (Text × Subscriber) → List (Text × Subscriber)
clean_loop now [] subs = subs
clean_loop now ((sid, s) ∷ rest) subs =
    clean_loop now rest (if is_expired now s then erase sid subs else subs)

unfoldable pub clean : ℤ → Manager → Manager
unfolding clean_loop
clean now m = record m { subscribers = clean_loop now m.subscribers m.subscribers }

unfoldable pub check_for_cleanup : ℤ → Manager → Manager
check_for_cleanup now m =
    let visits = (m.visits + 1) % uint32_mod in
    if nat_beq visits clean_after_visits
    then clean now (record m { visits = 0 })
    else record m { visits = visits }

unfoldable pub new_subscribe : Manager → Text → List Text → ℤ → Manager × ℕ
new_subscribe m sid urls timeout = elim (lookup sid m.subscribers) [
  | some _ ↦ (m, internal_server_error)
  | none ↦ (
    record m {
      subscribers =
          insert sid (record { sid = sid; urls = urls; timeout = timeout; seq = 0 }) m.subscribers;
    },
    status_ok,
  )
]

unfoldable pub renew : Manager → Text → ℤ → Manager × ℕ
renew m sid timeout = elim (lookup sid m.subscribers) [
  | none ↦ (m, precondition_failed)
  | some s ↦ (
    record m { subscribers = insert sid (record s { timeout = timeout }) m.subscribers },
    status_ok,
  )
]

abbrev rejected : ℕ → Text → Bool → SubscribeResult
rejected status sid new = record {
  success = false;
  status_code = status;
  res_sid = sid;
  timeout_header = [];
  is_new = new;
}

is_empty : List Text → Bool
is_empty [] = true
is_empty (u ∷ us) = false

-- The end of Subscribe, once the status is known.
answer : Env → ℤ → Text → Bool → Manager × ℕ → Manager × SubscribeResult
unfolding check_for_cleanup
answer env tm sid new (m, status) =
    let good = nat_beq status status_ok in
    (
      check_for_cleanup env.clean_time m,
      record {
        success = good;
        status_code = status;
        res_sid = sid;
        timeout_header =
            if good then codes "Second-" ++ decimal_ℤ (until_seconds tm env.answer_time) else [];
        is_new = new;
      },
    )

unfoldable pub subscribe : Env → Manager → Text → Text → Text → Text → Manager × SubscribeResult
unfolding answer new_subscribe renew is_empty
subscribe env m sid nt callback timeout =
    let tm = parse_timeout_header env.parse_time timeout in
    let (urls, failed) = parse_callback_header env.parse_url callback in
    let new = text_beq sid [] in
    if new
    then (if not (text_beq nt (codes "upnp:event"))
        then (m, rejected precondition_failed sid true)
        else if failed || is_empty urls
        then (m, rejected precondition_failed sid true)
        else answer env tm (env.new_sid callback) true
            (new_subscribe m (env.new_sid callback) urls tm))
    else if not (text_beq nt []) || not (text_beq callback [])
    then (m, rejected bad_request sid false)
    else answer env tm sid false (renew m sid tm)

unfoldable pub unsubscribe : Manager → Text → Text → Text → Manager × ℕ
unsubscribe m sid nt callback =
    if not (text_beq nt []) || not (text_beq callback [])
    then (m, bad_request)
    else if text_beq sid []
    then (m, precondition_failed)
    else elim (lookup sid m.subscribers) [
      | none ↦ (m, precondition_failed)
      | some _ ↦ (record m { subscribers = erase sid m.subscribers }, status_ok)
    ]
