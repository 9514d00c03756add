-- ===== src/Upnp/Events/Examples.antt =====
-- The theorems about pkg/upnp/events at a table with one subscriber.
use godlna.Base.{
  ℕ, Text, codes, List, [], ◌∷◌, none, some, ◌≡◌, ◌⊎◌, inr, refl, arith, text_eq, lookup, text_beq,
  text_beq_iff, has_prefix, pos,
}
use godlna.Upnp.Events.{Manager, Subscriber, Env, subscribe, status_ok}
use godlna.Upnp.Events.Header.{parse_timeout_header}
use godlna.Upnp.Events.Subscription.{IsValid}
use godlna.Upnp.Events.Outcome.{subscribe_success, subscribe_stores, answer_sid, stored, IsKept}
use godlna.Upnp.Events.Handler.{Request, handle_event_sub_url, handle_event_sub_url_once}
use godlna.Soap.Response.{statuses}

abbrev screen : Subscriber
screen = record { sid = codes "uuid:1"; urls = codes "http://a/" ∷ []; timeout = pos 50; seq = 3 }

abbrev table : Manager
table = record { subscribers = (codes "uuid:1", screen) ∷ []; visits = 7 }

abbrev no_header : Text
no_header = []

abbrev env : Env
env = record {
  parse_time = pos 10;
  answer_time = pos 11;
  clean_time = pos 12;
  parse_url = λ u. some u;
  new_sid = λ callback. codes "uuid:2";
}

table-IsValid : IsValid table
unfolding lookup
table-IsValid = record {
  distinct = (refl, tt);
  keyed = λ sid s h. ground (arith, text_beq_iff (codes "uuid:1") sid);
  below = omega arith;
}

abbrev urls : List Text
urls = codes "http://a/" ∷ codes "http://b/" ∷ []

subscribe_stores_example :
    let after = subscribe env table (codes "uuid:1") [] [] [] in
    (after.1.res_sid ≡ answer_sid env (codes "uuid:1") [])
    × (lookup (answer_sid env (codes "uuid:1") []) after.0.subscribers
        ≡ stored env table (codes "uuid:1") [] [])
    × ((codes "uuid:3" ≡ answer_sid env (codes "uuid:1") [])
        ⊎ IsKept env.clean_time
            (lookup (codes "uuid:3") table.subscribers)
            (lookup (codes "uuid:3") after.0.subscribers))
unfolding lookup text_beq parse_timeout_header has_prefix
subscribe_stores_example =
    subscribe_stores env table (codes "uuid:1") [] [] [] (codes "uuid:3") table-IsValid
      ((subscribe_success env table (codes "uuid:1") [] [] []).1
        (inr (λ e. cc, refl, refl, λ e. cc)))
      refl

abbrev variable : Text × Text
variable = (codes "SystemUpdateID", codes "1")

abbrev leave : Request
leave = record {
  method = codes "UNSUBSCRIBE";
  sid = codes "uuid:1";
  nt = [];
  callback = [];
  timeout = [];
}

handle_event_sub_url_once_example :
    (status : ℕ) × (statuses (handle_event_sub_url env table leave).1 ≡ status ∷ [])
    × IsValid (handle_event_sub_url env table leave).0
    × (((handle_event_sub_url env table leave).2 ≡ none)
        ⊎ ((status ≡ status_ok) × (leave.sid ≡ [])))
handle_event_sub_url_once_example = handle_event_sub_url_once env table leave table-IsValid
