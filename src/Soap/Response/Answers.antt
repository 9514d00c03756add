-- ===== src/Soap/Response/Answers.antt =====
-- pkg/soap/response.go and errors.go: how often the calls answer a request.
use godlna.Base.{
  ◌+◌, ◌≤◌, Text, List, [], ◌∷◌, ◌++◌, ℕ, Option, none, some, length, ◌≡◌, ◌⊎◌, refl, arith,
}
use godlna.Soap.Action.{Action}
use godlna.Soap.Response.{
  Call, set_header, write_header, write, serve_file, statuses, bodies, Error, send_xml, send_error,
  send_upnp_error, send_action_response, status_call,
}

-- One answer: a status without a body, or one body under at most one status.
abbrev pub IsAnswered : List Call → Type 0
IsAnswered cs =
    ((bodies cs ≡ 0) × (length (statuses cs) ≡ 1)) ⊎ ((bodies cs ≡ 1) × (length (statuses cs) ≤ 1))

pub send_xml-bodies :
    (body : Text) (status : Option ℕ)
    → (bodies (send_xml body status) ≡ 1) × (length (statuses (send_xml body status)) ≤ 1)
unfolding send_xml status_call
send_xml-bodies body none = (refl, omega arith)
send_xml-bodies body (some n) = (refl, omega arith)

pub send_error-bodies :
    (e : Error) (status : Option ℕ)
    → (bodies (send_error e status) ≡ 1) × (length (statuses (send_error e status)) ≤ 1)
unfolding send_error
send_error-bodies e status = send_xml-bodies _ _

pub send_upnp_error-bodies :
    (code : ℕ) (desc : Text) (status : Option ℕ)
    → (bodies (send_upnp_error code desc status) ≡ 1)
      × (length (statuses (send_upnp_error code desc status)) ≤ 1)
unfolding send_upnp_error
send_upnp_error-bodies code desc status = send_error-bodies _ status

pub send_action_response-bodies :
    (a : Action) (out : Text) (status : Option ℕ)
    → (bodies (send_action_response a out status) ≡ 1)
      × (length (statuses (send_action_response a out status)) ≤ 1)
unfolding send_action_response
send_action_response-bodies a out status = send_xml-bodies _ status

pub bodies-append : (cs ds : List Call) → bodies (cs ++ ds) ≡ bodies cs + bodies ds
bodies-append [] ds = omega arith
bodies-append (set_header k v ∷ cs) ds = bodies-append cs ds
bodies-append (write_header n ∷ cs) ds = bodies-append cs ds
bodies-append (write body ∷ cs) ds = omega (arith, bodies-append cs ds)
bodies-append (serve_file p ∷ cs) ds = omega (arith, bodies-append cs ds)
