-- ===== src/Soap/Response/Client.antt =====
-- What of the calls on an http.ResponseWriter reaches the client, as net/http does it: the first status counts, and a
-- write that goes beyond the Content-Length declared before it is refused. The statuses here allow a body, and
-- `http.ServeFile`, which no handler mixes with other calls, is left out.
use godlna.Base.{
  ℕ, ◌+◌, ◌<◌, ◌≤◌, Text, codes, text_beq, List, [], ◌∷◌, ◌++◌, Option, none, some, true, false,
  if◌then◌else◌, ltb, length, decimal, parse_digits, parse_digits-decimal, ◌≡◌, refl, arith,
}
use godlna.Soap.Action.{Action}
use godlna.Soap.Response.{
  Call, set_header, write_header, write, serve_file, Error, send_xml, send_error,
  send_action_response, build_error_response, build_action_response, xml_header, status_call,
  or_internal,
}

-- The Content-Length among the headers, the status that was sent with the length declared then, the bytes that were
-- offered, and the body that was sent.
pub record Reply : Type 0 where
  pub header : Option Text
  pub status : Option ℕ
  pub declared : Option ℕ
  pub written : ℕ
  pub body : Text

abbrev pub no_reply : Reply
no_reply = record { header = none; status = none; declared = none; written = 0; body = [] }

abbrev length_of : Option Text → Option ℕ
length_of none = none
length_of (some v) = parse_digits v

with_status : Reply → ℕ → Option ℕ → Reply
with_status r n none = record r { status = some n; declared = length_of r.header }
with_status r n (some m) = r

offered : Reply → Text → Option ℕ → Reply
offered r b none = record r { written = r.written + length b; body = r.body ++ b }
offered r b (some n) =
    if ltb n (r.written + length b)
    then record r { written = r.written + length b }
    else record r { written = r.written + length b; body = r.body ++ b }

called : Reply → Call → Reply
unfolding with_status offered
called r (set_header k v) =
    if text_beq k (codes "Content-Length") then record r { header = some v } else r
called r (write_header n) = with_status r n r.status
called r (write b) = let r' = with_status r 200 r.status in offered r' b r'.declared
called r (serve_file p) = r

unfoldable pub replied : Reply → List Call → Reply
unfolding called
replied r [] = r
replied r (c ∷ cs) = replied (called r c) cs

pub replied-append :
    (r : Reply) (cs ds : List Call) → replied r (cs ++ ds) ≡ replied (replied r cs) ds
unfolding replied
replied-append r [] ds = refl
replied-append r (c ∷ cs) ds = replied-append (called r c) cs ds

-- A whole XML answer.
pub replied-send_xml :
    (body : Text) (n : ℕ)
    → replied no_reply (send_xml body (some n)) ≡ record {
      header = some (decimal (length body));
      status = some n;
      declared = some (length body);
      written = length body;
      body = body;
    }
unfolding replied send_xml status_call text_beq
replied-send_xml body n =
    let z : 0 + length body ≡ length body = omega arith in
    let e : ltb (length body) (length body) ≡ false = ground arith in
    rw (parse_digits-decimal (length body), z, e) refl

-- Another one after it, with a body and without a status, does not reach the client.
pub replied-second :
    (header : Option Text) (n m written : ℕ) (body second : Text)
    → m ≤ written
    → 0 < length second
    → let r : Reply = record {
      header = header;
      status = some n;
      declared = some m;
      written = written;
      body = body;
    } in
      ((replied r (send_xml second none)).status ≡ some n)
      × ((replied r (send_xml second none)).body ≡ body)
unfolding replied send_xml status_call text_beq
replied-second header n m written body second h k =
    let e : ltb m (written + length second) ≡ true = ground arith in rw e (refl, refl)

-- A response that follows an error leaves the client with the error.
pub replied_error_first :
    (e : Error) (a : Action) (out : Text)
    → let r = replied no_reply (send_error e none ++ send_action_response a out none) in
      (r.status ≡ some 500) × (r.body ≡ (replied no_reply (send_error e none)).body)
unfolding send_error send_action_response or_internal
replied_error_first e a out =
    let first = xml_header ++ build_error_response e in
    let second = xml_header ++ build_action_response a out in
    let h = replied-send_xml first 500 in
    rw (replied-append no_reply (send_xml first (some 500)) (send_xml second none), h)
      (replied-second (some (decimal (length first))) 500 (length first) (length first) first second
        (omega arith) (omega arith))
