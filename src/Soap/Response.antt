-- ===== src/Soap/Response.antt =====
-- pkg/soap/response.go and errors.go: what the SOAP layer does to the HTTP response. A response is the list
-- of the calls made on the `http.ResponseWriter`, in their order.
pub mod Answers
pub mod Client
use Prim.Native.String.{String}
use godlna.Base.{ℕ, suc, Text, codes, List, [], ◌∷◌, ◌++◌, Option, none, some, decimal, length}
use godlna.Soap.Escape.{xml_value_encode_light}
use godlna.Soap.Action.{Action}

pub data Call : Type 0 where
  set_header : Text → Text → Call
  write_header : ℕ → Call
  write : Text → Call
  serve_file : Text → Call

-- The statuses that the calls set, and the number of bodies they write; `http.ServeFile` writes a whole answer.
abbrev pub statuses : List Call → List ℕ
statuses [] = []
statuses (set_header k v ∷ cs) = statuses cs
statuses (write_header n ∷ cs) = n ∷ statuses cs
statuses (write body ∷ cs) = statuses cs
statuses (serve_file p ∷ cs) = statuses cs

abbrev pub bodies : List Call → ℕ
bodies [] = 0
bodies (set_header k v ∷ cs) = bodies cs
bodies (write_header n ∷ cs) = bodies cs
bodies (write body ∷ cs) = suc (bodies cs)
bodies (serve_file p ∷ cs) = suc (bodies cs)

-- An error that carries UPnPError, one that does not, and one that `%w` wraps round another with its own message.
pub data Error : Type 0 where
  upnp : ℕ → Text → Error
  plain : Text → Error
  wrap : Text → Error → Error

-- `err.Error()`; of a UPnPError it is the code and the description.
unfoldable pub message : Error → Text
message (upnp code desc) = decimal code ++ b' ' ∷ desc
message (plain text) = text
message (wrap text e) = text

-- `errors.As(err, &upnpErr)`: the first UPnPError of the chain.
unfoldable pub as_upnp : Error → Option (ℕ × Text)
as_upnp (upnp code desc) = some (code, desc)
as_upnp (plain text) = none
as_upnp (wrap text e) = as_upnp e

abbrev pub invalid_action_error_code : ℕ
invalid_action_error_code = 401

abbrev pub action_failed_error_code : ℕ
action_failed_error_code = 501

abbrev pub argument_value_invalid_error_code : ℕ
argument_value_invalid_error_code = 600

abbrev envelope_open : String
envelope_open =
    "<s:Envelope xmlns:s=\"http://schemas.xmlsoap.org/soap/envelope/\" xmlns:encodingStyle=\"http://schemas.xmlsoap.org/soap/encoding/\"><s:Body>"

fault_of : Option (ℕ × Text) → Error → ℕ × Text
fault_of none e = (action_failed_error_code, message e)
fault_of (some (code, desc)) e = (code, desc)

unfoldable pub fault : Error → ℕ × Text
unfolding fault_of as_upnp
fault e = fault_of (as_upnp e) e

unfoldable pub build_error_response : Error → Text
build_error_response e =
    codes envelope_open
    ++ (codes "<s:Fault><faultcode>s:Client</faultcode><faultstring>UPnPError</faultstring><detail>"
        ++ (codes "<UPnPError xmlns=\"urn:schemas-upnp-org:control-1-0\"><errorCode>"
            ++ (decimal (fault e).0
                ++ (codes "</errorCode><errorDescription>"
                    ++ (xml_value_encode_light (fault e).1
                        ++ codes
                            "</errorDescription></UPnPError></detail></s:Fault></s:Body></s:Envelope>")))))

abbrev xml_header : Text
xml_header = codes "<?xml version=\"1.0\" encoding=\"UTF-8\"?>\n"

status_call : Option ℕ → List Call
status_call none = []
status_call (some code) = write_header code ∷ []

unfoldable pub send_xml : Text → Option ℕ → List Call
unfolding status_call
send_xml body status =
    set_header (codes "Content-Type") (codes "text/xml; charset=\"utf-8\"")
    ∷ set_header (codes "Content-Length") (decimal (length body))
    ∷ (status_call status ++ write body ∷ [])

or_internal : Option ℕ → ℕ
or_internal none = 500
or_internal (some code) = code

unfoldable pub send_error : Error → Option ℕ → List Call
unfolding or_internal
send_error e status = send_xml (xml_header ++ build_error_response e) (some (or_internal status))

unfoldable pub send_upnp_error : ℕ → Text → Option ℕ → List Call
send_upnp_error code desc status = send_error (upnp code desc) status

-- The result of `buildXML` comes as ready text.
unfoldable pub build_action_response : Action → Text → Text
build_action_response a response =
    codes envelope_open
    ++ (codes "<u:"
        ++ (a.name
            ++ (codes "Response xmlns:u=\""
                ++ (a.service_type
                    ++ (codes "\">"
                        ++ (response
                            ++ (codes "</u:"
                                ++ (a.name ++ codes "Response></s:Body></s:Envelope>"))))))))

unfoldable pub send_action_response : Action → Text → Option ℕ → List Call
send_action_response a response status =
    send_xml (xml_header ++ build_action_response a response) status
