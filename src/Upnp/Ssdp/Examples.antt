-- ===== src/Upnp/Ssdp/Examples.antt =====
-- Runs of pkg/upnp/ssdp on a media server with two services.
use godlna.Base.{
  codes, [], ◌∷◌, none, ◌≡◌, refl, map, pos, arith, All, ap, ◌⊎◌, inl, inr, text_beq, has_prefix,
}
use godlna.Upnp.Ssdp.{Options, validate, has_target, usn_from_target}
use godlna.Upnp.Ssdp.Uint.{parse_uint}
use godlna.Upnp.Ssdp.Minissdpd.{submission, received, received-submission}
use godlna.Upnp.Ssdp.Search.{parse_udp_message, wait_of, value_cut}
use godlna.Upnp.Ssdp.Search.Answers.{parse_udp_message-IsAllowed, IsAllowed}
use godlna.Upnp.Ssdp.Search.Requests.{parse_udp_message-request, request}
use godlna.Upnp.Ssdp.Validation.{validate_exact}

abbrev media_server : Options
media_server = record {
  location = codes "http://a/";
  server_header = [];
  max_age = pos 0;
  notify_interval = pos 0;
  device_type = codes "urn:d:1";
  device_udn = codes "1";
  service_list = codes "urn:s:1" ∷ codes "urn:s:2" ∷ [];
  targets = [];
  cache_control = [];
}

abbrev valid : Options
valid = (validate (codes "Go/1.0") media_server).0

validate_exact_example :
    ((validate (codes "Go/1.0") media_server).1 ≡ none)
    ⊎ ((validate (codes "Go/1.0") media_server).0 ≡ media_server)
validate_exact_example = elim (validate_exact (codes "Go/1.0") media_server) [
  | inl p ↦ inl p.0
  | inr p ↦ inr (ap (λ x. x.0) p.1)
]

parse_udp_message-IsAllowed_example :
    All
      (IsAllowed (codes "now") valid)
      (parse_udp_message (codes "now") valid (request (codes "0x1F") (codes "ssdp:all")))
parse_udp_message-IsAllowed_example =
    parse_udp_message-IsAllowed (codes "now") valid (request (codes "0x1F") (codes "ssdp:all"))

parse_udp_message-request_example :
    map
      (λ a. a.delay_bound)
      (parse_udp_message (codes "now") valid (request (codes "500") (codes "urn:s:2")))
    ≡ 120000000000 ∷ []
unfolding validate has_target text_beq has_prefix
parse_udp_message-request_example = ap (map (λ a. a.delay_bound)) (
    parse_udp_message-request (codes "now") valid (codes "500") (codes "urn:s:2") 500 120
      (unfold value_cut in ground arith) (unfold value_cut in ground arith) (λ e. cc)
      (unfold parse_uint in refl) (unfold wait_of in refl))

received-submission_example :
    received (submission valid (codes "urn:s:2"))
    ≡ (codes "urn:s:2", codes "uuid:1::urn:s:2", codes "Go/1.0", codes "http://a/")
unfolding validate usn_from_target text_beq has_prefix
received-submission_example =
    received-submission valid (codes "urn:s:2") (omega arith) (omega arith) (omega arith)
      (omega arith)
