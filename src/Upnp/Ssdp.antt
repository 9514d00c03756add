-- ===== src/Upnp/Ssdp.antt =====
-- pkg/upnp/ssdp: discovery. The options and messages of options.go; the sockets, the clock and the random delays are
-- outside.
pub mod Validation
pub mod Uint
pub mod Search
pub mod Minissdpd
pub mod Examples
use godlna.Base.{
  ℕ, zero, suc, ◌*◌, Text, codes, text_beq, has_prefix, List, [], ◌∷◌, ◌++◌, Option, none, some,
  Bool, true, false, ◌||◌, not, if◌then◌else◌, ℤ, pos, negsuc, quot, scale, wrap_int64, decimal_ℤ,
  map, ◌≡◌, ◌≢◌, refl,
}

abbrev pub multicast_addr_port : Text
multicast_addr_port = codes "239.255.255.250:1900"

abbrev pub root_device : Text
root_device = codes "upnp:rootdevice"

-- Times are in nanoseconds.
pub record Options : Type 0 where
  pub location : Text
  pub server_header : Text
  pub max_age : ℤ
  pub notify_interval : ℤ
  pub device_type : Text
  pub device_udn : Text
  pub service_list : List Text
  pub targets : List Text
  pub cache_control : Text

pub data Invalid : Type 0 where
  no_location no_device_type no_device_udn : Invalid

unfoldable pub usn_from_target : Options → Text → Text
usn_from_target o target =
    if text_beq o.device_udn target then target else o.device_udn ++ (codes "::" ++ target)

or_text : Text → Text → Text
or_text s default = if text_beq s [] then default else s

or_time : ℤ → ℤ → ℤ
or_time (pos zero) default = default
or_time (pos (suc n)) default = pos (suc n)
or_time (negsuc n) default = negsuc n

with_uuid : Text → Text
with_uuid udn = if has_prefix (codes "uuid:") udn then udn else codes "uuid:" ++ udn

-- The defaults and the prepared fields, which stand in the options afterwards. The text is the default server header.
-- The seconds, a floating point number in the code, are exact for whole seconds and for every age below 2 ^ 24 seconds.
filled : Text → Options → Options
unfolding or_text or_time with_uuid
filled default_header o =
    let max_age = or_time o.max_age (pos 1800000000000) in
    let udn = with_uuid o.device_udn in
    record o {
      server_header = or_text o.server_header default_header;
      max_age = max_age;
      cache_control = codes "max-age=" ++ decimal_ℤ (quot max_age 1000000000);
      notify_interval = or_time o.notify_interval (quot (wrap_int64 (scale max_age 2)) 5);
      device_udn = udn;
      targets = udn ∷ root_device ∷ o.device_type ∷ o.service_list;
    }

unfoldable pub validate : Text → Options → Options × Option Invalid
unfolding filled
validate default_header o =
    if text_beq o.location []
    then (o, some no_location)
    else if text_beq o.device_type []
    then (o, some no_device_type)
    else if text_beq o.device_udn []
    then (o, some no_device_udn)
    else (filled default_header o, none)

abbrev crlf : Text
crlf = 13 ∷ 10 ∷ []

header_lines : List (Text × Text) → Text
header_lines [] = crlf
header_lines ((name, value) ∷ pairs) =
    name ++ (codes ": " ++ (value ++ (crlf ++ header_lines pairs)))

unfoldable pub headers : Text → List (Text × Text) → Text
unfolding header_lines
headers status_line pairs = status_line ++ (crlf ++ header_lines pairs)

unfoldable pub alive_message : Options → Text → Text
unfolding headers usn_from_target
alive_message o target = headers (codes "NOTIFY * HTTP/1.1") (
    (codes "HOST", multicast_addr_port)
    ∷ (codes "CACHE-CONTROL", o.cache_control)
    ∷ (codes "LOCATION", o.location)
    ∷ (codes "SERVER", o.server_header)
    ∷ (codes "NT", target)
    ∷ (codes "USN", usn_from_target o target)
    ∷ (codes "NTS", codes "ssdp:alive")
    ∷ [])

unfoldable pub bye_bye_message : Options → Text → Text
unfolding headers usn_from_target
bye_bye_message o target = headers (codes "NOTIFY * HTTP/1.1") (
    (codes "HOST", multicast_addr_port)
    ∷ (codes "NT", target)
    ∷ (codes "USN", usn_from_target o target)
    ∷ (codes "NTS", codes "ssdp:byebye")
    ∷ [])

-- The date of the response comes from the clock.
unfoldable pub m_search_response_message : Text → Options → Text → Text
unfolding headers usn_from_target
m_search_response_message date o target = headers (codes "HTTP/1.1 200 OK") (
    (codes "CACHE-CONTROL", o.cache_control)
    ∷ (codes "DATE", date)
    ∷ (codes "ST", target)
    ∷ (codes "USN", usn_from_target o target)
    ∷ (codes "EXT", [])
    ∷ (codes "SERVER", o.server_header)
    ∷ (codes "LOCATION", o.location)
    ∷ (codes "Content-Length", codes "0")
    ∷ [])

-- `HasTarget`
unfoldable pub has_target : List Text → Text → Bool
has_target [] target = false
has_target (t ∷ ts) target = text_beq t target || has_target ts target

-- A message that is sent after a random delay below the bound, in nanoseconds, unless the server stops before.
pub record Delayed : Type 0 where
  pub message : Text
  pub delay_bound : ℕ

-- What sendAlive and sendByeBye of udp_server.go write, one message for each target; they leave in the order of their
-- delays.
unfoldable pub send_alive : Options → List Delayed
unfolding alive_message
send_alive o =
    map (λ target. record { message = alive_message o target; delay_bound = 100000000 }) o.targets

unfoldable pub send_bye_bye : Options → List Text
unfolding bye_bye_message
send_bye_bye o = map (bye_bye_message o) o.targets
