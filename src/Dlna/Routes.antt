-- ===== src/Dlna/Routes.antt =====
-- dlna/server.go: the routes of the server and the header of every answer; dlna/device_controller.go: the handlers of
-- the index page, the device description and the icons. A path is clean, as the ServeMux redirects any other.
use godlna.Base.{
  Text, codes, text_beq, has_prefix, has_byte, List, [], ◌∷◌, Option, none, some, Bool, ◌&&◌, not,
  if◌then◌else◌, drop, length,
}
use godlna.Soap.Response.{Call, set_header, write_header, write, send_xml}
use godlna.Dlna.Entries.{Request}
use godlna.Dlna.ContentDirectory.{is_read, method_not_allowed}

pub data Route : Type 0 where
  index description icons scpd control event : Route
  content : Text → Route

-- A wildcard `{obj}` matches one segment that is not empty.
unfoldable pub is_segment : Text → Bool
is_segment s = not (text_beq s []) && not (has_byte b'/' s)

unfoldable pub below : Text → Text → Option Text
unfolding is_segment
below prefix path =
    let rest = drop (length prefix) path in
    if has_prefix prefix path && is_segment rest then some rest else none

unfoldable pub content_or_index : Option Text → Option Text → Route
content_or_index none none = index
content_or_index none (some obj) = content obj
content_or_index (some obj) v = content obj

-- The most specific pattern wins.
unfoldable pub route : Text → Route
unfolding below content_or_index text_beq has_prefix has_byte
route path =
    if text_beq path (codes "/device/desc.xml")
    then description
    else if has_prefix (codes "/device/icons/") path
    then icons
    else if text_beq path (codes "/cds/desc.xml")
    then scpd
    else if text_beq path (codes "/cds/ctl")
    then control
    else if text_beq path (codes "/cds/evt")
    then event
    else content_or_index (below (codes "/ct/t/") path) (below (codes "/ct/v/") path)

-- The header is set before the handler of the route runs.
unfoldable pub hook : Text → List Call → List Call
hook server_header cs = set_header (codes "Server") server_header ∷ cs

unfoldable pub handle_index_url : Text → Text → Request → List Call
unfolding is_read text_beq
handle_index_url index_html path r =
    if text_beq path (codes "/")
    then if is_read r.method then write index_html ∷ [] else method_not_allowed
    else write_header 404 ∷ []

unfoldable pub handle_description_url : Text → Request → List Call
unfolding is_read
handle_description_url desc_xml r =
    if is_read r.method then send_xml desc_xml none else method_not_allowed

-- The icons are served by a file server of the library.
unfoldable pub handle_icons : List Call → Request → List Call
unfolding is_read
handle_icons served r = if is_read r.method then served else method_not_allowed
