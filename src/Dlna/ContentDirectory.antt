-- ===== src/Dlna/ContentDirectory.antt =====
-- dlna/content_directory_controller.go: the handlers of the ContentDirectory service, over any database driver and
-- store of files, as calls on the response writer.
pub mod Actions
pub mod Answers
use godlna.Base.{
  ℕ, Text, codes, text_beq, List, [], ◌∷◌, ◌++◌, Option, none, some, Bool, true, false, ◌&&◌, ◌||◌,
  not, if◌then◌else◌, length, ℤ, pos, scale, wrap_int64, parse_int, ext, take, ◌-◌,
}
pub mod Browsing
pub mod Seconds
use godlna.Backend.Object.{Object, thumb_path}
use godlna.Backend.Filter.{SearchResponse, DatabaseDriver}
use godlna.Backend.Service
use godlna.Backend.Service.{
  World, Media, Result, ok, err, driver_error, object, children, parent_id, set_bookmark,
}
use godlna.Soap.Action.{Action, detect_action}
use godlna.Soap.Response.{
  Call, set_header, write_header, write, serve_file, Error, plain, send_error, send_upnp_error,
  send_action_response, send_xml, invalid_action_error_code, argument_value_invalid_error_code,
}
use godlna.Soap.Value.{Value, marshaled, text, number, Response, nothing, ready, struct, build_xml}
use godlna.Soap.Escape.{xml_value_encode_light}
use godlna.Soap.Didl.{Entry, DidlLite, append, marshal_soap}
use godlna.Dlna.Entries.{
  Request, use_seconds_in_bookmark, mime_type, video_protocol_info, thumb_protocol_info, upnpav_obj,
}

pub record BrowseArgs : Type 0 where
  pub object_id : ℤ
  pub browse_flag : Text
  pub starting_index : ℤ
  pub requested_count : ℤ

pub record SetBookmarkArgs : Type 0 where
  pub object_id : ℤ
  pub pos_second : ℤ

-- What `UnmarshalEnvelopeRequest` makes of a body.
pub data Decoded (A : Type 0) : Type 0 where
  decoded : A → Decoded A
  refused : Error → Decoded A

-- What the controller takes from outside: the two decodings of a body, the text of an error of the backend, none of
-- which carries a UPnPError, the date of a Unix time in the local zone, and the roots of the backend.
pub record Env : Type 0 where
  pub decode_browse : Text → Decoded BrowseArgs
  pub decode_set_bookmark : Text → Decoded SetBookmarkArgs
  pub describe : Service.Error → Text
  pub format_date : ℤ → Text
  pub roots : List Text

abbrev pub content_directory_service_type : Text
content_directory_service_type = codes "urn:schemas-upnp-org:service:ContentDirectory:1"

abbrev pub system_update_id : Text
system_update_id = codes "1"

abbrev pub method_not_allowed : List Call
method_not_allowed = write_header 405 ∷ []

unfoldable pub is_read : Text → Bool
is_read method = text_beq method (codes "GET") || text_beq method (codes "HEAD")

-- HandleSCPDURL, for the ready description.
unfoldable pub handle_scpd_url : Text → Request → List Call
unfolding is_read
handle_scpd_url description r =
    if is_read r.method then send_xml description none else method_not_allowed

abbrev pub no_such_object_error_code : ℕ
no_such_object_error_code = 701

send_extra : List Call → List Call
send_extra cs = set_header (codes "EXT") [] ∷ cs

-- The outcome of a Browse: the document with the total, or an error response.
pub data Browsed : Type 0 where
  found : DidlLite → ℕ → Browsed
  stopped : List Call → Browsed

unfoldable pub append_children : Env → ℤ → Request → DidlLite → List Object → DidlLite
unfolding append
append_children env parent r v [] = v
append_children env parent r v (o ∷ os) =
    append_children env parent r (append v (upnpav_obj env.format_date o parent r)) os

abbrev pub empty_didl : Request → DidlLite
empty_didl r = record { debug = text_beq r.x_debug (codes "1"); items = [] }

unfoldable pub send_plain : Env → Service.Error → List Call
send_plain env e = send_error (plain (env.describe e)) none

browse_direct_children : Env → Object → Request → Option SearchResponse → Browsed
unfolding append_children send_plain
browse_direct_children env o r none = stopped (send_plain env driver_error)
browse_direct_children env o r (some res) =
    found (append_children env (pos o.id) r (empty_didl r) res.items) res.total_matches

browse_metadata : Env → Object → Request → Result ℤ → Browsed
unfolding append send_plain
browse_metadata env o r (err e) = stopped (send_plain env e)
browse_metadata env o r (ok parent) =
    found (append (empty_didl r) (upnpav_obj env.format_date o parent r)) 1

unfoldable pub browse_out : DidlLite → ℕ → Response
unfolding marshal_soap
browse_out v total = struct (
    (codes "Result", marshaled (marshal_soap (some v)))
    ∷ (codes "NumberReturned", number (pos (length v.items)))
    ∷ (codes "TotalMatches", number (pos total))
    ∷ (codes "UpdateID", text system_update_id)
    ∷ [])

unfoldable pub send_browse : Action → Browsed → List Call
unfolding browse_out send_extra build_xml
send_browse a (stopped cs) = cs
send_browse a (found v total) =
    send_extra (send_action_response a (build_xml (browse_out v total)) none)

abbrev feature_list : Text
feature_list =
    codes
      "<Features xmlns=\"urn:schemas-upnp-org:av:avs\" xmlns:xsi=\"http://www.w3.org/2001/XMLSchema-instance\""
    ++ (codes
          " xsi:schemaLocation=\"urn:schemas-upnp-org:av:avs http://www.upnp.org/schemas/av/avs.xsd\">"
        ++ codes
            "<Feature name=\"samsung.com_BASICVIEW\" version=\"1\"><container id=\"0\" type=\"object.item.videoItem\"/></Feature></Features>")

-- The XMLLite value escapes itself.
unfoldable pub feature_list_out : Response
unfolding xml_value_encode_light
feature_list_out =
    struct ((codes "FeatureList", marshaled (xml_value_encode_light feature_list)) ∷ [])

unfoldable pub send_ready : Action → Response → List Call
unfolding send_extra build_xml
send_ready a out = send_extra (send_action_response a (build_xml out) none)

-- The multiplication is one of int64.
unfoldable pub position : Request → SetBookmarkArgs → ℤ
unfolding use_seconds_in_bookmark wrap_int64
position r args =
    if use_seconds_in_bookmark r then wrap_int64 (scale args.pos_second 1000) else args.pos_second

-- The error is answered, and then the action all the same: the code does not return in between.
unfoldable pub finish_bookmark : Env → Action → Option Service.Error → List Call
unfolding send_plain build_xml
finish_bookmark env a none = send_action_response a (build_xml nothing) none
finish_bookmark env a (some e) = send_plain env e ++ send_action_response a (build_xml nothing) none

module _ {S : Type 0} (drv : DatabaseDriver S) (env : Env) where
  unfoldable pub by_flag : S → BrowseArgs → Request → Object → Browsed
  unfolding browse_direct_children browse_metadata children parent_id text_beq
  by_flag s args r o =
      if text_beq args.browse_flag (codes "BrowseDirectChildren")
      then browse_direct_children env o r
          (children drv env.roots s o args.requested_count args.starting_index)
      else if text_beq args.browse_flag (codes "BrowseMetadata")
      then browse_metadata env o r (parent_id drv env.roots s o)
      else stopped (
          send_upnp_error argument_value_invalid_error_code
            (codes "invalid BrowseFlag: " ++ args.browse_flag) none)

  browse_object : S → BrowseArgs → Request → Result Object → Browsed
  unfolding by_flag
  browse_object s args r (err e) =
      stopped (send_upnp_error no_such_object_error_code (codes "no such object") (some 400))
  browse_object s args r (ok o) = by_flag s args r o

  unfoldable pub browse : S → Request → Decoded BrowseArgs → Browsed
  unfolding browse_object object
  browse s r (refused e) = stopped (send_error e none)
  browse s r (decoded args) = browse_object s args r (object drv s args.object_id)

module _ {S F : Type 0} (drv : DatabaseDriver S) (media : Media F) (env : Env) where
  unfoldable pub x_set_bookmark :
      World S F → Action → Request → Decoded SetBookmarkArgs → World S F × List Call
  unfolding set_bookmark position finish_bookmark
  x_set_bookmark w a r (refused e) = (w, send_error e none)
  x_set_bookmark w a r (decoded args) =
      let (w', e) = set_bookmark drv media w args.object_id (position r args) in
      (w', finish_bookmark env a e)

  unfoldable pub by_action : World S F → Request → Action → World S F × List Call
  unfolding browse x_set_bookmark send_browse send_ready feature_list_out
  by_action w r a =
      if text_beq a.name (codes "Browse")
      then (w, send_browse a (browse drv env w.store r (env.decode_browse r.body)))
      else if text_beq a.name (codes "GetSearchCapabilities")
      then (w, send_ready a (ready (codes "<SearchCaps></SearchCaps>")))
      else if text_beq a.name (codes "GetSortCapabilities")
      then (w, send_ready a (ready (codes "<SortCaps></SortCaps>")))
      else if text_beq a.name (codes "GetSystemUpdateID")
      then (w, send_ready a (ready (codes "<Id>" ++ (system_update_id ++ codes "</Id>"))))
      else if text_beq a.name (codes "X_GetFeatureList")
      then (w, send_ready a feature_list_out)
      else if text_beq a.name (codes "X_SetBookmark")
      then x_set_bookmark w a r (env.decode_set_bookmark r.body)
      else (
        w,
        send_upnp_error invalid_action_error_code
            (codes "unknown action '" ++ (a.name ++ codes "'")) (some 401),
      )

  by_detected : World S F → Request → Option Action → World S F × List Call
  unfolding by_action
  by_detected w r none = (w, write_header 400 ∷ [])
  by_detected w r (some a) =
      if text_beq a.service_type content_directory_service_type
      then by_action w r a
      else (w, write_header 400 ∷ [])

  unfoldable pub handle_control_url : World S F → Request → World S F × List Call
  unfolding by_detected detect_action
  handle_control_url w r =
      if text_beq r.method (codes "POST")
      then by_detected w r (detect_action r.soap_action)
      else (w, method_not_allowed)
