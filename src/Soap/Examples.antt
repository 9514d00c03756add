-- ===== src/Soap/Examples.antt =====
-- The theorems about pkg/soap at concrete texts.
use godlna.Base.{Text, codes, some, ◌≡◌, ◌↔◌}
use godlna.Soap.Escape.{xml_value_encode_light, xml_decode, xml_decode-encode}
use godlna.Soap.Action.{Action, Names, detect_action, detect_action_iff}

abbrev markup : Text
markup = codes "<a href=\"x\">Tom & Jerry</a>"

xml_decode-encode_example : xml_decode (xml_value_encode_light markup) ≡ markup
xml_decode-encode_example = xml_decode-encode markup

abbrev browse_header : Text
browse_header = codes "\"urn:schemas-upnp-org:service:ContentDirectory:1#Browse\""

abbrev browse : Action
browse = record {
  service_type = codes "urn:schemas-upnp-org:service:ContentDirectory:1";
  name = codes "Browse";
}

detect_action_iff_example : (detect_action browse_header ≡ some browse) ↔ Names browse_header browse
detect_action_iff_example = detect_action_iff browse_header browse
