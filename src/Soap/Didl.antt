-- ===== src/Soap/Didl.antt =====
-- The DIDL-Lite documents of pkg/soap/types.go, on the objects of pkg/upnpav/upnpav.go.
use godlna.Base.{
  Text, codes, List, [], ◌∷◌, ◌++◌, Option, none, some, zero, suc, Bool, ℤ, pos, negsuc, decimal_ℤ,
  if◌then◌else◌, replace_all,
}
use godlna.Soap.Escape.{xml_value_encode_light}
use godlna.Soap.Xml.{escape_text, attribute, attribute_if, number_if, element, element_if}

pub record AlbumArtUri : Type 0 where
  pub profile : Text
  pub value : Text

-- `upnpav.Object`; the number `Restricted` is 1 in all of them.
pub record AvObject : Type 0 where
  pub id : Text
  pub parent_id : Text
  pub restricted : ℤ
  pub title : Text
  pub class : Text
  pub icon : Text
  pub date : Text
  pub album_art_uri : Option AlbumArtUri

pub record Resource : Type 0 where
  pub protocol_info : Text
  pub url : Text
  pub size : ℤ
  pub bitrate : ℤ
  pub duration : Text
  pub resolution : Text
  pub audio_channels : ℤ
  pub sample_frequency : ℤ

-- A container, or an item with its resources and its bookmark.
pub data Entry : Type 0 where
  container : AvObject → Entry
  item : AvObject → List Resource → ℤ → Entry

pub record DidlLite : Type 0 where
  pub debug : Bool
  pub items : List Entry

unfoldable pub append : DidlLite → Entry → DidlLite
append v entry = record v { items = v.items ++ entry ∷ [] }

object_attributes : AvObject → Text
unfolding attribute
object_attributes o =
    attribute (codes "id") o.id
    ++ (attribute (codes "parentID") o.parent_id
        ++ attribute (codes "restricted") (decimal_ℤ o.restricted))

art_element : Option AlbumArtUri → Text
unfolding element attribute_if
art_element none = []
art_element (some a) =
    element (codes "upnp:albumArtURI") (attribute_if (codes "dlna:profileID") a.profile)
      (escape_text a.value)

object_elements : AvObject → Text
unfolding element element_if art_element
object_elements o =
    element (codes "dc:title") [] (escape_text o.title)
    ++ (element (codes "upnp:class") [] (escape_text o.class)
        ++ (element_if (codes "upnp:icon") o.icon
            ++ (element_if (codes "dc:date") o.date ++ art_element o.album_art_uri)))

resource_xml : Resource → Text
unfolding element attribute attribute_if number_if
resource_xml r =
    element (codes "res")
      (attribute (codes "protocolInfo") r.protocol_info
        ++ (number_if (codes "size") r.size
            ++ (number_if (codes "bitrate") r.bitrate
                ++ (attribute_if (codes "duration") r.duration
                    ++ (attribute_if (codes "resolution") r.resolution
                        ++ (number_if (codes "nrAudioChannels") r.audio_channels
                            ++ number_if (codes "sampleFrequency") r.sample_frequency))))))
      (escape_text r.url)

resources_xml : List Resource → Text
unfolding resource_xml
resources_xml [] = []
resources_xml (r ∷ rs) = resource_xml r ++ resources_xml rs

-- `MarshalText` of a bookmark, which the tag omits at zero.
unfoldable pub marshal_text : ℤ → Text
marshal_text b = codes "BM=" ++ decimal_ℤ b

bookmark_xml : ℤ → Text
unfolding element marshal_text
bookmark_xml (pos zero) = []
bookmark_xml (pos (suc n)) =
    element (codes "sec:dcmInfo") [] (escape_text (marshal_text (pos (suc n))))
bookmark_xml (negsuc n) = element (codes "sec:dcmInfo") [] (escape_text (marshal_text (negsuc n)))

entry_xml : Entry → Text
unfolding object_attributes object_elements resources_xml bookmark_xml element
entry_xml (container o) = element (codes "container") (object_attributes o) (object_elements o)
entry_xml (item o res b) =
    element (codes "item") (object_attributes o)
      (object_elements o ++ (resources_xml res ++ bookmark_xml b))

-- `xml.Marshal` of the items.
unfoldable pub marshal : List Entry → Text
unfolding entry_xml
marshal [] = []
marshal (e ∷ es) = entry_xml e ++ marshal es

unfoldable pub xml_body : DidlLite → Text
unfolding marshal
xml_body v =
    let res = replace_all (marshal v.items) (codes "&#34;") (codes "&quot;") in
    let res' = replace_all res (codes "&#39;") (codes "&apos;") in
    codes
      "<DIDL-Lite xmlns:dc=\"http://purl.org/dc/elements/1.1/\" xmlns:upnp=\"urn:schemas-upnp-org:metadata-1-0/upnp/\" xmlns=\"urn:schemas-upnp-org:metadata-1-0/DIDL-Lite/\""
    ++ (codes
          " xmlns:sec=\"http://www.sec.co.kr/\" xmlns:dlna=\"urn:schemas-dlna-org:metadata-1-0/\">"
        ++ (res' ++ codes "</DIDL-Lite>"))

-- A nil pointer gives no text.
unfoldable pub marshal_soap : Option DidlLite → Text
unfolding xml_body
marshal_soap none = []
marshal_soap (some v) = if v.debug then xml_body v else xml_value_encode_light (xml_body v)
