-- ===== src/Soap/Value.antt =====
-- encodeResValue, encodeResStruct and buildXML of pkg/soap/response.go. Where the code looks at the type of a value
-- by reflection, the value is a constructor for each of the types that the program sends.
use godlna.Base.{Text, List, [], ◌∷◌, ◌++◌, ℤ, decimal_ℤ}
use godlna.Soap.Xml.{escape_text, element}

-- What `MarshalSoap` gives for a Marshaler; any other value goes through the XML encoder.
pub data Value : Type 0 where
  marshaled : Text → Value
  text : Text → Value
  number : ℤ → Value

unfoldable pub encode_res_value : Value → Text
encode_res_value (marshaled s) = s
encode_res_value (text s) = escape_text s
encode_res_value (number n) = decimal_ℤ n

-- The fields with their tag names.
unfoldable pub encode_res_struct : List (Text × Value) → Text
unfolding encode_res_value element
encode_res_struct [] = []
encode_res_struct ((tag, v) ∷ fields) =
    element tag [] (encode_res_value v) ++ encode_res_struct fields

pub data Response : Type 0 where
  nothing : Response
  ready : Text → Response
  struct : List (Text × Value) → Response

unfoldable pub build_xml : Response → Text
unfolding encode_res_struct
build_xml nothing = []
build_xml (ready xml) = xml
build_xml (struct fields) = encode_res_struct fields
