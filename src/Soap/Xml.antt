-- ===== src/Soap/Xml.antt =====
-- The text that package encoding/xml writes: escaped text, attributes and elements. In a text of valid UTF-8 the
-- bytes from 128 on stand as they are.
use mathlib.Core.List.{flat_map}
use godlna.Base.{
  ℕ, Text, codes, [], ◌∷◌, ◌++◌, nat_beq, ltb, if◌then◌else◌, zero, suc, ℤ, pos, negsuc, decimal_ℤ,
  text_beq,
}

-- EscapeText; a control character that XML does not allow becomes U+FFFD.
unfoldable pub escape_byte : ℕ → Text
escape_byte c =
    if nat_beq c b'"'
    then codes "&#34;"
    else if nat_beq c b'\''
    then codes "&#39;"
    else if nat_beq c b'&'
    then codes "&amp;"
    else if nat_beq c b'<'
    then codes "&lt;"
    else if nat_beq c b'>'
    then codes "&gt;"
    else if nat_beq c 9
    then codes "&#x9;"
    else if nat_beq c 10
    then codes "&#xA;"
    else if nat_beq c 13
    then codes "&#xD;"
    else if ltb c 32
    then 239 ∷ 191 ∷ 189 ∷ []
    else c ∷ []

unfoldable pub escape_text : Text → Text
unfolding flat_map escape_byte
escape_text s = flat_map escape_byte s

unfoldable pub attribute : Text → Text → Text
unfolding escape_text
attribute name value = b' ' ∷ (name ++ (codes "=\"" ++ (escape_text value ++ codes "\"")))

-- An attribute with omitempty.
unfoldable pub attribute_if : Text → Text → Text
unfolding attribute
attribute_if name value = if text_beq value [] then [] else attribute name value

unfoldable pub number_if : Text → ℤ → Text
unfolding attribute
number_if name (pos zero) = []
number_if name (pos (suc n)) = attribute name (decimal_ℤ (pos (suc n)))
number_if name (negsuc n) = attribute name (decimal_ℤ (negsuc n))

-- The attributes and the content are ready text.
unfoldable pub element : Text → Text → Text → Text
element name attributes content =
    b'<' ∷ (name ++ (attributes ++ (b'>' ∷ (content ++ (codes "</" ++ (name ++ codes ">"))))))

unfoldable pub element_if : Text → Text → Text
unfolding element escape_text
element_if name value = if text_beq value [] then [] else element name [] (escape_text value)
