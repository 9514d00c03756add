-- ===== src/Soap/Escape.antt =====
-- `xmlValueEncodeLight` of pkg/soap/types.go: the escaping of text inside a SOAP response.
use mathlib.Core.List.{flat_map, append_assoc}
use godlna.Base.{
  ℕ, zero, suc, Text, codes, List, [], ◌∷◌, ◌++◌, ◌≡◌, refl, ap, ◌∙◌, arith, replace_all, swap_byte,
  replace_all_byte, has_prefix, if◌then◌else◌, nat_beq, All-append, Lacks,
}

unfoldable pub xml_value_encode_light : Text → Text
unfolding replace_all
xml_value_encode_light s =
    let res = replace_all s (codes "&") (codes "&amp;") in
    let res' = replace_all res (codes "\"") (codes "&quot;") in
    let res'' = replace_all res' (codes "<") (codes "&lt;") in
    replace_all res'' (codes ">") (codes "&gt;")

-- The specification: the escaped form of one byte.
abbrev pub entity : ℕ → Text
entity c =
    if nat_beq c b'&'
    then codes "&amp;"
    else if nat_beq c b'"'
    then codes "&quot;"
    else if nat_beq c b'<'
    then codes "&lt;"
    else if nat_beq c b'>'
    then codes "&gt;"
    else c ∷ []

flat_map-append {ℓ κ} :
    {A : Type ℓ} {B : Type κ} (f : A → List B) (xs ys : List A)
    → flat_map f (xs ++ ys) ≡ flat_map f xs ++ flat_map f ys
unfolding flat_map
flat_map-append f [] ys = refl
flat_map-append f (x ∷ xs) ys = simp (flat_map-append f xs ys, append_assoc)

-- Two passes are one pass by the composed step.
flat_map_twice :
    (f g h : ℕ → Text)
    → ((c : ℕ) → flat_map g (f c) ≡ h c)
    → (s : Text) → flat_map g (flat_map f s) ≡ flat_map h s
unfolding flat_map
flat_map_twice f g h e [] = refl
flat_map_twice f g h e (c ∷ s) =
    flat_map-append g (f c) (flat_map f s) ∙ rw (e c, flat_map_twice f g h e s) refl

abbrev pass : ℕ → Text → ℕ → Text
pass b new c = if nat_beq b c then new else c ∷ []

swap_byte-pass :
    (s : Text) (b : ℕ) (new : Text) → replace_all s (b ∷ []) new ≡ flat_map (pass b new) s
unfolding swap_byte
swap_byte-pass s b new = replace_all_byte s b new

abbrev two : ℕ → Text
two c = if nat_beq c b'&' then codes "&amp;" else if nat_beq c b'"' then codes "&quot;" else c ∷ []

abbrev three : ℕ → Text
three c =
    if nat_beq c b'&'
    then codes "&amp;"
    else if nat_beq c b'"'
    then codes "&quot;"
    else if nat_beq c b'<'
    then codes "&lt;"
    else c ∷ []

two_passes : (c : ℕ) → flat_map (pass b'"' (codes "&quot;")) (pass b'&' (codes "&amp;") c) ≡ two c
unfolding flat_map
two_passes c = ground arith

three_passes : (c : ℕ) → flat_map (pass b'<' (codes "&lt;")) (two c) ≡ three c
unfolding flat_map
three_passes c = ground arith

four_passes : (c : ℕ) → flat_map (pass b'>' (codes "&gt;")) (three c) ≡ entity c
unfolding flat_map
four_passes c = ground arith

-- The four passes of replacement, one after the other, escape each byte once: no pass touches what an earlier one
-- wrote.
pub xml_value_encode_light-flat_map : (s : Text) → xml_value_encode_light s ≡ flat_map entity s
unfolding xml_value_encode_light
xml_value_encode_light-flat_map s = rw (
  swap_byte-pass s b'&' (codes "&amp;"),
  swap_byte-pass (flat_map (pass b'&' (codes "&amp;")) s) b'"' (codes "&quot;"),
  flat_map_twice _ _ two two_passes s,
  swap_byte-pass (flat_map two s) b'<' (codes "&lt;"),
  flat_map_twice _ _ three three_passes s,
  swap_byte-pass (flat_map three s) b'>' (codes "&gt;"),
  flat_map_twice _ _ entity four_passes s,
)

-- A reader of the predefined entities: the number counts the bytes of an entity still to be passed over.
decode_from : ℕ → Text → Text
decode_from skip [] = []
decode_from (suc skip) (c ∷ s) = decode_from skip s
decode_from zero (c ∷ s) =
    let amp = b'&' ∷ decode_from 4 s in
    let quot = b'"' ∷ decode_from 5 s in
    let lt = b'<' ∷ decode_from 3 s in
    let gt = b'>' ∷ decode_from 3 s in
    let same = c ∷ decode_from 0 s in
    if has_prefix (codes "&amp;") (c ∷ s)
    then amp
    else if has_prefix (codes "&quot;") (c ∷ s)
    then quot
    else if has_prefix (codes "&lt;") (c ∷ s)
    then lt
    else if has_prefix (codes "&gt;") (c ∷ s)
    then gt
    else same

unfoldable pub xml_decode : Text → Text
unfolding decode_from has_prefix
xml_decode s = decode_from 0 s

decode-entity : (c : ℕ) (rest : Text) → decode_from 0 (entity c ++ rest) ≡ c ∷ decode_from 0 rest
unfolding decode_from has_prefix
decode-entity c rest = ground arith

decode-flat_map : (s : Text) → decode_from 0 (flat_map entity s) ≡ s
unfolding flat_map
decode-flat_map [] = unfold decode_from in refl
decode-flat_map (c ∷ s) = decode-entity c (flat_map entity s) ∙ ap (◌∷◌ c) (decode-flat_map s)

-- A reader that resolves the four entities gets back every text that was escaped.
pub xml_decode-encode : (s : Text) → xml_decode (xml_value_encode_light s) ≡ s
unfolding xml_decode
xml_decode-encode s = rw (xml_value_encode_light-flat_map s) (decode-flat_map s)

entity-Lacks : (c : ℕ) → Lacks b'<' (entity c) × Lacks b'>' (entity c) × Lacks b'"' (entity c)
entity-Lacks c = ground arith

flat_map-Lacks : (b : ℕ) → ((c : ℕ) → Lacks b (entity c)) → (s : Text) → Lacks b (flat_map entity s)
unfolding flat_map
flat_map-Lacks b h [] = tt
flat_map-Lacks b h (c ∷ s) =
    All-append _ (entity c) (flat_map entity s) (h c) (flat_map-Lacks b h s)

-- Escaped text holds no angle bracket and no double quote.
pub xml_value_encode_light-Lacks :
    (s : Text)
    → Lacks b'<' (xml_value_encode_light s)
      × Lacks b'>' (xml_value_encode_light s)
      × Lacks b'"' (xml_value_encode_light s)
xml_value_encode_light-Lacks s = rw (xml_value_encode_light-flat_map s) (
  flat_map-Lacks b'<' (λ c. (entity-Lacks c).0) s,
  flat_map-Lacks b'>' (λ c. (entity-Lacks c).1) s,
  flat_map-Lacks b'"' (λ c. (entity-Lacks c).2) s,
)
