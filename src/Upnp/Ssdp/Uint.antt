-- ===== src/Upnp/Ssdp/Uint.antt =====
-- `strconv.ParseUint(s, 0, 0)`: the base is in the prefix, and underscores may part the digits.
use godlna.Base.{
  ℕ, ◌+◌, ◌-◌, ◌*◌, ◌^◌, Text, codes, [], ◌∷◌, Option, none, some, Bool, true, false, ◌&&◌, ◌||◌,
  not, if◌then◌else◌, leb, ltb, nat_beq, ◌≡◌, refl, is_digit, has_byte,
}

-- Go's `lower` on a letter.
unfoldable pub lower : ℕ → ℕ
lower c = if leb b'A' c && leb c b'Z' then c + 32 else c

-- A digit or letter as a number; any other byte is none.
digit_of : ℕ → Option ℕ
unfolding lower
digit_of c =
    if is_digit c
    then some (c - b'0')
    else if leb b'a' (lower c) && leb (lower c) b'z'
    then some (lower c - b'a' + 10)
    else none

with_digit : ℕ → ℕ → Option ℕ → Option ℕ
with_digit base n none = none
with_digit base n (some d) =
    if ltb d base && ltb (n * base + d) (2 ^ 64) then some (n * base + d) else none

scan_digits : ℕ → Text → Option ℕ → Option ℕ
unfolding digit_of with_digit
scan_digits base s none = none
scan_digits base [] (some n) = some n
scan_digits base (c ∷ s) (some n) =
    let skipped = scan_digits base s (some n) in
    let next = scan_digits base s (with_digit base n (digit_of c)) in
    if nat_beq c b'_' then skipped else next

-- The base that a letter after a zero names, when digits follow.
base_of : ℕ → Text → Option ℕ
unfolding lower
base_of c [] = none
base_of c (d ∷ s) =
    if nat_beq (lower c) b'b'
    then some 2
    else if nat_beq (lower c) b'o'
    then some 8
    else if nat_beq (lower c) b'x'
    then some 16
    else none

after_zero : Text → ℕ × Text
unfolding base_of
after_zero [] = (8, [])
after_zero (c ∷ s) = elim (base_of c s) [ none ↦ (8, c ∷ s) | some base ↦ (base, s) ]

-- The base and the digits.
base_digits : Text → ℕ × Text
unfolding after_zero
base_digits [] = (10, [])
base_digits (c ∷ s) = if nat_beq c b'0' then after_zero s else (10, c ∷ s)

-- What stood before: the start, a digit or a prefix, an underscore, or something else.
pub data Before : Type 0 where
  start digit underscore other : Before

is_hex_digit : Bool → ℕ → Bool
unfolding lower
is_hex_digit hex c = is_digit c || hex && (leb b'a' (lower c) && leb (lower c) b'f')

separates : Bool → Before → Text → Bool
unfolding is_hex_digit
separates hex underscore [] = false
separates hex start [] = true
separates hex digit [] = true
separates hex other [] = true
separates hex start (c ∷ s) =
    let ok = separates hex digit s in
    let rest = separates hex other s in
    if is_hex_digit hex c then ok else if nat_beq c b'_' then false else rest
separates hex digit (c ∷ s) =
    let ok = separates hex digit s in
    let gap = separates hex underscore s in
    let rest = separates hex other s in
    if is_hex_digit hex c then ok else if nat_beq c b'_' then gap else rest
separates hex underscore (c ∷ s) =
    let ok = separates hex digit s in if is_hex_digit hex c then ok else false
separates hex other (c ∷ s) =
    let ok = separates hex digit s in
    let rest = separates hex other s in
    if is_hex_digit hex c then ok else if nat_beq c b'_' then false else rest

-- `underscoreOK`; for it a prefix counts whether digits follow or not.
unsigned_ok : Text → Bool
unfolding separates base_of
unsigned_ok [] = separates false start []
unsigned_ok (a ∷ []) = separates false start (a ∷ [])
unsigned_ok (a ∷ b ∷ s) = elim (base_of b (b ∷ s)) [
  | none ↦ separates false start (a ∷ b ∷ s)
  | some base ↦
      if nat_beq a b'0'
      then separates (nat_beq base 16) digit s
      else separates false start (a ∷ b ∷ s)
]

underscore_ok : Text → Bool
unfolding unsigned_ok
underscore_ok [] = unsigned_ok []
underscore_ok (c ∷ s) =
    if nat_beq c b'-' || nat_beq c b'+' then unsigned_ok s else unsigned_ok (c ∷ s)

unfoldable pub parse_uint : Text → Option ℕ
unfolding base_digits scan_digits underscore_ok has_byte
parse_uint [] = none
parse_uint (c ∷ s) =
    let (base, digits) = base_digits (c ∷ s) in
    let n = scan_digits base digits (some 0) in
    if has_byte b'_' digits && not (underscore_ok (c ∷ s)) then none else n

tests :
    (parse_uint (codes "0x1F") ≡ some 31)
    × (parse_uint (codes "010") ≡ some 8)
    × (parse_uint (codes "1_0") ≡ some 10)
    × (parse_uint (codes "1__0") ≡ none)
unfolding parse_uint lower
tests = (refl, refl, refl, refl)
