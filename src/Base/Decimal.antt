-- ===== src/Base/Decimal.antt =====
-- Decimal text: `%d`, `strconv.Itoa` and `FormatInt` print it, `strconv.Atoi` and `ParseInt` read it.
use Prim.Native.Nat.{ℕ, zero, suc, ◌+◌, ◌-◌, ◌*◌, ◌/◌, ◌%◌, ◌≤◌, ◌<◌}
use mathlib.Core.Path.{◌≡◌, refl, ◌∙◌}
use mathlib.Core.Logic.{inl, inr}
use mathlib.Core.Bool.{Bool, true, ◌&&◌}
use mathlib.Core.List.{[], ◌∷◌}
use mathlib.Core.Option.{Option, none, some}
use native.Mathlib.Omega.{arith}
use godlna.Base.Tests.{leb, nat_beq, if◌then◌else◌, Bool-cases}
use godlna.Base.Lists.{All}
use godlna.Base.Strings.{Text, codes}
use godlna.Base.Int.{ℤ, pos, negsuc, int64_max}

-- One digit for each round; `suc n` rounds are more than the digits of `n`.
digits : ℕ → ℕ → Text → Text
digits zero n out = out
digits (suc f) n out =
    let more = digits f (n / 10) ((b'0' + n % 10) ∷ out) in
    if nat_beq (n / 10) 0 then (b'0' + n % 10) ∷ out else more

unfoldable pub decimal : ℕ → Text
unfolding digits
decimal n = digits (suc n) n []

unfoldable pub decimal_ℤ : ℤ → Text
unfolding decimal
decimal_ℤ (pos n) = decimal n
decimal_ℤ (negsuc n) = b'-' ∷ decimal (suc n)

abbrev pub is_digit : ℕ → Bool
is_digit c = leb b'0' c && leb c b'9'

unfoldable pub scan : Text → ℕ → Option ℕ
scan [] n = some n
scan (c ∷ s) n = if is_digit c then scan s (n * 10 + (c - b'0')) else none

unfoldable pub parse_digits : Text → Option ℕ
unfolding scan
parse_digits [] = none
parse_digits (c ∷ s) = scan (c ∷ s) 0

in_range : ℕ → (ℕ → ℤ) → Option ℕ → Option ℤ
in_range bound f none = none
in_range bound f (some n) = if leb n bound then some (f n) else none

negated : ℕ → ℤ
negated zero = pos 0
negated (suc n) = negsuc n

-- Base 10 and 64 bits: an optional sign, digits, an error out of the int64 range.
unfoldable pub parse_int : Text → Option ℤ
unfolding parse_digits in_range negated
parse_int [] = none
parse_int (c ∷ s) =
    if nat_beq c b'-'
    then in_range (suc int64_max) negated (parse_digits s)
    else if nat_beq c b'+'
    then in_range int64_max pos (parse_digits s)
    else in_range int64_max pos (parse_digits (c ∷ s))

digits-scan : (f n : ℕ) (out : Text) → n < f → scan (digits f n out) 0 ≡ scan out n
unfolding digits scan
digits-scan zero n out h = elim h [ ]
digits-scan (suc f) n out h = elim (Bool-cases (nat_beq (n / 10) 0)) [
  | inl e ↦ rw e (ground arith)
  | inr e ↦ rw e (digits-scan f (n / 10) ((b'0' + n % 10) ∷ out) (ground arith) ∙ ground arith)
]

abbrev AllDigits : Text → Type 0
AllDigits = All (λ c. is_digit c ≡ true)

digits-AllDigits : (f n : ℕ) (out : Text) → AllDigits out → AllDigits (digits f n out)
unfolding digits
digits-AllDigits zero n out h = h
digits-AllDigits (suc f) n out h =
    ground (arith, digits-AllDigits f (n / 10) ((b'0' + n % 10) ∷ out))

digits-cons :
    (f n : ℕ) (out : Text)
    → n < f
    → (c : ℕ) × (s : Text) × (digits f n out ≡ c ∷ s) × (is_digit c ≡ true)
unfolding digits
digits-cons zero n out h = elim h [ ]
digits-cons (suc f) n out h = elim (Bool-cases (nat_beq (n / 10) 0)) [
  | inl e ↦ rw e (b'0' + n % 10, out, refl, ground arith)
  | inr e ↦ rw e (digits-cons f (n / 10) ((b'0' + n % 10) ∷ out) (ground arith))
]

pub decimal-cons : (n : ℕ) → (c : ℕ) × (s : Text) × (decimal n ≡ c ∷ s) × (is_digit c ≡ true)
unfolding decimal
decimal-cons n = digits-cons (suc n) n [] (omega arith)

pub decimal-AllDigits : (n : ℕ) → AllDigits (decimal n)
unfolding decimal
decimal-AllDigits n = digits-AllDigits (suc n) n [] tt

parse_digits-scan : (s : Text) (c : ℕ) (t : Text) → s ≡ c ∷ t → parse_digits s ≡ scan s 0
unfolding parse_digits
parse_digits-scan s c t e = rw e refl

pub parse_digits-decimal : (n : ℕ) → parse_digits (decimal n) ≡ some n
unfolding decimal scan
parse_digits-decimal n =
    let (c, s, e, _) = digits-cons (suc n) n [] (omega arith) in
    parse_digits-scan (decimal n) c s e ∙ digits-scan (suc n) n [] (omega arith)

-- A number that fits is read back from its print.
pub parse_int-decimal : (n : ℕ) → n ≤ int64_max → parse_int (decimal n) ≡ some (pos n)
unfolding parse_int
parse_int-decimal n h =
    let (c, s, e, d) = decimal-cons n in
    rw (e, parse_int) (ground (arith, parse_digits-decimal n, e))

print : decimal 1907 ≡ codes "1907"
unfolding decimal
print = refl
