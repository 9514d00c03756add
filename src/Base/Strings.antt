-- ===== src/Base/Strings.antt =====
-- Text as the list of its bytes, which is what a Go string is, and the tests of package strings.
use Prim.Native.Nat.{ℕ}
use Prim.Native.Char.{code}
use Prim.Native.String.{String}
use mathlib.Core.Path.{◌≡◌, refl}
use mathlib.Core.Logic.{◌↔◌, ◌≢◌}
use mathlib.Core.Bool.{Bool, true, false, ◌&&◌}
use mathlib.Core.List.{List, [], ◌∷◌, ◌++◌}
use native.Mathlib.Omega.{arith}
use godlna.Base.Tests.{nat_beq}
use godlna.Base.Lists.{length, drop, All}

abbrev pub Text : Type 0
Text = List ℕ

-- The code points of a literal: its bytes, as the literals of the program are ASCII.
abbrev pub codes : String → Text
codes String.[] = []
codes (String.◌∷◌ c s) = code c ∷ codes s

unfoldable pub text_beq : Text → Text → Bool
text_beq [] [] = true
text_beq [] (y ∷ ys) = false
text_beq (x ∷ xs) [] = false
text_beq (x ∷ xs) (y ∷ ys) = nat_beq x y && text_beq xs ys

text_beq_refl : (s : Text) → text_beq s s ≡ true
unfolding text_beq
text_beq_refl [] = refl
text_beq_refl (x ∷ xs) = ground (arith, text_beq_refl xs)

eq_of_text_beq : (s t : Text) → text_beq s t ≡ true → s ≡ t
unfolding text_beq
eq_of_text_beq [] [] h = refl
eq_of_text_beq [] (y ∷ ys) h = cc
eq_of_text_beq (x ∷ xs) [] h = cc
eq_of_text_beq (x ∷ xs) (y ∷ ys) h = ground (arith, eq_of_text_beq xs ys)

pub text_beq_iff : (s t : Text) → (text_beq s t ≡ true) ↔ (s ≡ t)
text_beq_iff s t = (eq_of_text_beq s t, λ e. ground (arith, text_beq_refl s))

-- strings.HasPrefix, with the prefix first.
unfoldable pub has_prefix : Text → Text → Bool
has_prefix [] s = true
has_prefix (p ∷ ps) [] = false
has_prefix (p ∷ ps) (c ∷ s) = nat_beq p c && has_prefix ps s

pub has_prefix-append : (p s : Text) → has_prefix p (p ++ s) ≡ true
unfolding has_prefix
has_prefix-append [] s = refl
has_prefix-append (c ∷ p) s = ground (arith, has_prefix-append p s)

pub has_prefix_refl : (p : Text) → has_prefix p p ≡ true
unfolding has_prefix
has_prefix_refl [] = refl
has_prefix_refl (c ∷ p) = ground (arith, has_prefix_refl p)

pub append-drop_of_prefix : (p s : Text) → has_prefix p s ≡ true → p ++ drop (length p) s ≡ s
unfolding has_prefix
append-drop_of_prefix [] s h = refl
append-drop_of_prefix (c ∷ p) [] h = cc
append-drop_of_prefix (c ∷ p) (d ∷ s) h = ground (arith, append-drop_of_prefix p s)

pub has_prefix-eq_nil : (p : Text) → has_prefix p [] ≡ true → p ≡ []
unfolding has_prefix
has_prefix-eq_nil [] h = refl
has_prefix-eq_nil (c ∷ p) h = cc

abbrev pub Lacks : ℕ → Text → Type 0
Lacks b = All (λ c. c ≢ b)
