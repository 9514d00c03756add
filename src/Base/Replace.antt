-- ===== src/Base/Replace.antt =====
-- `strings.Replace(s, old, new, -1)`: each occurrence from the left, none overlapping.
use mathlib.Core.List.{flat_map}
use Prim.Native.Nat.{ℕ, zero, suc, ◌-◌}
use mathlib.Core.Path.{◌≡◌, refl}
use mathlib.Core.Bool.{true, false}
use mathlib.Core.List.{[], ◌∷◌, ◌++◌}
use native.Mathlib.Omega.{arith}
use godlna.Base.Tests.{nat_beq, if◌then◌else◌}
use godlna.Base.Lists.{length}
use godlna.Base.Strings.{Text, has_prefix}

-- The number counts the bytes of a match that are still to be passed over.
replace_from : Text → Text → ℕ → Text → Text
replace_from old new skip [] = []
replace_from old new (suc skip) (c ∷ s) = replace_from old new skip s
replace_from old new zero (c ∷ s) = elim (has_prefix old (c ∷ s)) [
  | true ↦ new ++ replace_from old new (length old - 1) s
  | false ↦ c ∷ replace_from old new 0 s
]

unfoldable pub replace_all : Text → Text → Text → Text
unfolding replace_from has_prefix
replace_all s old new = replace_from old new 0 s

-- One byte is replaced wherever it stands.
unfoldable pub swap_byte : ℕ → Text → ℕ → Text
swap_byte b new c = if nat_beq b c then new else c ∷ []

pub replace_all_byte :
    (s : Text) (b : ℕ) (new : Text) → replace_all s (b ∷ []) new ≡ flat_map (swap_byte b new) s
unfolding replace_all swap_byte flat_map
replace_all_byte [] b new = refl
replace_all_byte (c ∷ s) b new = ground (arith, replace_all_byte s b new)
