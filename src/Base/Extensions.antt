-- ===== src/Base/Extensions.antt =====
-- `filepath.Ext` of a name that is given an extension.
use Prim.Native.Nat.{ℕ, ◌-◌}
use mathlib.Core.Path.{◌≡◌, refl, ap, ◌∙◌}
use mathlib.Core.List.{append-nil}
use mathlib.Core.Logic.{◌⊎◌, inl, inr}
use mathlib.Core.Bool.{true, false, ◌||◌}
use mathlib.Core.List.{[], ◌∷◌, ◌++◌}
use native.Mathlib.Omega.{arith}
use godlna.Base.Tests.{nat_beq, nat_beq_iff, Bool-cases}
use godlna.Base.Lists.{length, length-append, take-append}
use godlna.Base.Strings.{Lacks, Text}
use godlna.Base.Paths.{has_byte, ext, without_ext}

IsExtension : Text → Type 0
IsExtension e =
    (e ≡ []) ⊎ ((t : Text) × (e ≡ b'.' ∷ t) × (has_byte b'/' t ≡ false) × (has_byte b'.' t ≡ false))

ext-IsExtension : (s : Text) → IsExtension (ext s)
ext-IsExtension [] = unfold IsExtension ext in inl refl
ext-IsExtension (c ∷ s) = later (ext-IsExtension s)
  where
    later : IsExtension (ext s) → IsExtension (ext (c ∷ s))
    later h = elim (Bool-cases (has_byte b'/' s || has_byte b'.' s)) [
      | inl e ↦ unfold ext in rw e h
      | inr e ↦ elim (Bool-cases (nat_beq c b'.')) [
        | inl d ↦
            unfold ext IsExtension in
            rw (e, d)
              (inr (s, ground (arith, nat_beq_iff c b'.'), ground (arith, e), ground (arith, e)))
        | inr d ↦ unfold ext IsExtension in rw (e, d) (inl refl)
      ]
    ]

has_byte_after : (b : ℕ) (a t : Text) → has_byte b (a ++ b ∷ t) ≡ true
unfolding has_byte
has_byte_after b [] t = ground arith
has_byte_after b (c ∷ a) t = ground (arith, has_byte_after b a t)

ext_dot :
    (a t : Text)
    → has_byte b'/' t ≡ false
    → has_byte b'.' t ≡ false
    → ext (a ++ b'.' ∷ t) ≡ b'.' ∷ t
unfolding ext
ext_dot [] t h k = rw (h, k) refl
ext_dot (c ∷ a) t h k = ground (arith, has_byte_after b'.' a t, ext_dot a t h k)

has_byte-Lacks : (b : ℕ) (a : Text) → Lacks b a → has_byte b a ≡ false
unfolding has_byte
has_byte-Lacks b [] l = refl
has_byte-Lacks b (c ∷ a) (h, l) = ground (arith, has_byte-Lacks b a l, h, nat_beq_iff b c)

ext_plain : (a : Text) → Lacks b'.' a → Lacks b'/' a → ext a ≡ []
unfolding ext
ext_plain [] l m = refl
ext_plain (c ∷ a) (h, l) (g, m) =
    ground (arith, has_byte-Lacks b'.' a l, has_byte-Lacks b'/' a m, h, nat_beq_iff c b'.')

-- A plain name with the extension of another has that extension.
pub ext_of_name : (a p : Text) → Lacks b'.' a → Lacks b'/' a → ext (a ++ ext p) ≡ ext p
ext_of_name a p l m =
    unfold IsExtension in
    elim (ext-IsExtension p) [
      | inl e ↦ rw e (ap ext (append-nil a) ∙ ext_plain a l m)
      | inr (t, e, h, k) ↦ rw e (ext_dot a t h k)
    ]

pub without_ext_of_name : (a p : Text) → Lacks b'.' a → Lacks b'/' a → without_ext (a ++ ext p) ≡ a
unfolding without_ext
without_ext_of_name a p l m =
    let n : length (a ++ ext p) - length (ext (a ++ ext p)) ≡ length a =
      omega (arith, length-append a (ext p), ap length (ext_of_name a p l m)) in
    rw n (take-append a (ext p))

-- The extension is inside the last element of a path.
pub has_byte-ext : (p : Text) → has_byte b'/' (ext p) ≡ false
has_byte-ext p =
    unfold IsExtension in
    elim (ext-IsExtension p) [
      | inl e ↦ rw e (unfold has_byte in refl)
      | inr (t, e, h, k) ↦ rw e (unfold has_byte in rw h refl)
    ]
