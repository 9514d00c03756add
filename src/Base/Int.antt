-- ===== src/Base/Int.antt =====
-- Go's signed integers over the native numbers, and the wrap-around of 64-bit arithmetic.
use Prim.Native.Nat.{ℕ, zero, suc, ◌*◌, ◌/◌, ◌+◌, ◌-◌, ◌%◌, ◌^◌, ◌≤◌, ◌<◌}
use mathlib.Core.Path.{◌≡◌}
use mathlib.Core.Bool.{Bool}
use native.Mathlib.Omega.{arith}
use godlna.Base.Tests.{ltb, leb, if◌then◌else◌}

-- `negsuc n` is -(n + 1).
pub data ℤ : Type 0 where
  pos : ℕ → ℤ
  negsuc : ℕ → ℤ

abbrev pub pos_part : ℤ → ℕ
pos_part (pos n) = n
pos_part (negsuc n) = 0

abbrev pub neg_part : ℤ → ℕ
neg_part (pos n) = 0
neg_part (negsuc n) = suc n

abbrev pub sub_ℕ : ℕ → ℕ → ℤ
sub_ℕ a b = if leb b a then pos (a - b) else negsuc (b - a - 1)

infixl 65 ◌+ℤ◌ ◌-ℤ◌
infix 50 ◌≤ℤ◌ ◌<ℤ◌
abbrev pub ◌+ℤ◌ : ℤ → ℤ → ℤ
a +ℤ b = sub_ℕ (pos_part a + pos_part b) (neg_part a + neg_part b)

abbrev pub ◌-ℤ◌ : ℤ → ℤ → ℤ
a -ℤ b = sub_ℕ (pos_part a + neg_part b) (neg_part a + pos_part b)

abbrev pub ◌≤ℤ◌ : ℤ → ℤ → Type 0
a ≤ℤ b = pos_part a + neg_part b ≤ pos_part b + neg_part a

abbrev pub ◌<ℤ◌ : ℤ → ℤ → Type 0
a <ℤ b = pos_part a + neg_part b < pos_part b + neg_part a

abbrev pub ltb_ℤ : ℤ → ℤ → Bool
ltb_ℤ a b = ltb (pos_part a + neg_part b) (pos_part b + neg_part a)

abbrev pub int64_mod : ℕ
int64_mod = 2 ^ 64

abbrev pub int64_max : ℕ
int64_max = 2 ^ 63 - 1

-- The int64 that holds the low 64 bits of a number.
unfoldable pub to_int64 : ℕ → ℤ
to_int64 n = let r = n % int64_mod in if leb r int64_max then pos r else negsuc (int64_mod - 1 - r)

-- The number -n.
abbrev pub neg : ℕ → ℤ
neg zero = pos 0
neg (suc n) = negsuc n

-- Go's quotient, remainder and product by a positive constant; the quotient is cut toward zero.
abbrev pub quot : ℤ → ℕ → ℤ
quot (pos n) k = pos (n / k)
quot (negsuc n) k = neg (suc n / k)

abbrev pub rem : ℤ → ℕ → ℤ
rem (pos n) k = pos (n % k)
rem (negsuc n) k = neg (suc n % k)

abbrev pub scale : ℤ → ℕ → ℤ
scale (pos n) k = pos (n * k)
scale (negsuc n) k = neg (suc n * k)

-- The int64 that a result out of range wraps to.
unfoldable pub wrap_int64 : ℤ → ℤ
unfolding to_int64
wrap_int64 (pos n) = to_int64 n
wrap_int64 (negsuc n) = to_int64 (int64_mod - 1 - n % int64_mod)

pub to_int64_exact : (n : ℕ) → n ≤ int64_max → to_int64 n ≡ pos n
unfolding to_int64
to_int64_exact n h = ground arith
