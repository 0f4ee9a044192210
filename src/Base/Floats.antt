-- ===== src/Base/Floats.antt =====
-- IEEE doubles as far as the program compares them. A finite double is a whole multiple of
-- 2^-1074, so it is kept as that integer; every comparison with a NaN is false.
use ai_system_engineering_cu.Base.Tests.{leb, ltb, if◌then◌else◌}
use Prim.Native.Nat.{ℕ, zero, suc, ◌+◌, ◌-◌}
use mathlib.Core.Path.{◌≡◌}
use native.Mathlib.Omega.{arith}
use mathlib.Core.Bool.{Bool, true, false, not, ◌&&◌}

-- `negsuc n` is -(n + 1).
pub data ℤ : Type 0 where
  pos : ℕ → ℤ
  negsuc : ℕ → ℤ

abbrev pub pos_part : ℤ → ℕ
pos_part (pos n) = n
pos_part (negsuc n) = 0

abbrev pub neg_part : ℤ → ℕ
neg_part (pos n) = 0
neg_part (negsuc n) = suc n

abbrev pub leb_ℤ : ℤ → ℤ → Bool
leb_ℤ a b = leb (pos_part a + neg_part b) (pos_part b + neg_part a)

pub data Double : Type 0 where
  nan : Double
  minus_infinity : Double
  finite : ℤ → Double
  plus_infinity : Double

-- `a <= b`
unfoldable pub leb_double : Double → Double → Bool
leb_double nan b = false
leb_double minus_infinity nan = false
leb_double minus_infinity b = true
leb_double (finite a) (finite b) = leb_ℤ a b
leb_double (finite a) plus_infinity = true
leb_double (finite a) b = false
leb_double plus_infinity plus_infinity = true
leb_double plus_infinity b = false

-- `a < b`
unfoldable pub ltb_double : Double → Double → Bool
unfolding leb_double
ltb_double a b = leb_double a b && not (leb_double b a)

infixl 60 ◌+ℤ◌
unfoldable pub ◌+ℤ◌ : ℤ → ℤ → ℤ
pos a +ℤ pos b = pos (a + b)
pos a +ℤ negsuc b = if ltb b a then pos (a - suc b) else negsuc (b - a)
negsuc a +ℤ pos b = if ltb a b then pos (b - suc a) else negsuc (a - b)
negsuc a +ℤ negsuc b = negsuc (suc (a + b))

unfoldable pub negate : ℤ → ℤ
negate (pos zero) = pos 0
negate (pos (suc n)) = negsuc n
negate (negsuc n) = pos (suc n)

-- The order of two summands does not matter.
pub +ℤ-swap : (a b c : ℤ) → (a +ℤ b) +ℤ c ≡ (a +ℤ c) +ℤ b
unfolding ◌+ℤ◌
+ℤ-swap a b c = ground arith
