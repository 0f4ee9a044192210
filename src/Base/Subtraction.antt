-- ===== src/Base/Subtraction.antt =====
-- The difference of two doubles of any sign.
use Prim.Native.Nat.{ℕ, zero, suc, ◌+◌, ◌^◌}
use mathlib.Core.Path.{◌≡◌, refl}
use mathlib.Core.Logic.{inl, inr}
use mathlib.Core.Bool.{true, false≢true}
use native.Mathlib.Omega.{arith}
use ai_system_engineering_cu.Base.Tests.{ltb, Bool-cases, if◌then◌else◌}
use ai_system_engineering_cu.Base.Arithmetic.{rounded_ratio}
use ai_system_engineering_cu.Base.Floats.{
  ℤ, pos, negsuc, ◌+ℤ◌, negate, Double, nan, minus_infinity, finite, plus_infinity, leb_double,
  ltb_double,
}

-- From 2^1024 on a result overflows.
unfoldable pub above : ℕ → Double
above m = if ltb m (2 ^ 2098) then finite (pos m) else plus_infinity

unfoldable pub below : ℕ → Double
unfolding negate
below m = if ltb m (2 ^ 2098) then finite (negate (pos m)) else minus_infinity

-- The double nearest to a whole multiple of 2^-1074.
unfoldable pub rounded_double : ℤ → Double
unfolding rounded_ratio above below
rounded_double (pos n) = above (rounded_ratio n 1)
rounded_double (negsuc n) = below (rounded_ratio (suc n) 1)

-- `a - b`
unfoldable pub sub_double : Double → Double → Double
unfolding rounded_double ◌+ℤ◌ negate
sub_double nan b = nan
sub_double a nan = nan
sub_double (finite a) (finite b) = rounded_double (a +ℤ negate b)
sub_double (finite a) minus_infinity = plus_infinity
sub_double (finite a) plus_infinity = minus_infinity
sub_double plus_infinity plus_infinity = nan
sub_double plus_infinity b = plus_infinity
sub_double minus_infinity minus_infinity = nan
sub_double minus_infinity b = minus_infinity

above_positive : (m : ℕ) → leb_double (finite (pos 0)) (above m) ≡ true
unfolding above leb_double
above_positive m = elim (Bool-cases (ltb m (2 ^ 2098))) [
  | inl small ↦ rw small (ground arith)
  | inr large ↦ rw large refl
]

rounded_positive : (n : ℕ) → leb_double (finite (pos 0)) (rounded_double (pos n)) ≡ true
unfolding rounded_double
rounded_positive n = above_positive (rounded_ratio n 1)

difference_positive :
    (a b : ℤ)
    → ltb_double (finite b) (finite a) ≡ true
    → leb_double (finite (pos 0)) (rounded_double (a +ℤ negate b)) ≡ true
unfolding ltb_double leb_double ◌+ℤ◌ negate
difference_positive (pos a) (pos zero) h = rounded_positive (a + 0)
difference_positive (pos a) (pos (suc b)) h = elim (Bool-cases (ltb b a)) [
  | inl less ↦ rw less (rounded_positive _)
  | inr other ↦ absurd (ground (arith, h, other))
]
difference_positive (pos a) (negsuc b) h = rounded_positive _
difference_positive (negsuc a) (pos b) h = absurd (ground (arith, h))
difference_positive (negsuc a) (negsuc b) h = elim (Bool-cases (ltb a (suc b))) [
  | inl less ↦ rw less (rounded_positive _)
  | inr other ↦ absurd (ground (arith, h, other))
]

nothing_less : (b : Double) → ltb_double b minus_infinity ≡ true → ⊥
unfolding ltb_double leb_double
nothing_less nan h = false≢true h
nothing_less minus_infinity h = false≢true h
nothing_less (finite b) h = false≢true h
nothing_less plus_infinity h = false≢true h

below_nan : (b : Double) → ltb_double b nan ≡ true → ⊥
unfolding ltb_double leb_double
below_nan nan h = false≢true h
below_nan minus_infinity h = false≢true h
below_nan (finite b) h = false≢true h
below_nan plus_infinity h = false≢true h

-- The distance to a smaller double is not negative.
pub sub_double-positive :
    (a b : Double) → ltb_double b a ≡ true → leb_double (finite (pos 0)) (sub_double a b) ≡ true
unfolding sub_double ltb_double leb_double
sub_double-positive (finite a) (finite b) h = difference_positive a b h
sub_double-positive (finite a) minus_infinity h = refl
sub_double-positive plus_infinity (finite b) h = refl
sub_double-positive plus_infinity minus_infinity h = refl
sub_double-positive nan b h = absurd (below_nan b h)
sub_double-positive minus_infinity b h = absurd (nothing_less b h)
sub_double-positive (finite a) nan h = absurd (false≢true h)
sub_double-positive (finite a) plus_infinity h = absurd (false≢true h)
sub_double-positive plus_infinity nan h = absurd (false≢true h)
sub_double-positive plus_infinity plus_infinity h = absurd (false≢true h)
