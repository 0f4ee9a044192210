-- ===== src/Base/Arithmetic.antt =====
-- Arithmetic on non-negative doubles, in units of 2^-1074: the exact result is rounded to the
-- nearest double, to the even one of two. Where nothing else is said, the result is below 2^1024.
use Prim.Native.Nat.{ℕ, zero, suc, ◌+◌, ◌-◌, ◌*◌, ◌/◌, ◌%◌, ◌^◌}
use mathlib.Core.Bool.{true, false}
use ai_system_engineering_cu.Base.Tests.{ltb, if◌then◌else◌}

-- 1.0
abbrev pub one : ℕ
one = 2 ^ 1074

-- The quotient rounded to the nearest natural number, to the even one of two.
unfoldable pub round_half_even : ℕ → ℕ → ℕ
round_half_even n d =
    if ltb (2 * (n % d)) d
    then n / d
    else if ltb d (2 * (n % d))
    then n / d + 1
    else n / d + n / d % 2

-- The distance of neighbouring doubles at `q`: 53 significant bits. A finite double is less than
-- 2^2098, so that 2100 halvings are enough.
unfoldable pub spacing : ℕ → ℕ → ℕ
spacing zero q = 1
spacing (suc fuel) q = elim (ltb q (2 ^ 53)) [ true ↦ 1 | false ↦ 2 * spacing fuel (q / 2) ]

-- The double nearest to `n / d`.
unfoldable pub rounded_ratio : ℕ → ℕ → ℕ
unfolding round_half_even spacing
rounded_ratio n d = round_half_even n (d * spacing 2100 (n / d)) * spacing 2100 (n / d)

-- `a + b`
unfoldable pub add_double : ℕ → ℕ → ℕ
unfolding rounded_ratio
add_double a b = rounded_ratio (a + b) 1

-- `1.0 - a`, for `a <= 1.0`
unfoldable pub one_minus : ℕ → ℕ
unfolding rounded_ratio
one_minus a = rounded_ratio (one - a) 1

-- `a / n` for a positive integer `n` below 2^53
unfoldable pub divide_double : ℕ → ℕ → ℕ
unfolding rounded_ratio
divide_double a n = rounded_ratio a n

-- `round(a, 12)`
unfoldable pub round_to_12 : ℕ → ℕ
unfolding rounded_ratio
round_to_12 a = rounded_ratio (round_half_even (a * 10 ^ 12) one * one) (10 ^ 12)

-- The square root rounded down; `n < 4 ^ fuel` is enough fuel.
unfoldable pub root : ℕ → ℕ → ℕ
root zero n = 0
root (suc fuel) n = let r = 2 * root fuel (n / 4) in if ltb n ((r + 1) * (r + 1)) then r else r + 1

-- `sqrt(n)` for an integer `n` below 2^53. No such root lies between two doubles at equal distance,
-- nor within 2^-1074 of such a middle, so that rounding the root in units of 2^-1074 is exact.
unfoldable pub sqrt_double : ℕ → ℕ
unfolding rounded_ratio root
sqrt_double n = rounded_ratio (root 1101 (n * one * one)) 1
