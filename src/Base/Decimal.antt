-- ===== src/Base/Decimal.antt =====
-- Decimal numerals of natural numbers: `str(n)` and `f"{n:0{width}d}"`.
use Prim.Native.Nat.{ℕ, zero, suc, ◌+◌, ◌-◌, ◌*◌, ◌/◌, ◌%◌, ◌^◌, ◌≤◌, ◌<◌}
use mathlib.Core.Path.{◌≡◌, refl, ap, ◌∙◌}
use mathlib.Core.Logic.{inl, inr}
use mathlib.Core.Bool.{true, false}
use mathlib.Core.List.{[], ◌∷◌}
use native.Mathlib.Omega.{arith}
use ai_system_engineering_cu.Base.Tests.{ltb, Bool-cases}
use ai_system_engineering_cu.Base.Lists.{length}
use ai_system_engineering_cu.Base.Strings.{Text}

-- The digits of `n` before `rest`.
unfoldable pub digits : ℕ → ℕ → Text → Text
digits zero n rest = rest
digits (suc fuel) n rest = elim (ltb n 10) [
  | true ↦ (48 + n) ∷ rest
  | false ↦ digits fuel (n / 10) ((48 + n % 10) ∷ rest)
]

-- Each digit divides by ten, so that `n + 1` digits are enough.
unfoldable pub decimal : ℕ → Text
unfolding digits
decimal n = digits (suc n) n []

-- `count` zeros before `s`.
unfoldable pub zeros : ℕ → Text → Text
zeros zero s = s
zeros (suc count) s = 48 ∷ zeros count s

unfoldable pub padded : ℕ → ℕ → Text
unfolding decimal zeros
padded width n = zeros (width - length (decimal n)) (decimal n)

-- The number that the digits after a number `a` make.
unfoldable pub value_from : ℕ → Text → ℕ
value_from a [] = a
value_from a (c ∷ s) = value_from (a * 10 + (c - 48)) s

value_from-digits :
    (fuel n : ℕ) (rest : Text) → n < fuel → value_from 0 (digits fuel n rest) ≡ value_from n rest
unfolding digits value_from
value_from-digits zero n rest h = absurd (omega arith)
value_from-digits (suc fuel) n rest h = elim (Bool-cases (ltb n 10)) [
  | inl small ↦ rw (small, digits, value_from) (ap (λ m. value_from m rest) (omega arith))
  | inr large ↦
      rw (large, digits)
        (value_from-digits fuel (n / 10) ((48 + n % 10) ∷ rest) (ground arith)
          ∙ ap (λ m. value_from m rest) (omega arith))
]

value_from-zeros : (count : ℕ) (s : Text) → value_from 0 (zeros count s) ≡ value_from 0 s
unfolding zeros value_from
value_from-zeros zero s = refl
value_from-zeros (suc count) s = value_from-zeros count s

-- A padded numeral is read back.
pub value_from-padded : (width n : ℕ) → value_from 0 (padded width n) ≡ n
unfolding padded decimal value_from
value_from-padded width n =
    value_from-zeros (width - length (decimal n)) (decimal n)
    ∙ value_from-digits (suc n) n [] (omega arith)

le→ltb : (a b : ℕ) → a ≤ b → ltb a (suc b) ≡ true
le→ltb a b h = ground arith

-- A numeral below 10 ^ k has at most k digits.
digits-fits :
    (k fuel n : ℕ) (rest : Text)
    → n < 10 ^ suc k
    → length (digits fuel n rest) ≤ suc k + length rest
unfolding digits
digits-fits k zero n rest h = omega arith
digits-fits zero (suc fuel) n rest h = rw (le→ltb n 9 (omega arith), digits) (omega arith)
digits-fits (suc k) (suc fuel) n rest h = elim (Bool-cases (ltb n 10)) [
  | inl small ↦ rw (small, digits) (omega arith)
  | inr large ↦
      rw (large, digits)
        (omega (arith, digits-fits k fuel (n / 10) ((48 + n % 10) ∷ rest) (omega arith)))
]

length-zeros : (count : ℕ) (s : Text) → length (zeros count s) ≡ count + length s
unfolding zeros
length-zeros zero s = omega arith
length-zeros (suc count) s = omega (arith, length-zeros count s)

pub length-padded :
    (width k n : ℕ) → n < 10 ^ suc k → width ≤ suc k → length (padded width n) ≤ suc k
unfolding padded decimal
length-padded width k n h w =
    omega
      (arith, length-zeros (width - length (decimal n)) (decimal n), digits-fits k (suc n) n [] h)

padded_test : padded 4 27 ≡ 48 ∷ 48 ∷ 50 ∷ 55 ∷ []
unfolding padded decimal zeros digits
padded_test = refl
