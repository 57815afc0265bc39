-- ===== src/Bits/Digits.antt =====
-- One binary digit at a time: the low digit and the half of `a | b` and of `a & b`.
use Prim.Native.Nat.{digits, bitwise, bit_and-bitwise, bit_or-bitwise}
use jleaker.Common.{
  ℕ, zero, suc, ◌+◌, ◌*◌, ◌/◌, ◌%◌, ◌≤◌, max, min, bit_and, bit_or, ◌≡◌, refl, ◌∙◌, sym, ap, arith,
}

-- The recursion stops at 0, so fuel that is left over changes nothing.
stops : (combine : ℕ → ℕ → ℕ) (rest : ℕ → ℕ) (fuel y : ℕ) → digits rest combine fuel 0 y ≡ rest y
stops combine rest zero y = refl
stops combine rest (suc fuel) y = refl

spare_fuel :
    (combine : ℕ → ℕ → ℕ) (rest : ℕ → ℕ) (more fuel x y : ℕ)
    → x ≤ fuel
    → fuel ≤ more
    → digits rest combine more x y ≡ digits rest combine fuel x y
spare_fuel combine rest more fuel zero y h g =
    stops combine rest more y ∙ sym (stops combine rest fuel y)
spare_fuel combine rest (suc more) (suc fuel) (suc x) y h g =
    ap (λ high. high * 2 + combine (suc x % 2) (y % 2))
      (spare_fuel combine rest more fuel (suc x / 2) (y / 2) (omega arith) (omega arith))
spare_fuel combine rest zero (suc fuel) (suc x) y h g = absurd (omega arith)
spare_fuel combine rest more zero (suc x) y h g = absurd (omega arith)

low_digit :
    (combine : ℕ → ℕ → ℕ) (rest : ℕ → ℕ) (x y : ℕ)
    → bitwise rest combine (suc x) y
      ≡ bitwise rest combine (suc x / 2) (y / 2) * 2 + combine (suc x % 2) (y % 2)
low_digit combine rest x y =
    ap (λ high. high * 2 + combine (suc x % 2) (y % 2))
      (spare_fuel combine rest x (suc x / 2) (suc x / 2) (y / 2) (omega arith) (omega arith))

or_digit : (a b : ℕ) → bit_or a b ≡ bit_or (a / 2) (b / 2) * 2 + max (a % 2) (b % 2)
or_digit zero b = simp bit_or-bitwise (omega arith)
or_digit (suc a) b = simp bit_or-bitwise (low_digit max (λ y. y) a b)

and_digit : (a b : ℕ) → bit_and a b ≡ bit_and (a / 2) (b / 2) * 2 + min (a % 2) (b % 2)
and_digit zero b = simp bit_and-bitwise (omega arith)
and_digit (suc a) b = simp bit_and-bitwise (low_digit min (λ y. 0) a b)

pub bit_or_half : (a b : ℕ) → bit_or a b / 2 ≡ bit_or (a / 2) (b / 2)
bit_or_half a b = omega (arith, or_digit a b)

pub bit_or_low : (a b : ℕ) → bit_or a b % 2 ≡ max (a % 2) (b % 2)
bit_or_low a b = omega (arith, or_digit a b)

pub bit_and_half : (a b : ℕ) → bit_and a b / 2 ≡ bit_and (a / 2) (b / 2)
bit_and_half a b = omega (arith, and_digit a b)

pub bit_and_low : (a b : ℕ) → bit_and a b % 2 ≡ min (a % 2) (b % 2)
bit_and_low a b = omega (arith, and_digit a b)

pub zero-bit_and : (b : ℕ) → bit_and 0 b ≡ 0
zero-bit_and b = bit_and-bitwise 0 b
