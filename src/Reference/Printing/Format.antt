-- ===== src/Reference/Printing/Format.antt =====
-- The C library's `%d` and `%lx`, and snprintf.
use jleaker.Common.{
  ap, ℕ, zero, suc, ◌+◌, ◌*◌, ◌/◌, ◌%◌, ◌≤◌, ◌<◌, ◌≡◌, refl, ltb, if◌then◌else◌, Bool-cases, inl,
  inr, true, false, [], ◌∷◌, length, Bytes, arith,
}
use jleaker.Common.Int.{ℤ, pos, negsuc}

-- `0` to `9`, then `a` on.
unfoldable pub digit : ℕ → ℕ
digit n = if ltb n 10 then 48 + n else 87 + n

-- The digits of a number in front of `rest`; a number has fewer than the fuel.
unfoldable pub digits : (base fuel n : ℕ) → Bytes → Bytes
unfolding digit
digits base zero n rest = rest
digits base (suc fuel) n rest = elim (ltb n base) [
  | true ↦ digit n ∷ rest
  | false ↦ digits base fuel (n / base) (digit (n % base) ∷ rest)
]

unfoldable pub decimal : ℤ → Bytes
unfolding digits
decimal (pos n) = digits 10 (n + 1) n []
decimal (negsuc n) = 45 ∷ digits 10 (n + 2) (n + 1) []

unfoldable pub hexadecimal : ℕ → Bytes
unfolding digits
hexadecimal n = digits 16 (n + 1) n []

-- What stands in a buffer of `size` bytes behind snprintf, up to the 0.
unfoldable pub snprintf : (size : ℕ) → Bytes → Bytes
snprintf zero text = []
snprintf (suc zero) text = []
snprintf (suc (suc n)) [] = []
snprintf (suc (suc n)) (c ∷ cs) = c ∷ snprintf (suc n) cs

pub snprintf-whole : (size : ℕ) (text : Bytes) → length text < size → snprintf size text ≡ text
unfolding snprintf
snprintf-whole zero text h = absurd (omega arith)
snprintf-whole (suc zero) [] h = refl
snprintf-whole (suc zero) (c ∷ cs) h = absurd (omega arith)
snprintf-whole (suc (suc n)) [] h = refl
snprintf-whole (suc (suc n)) (c ∷ cs) h = ap (λ t. c ∷ t) (snprintf-whole (suc n) cs (omega arith))

-- A text that does not fit is cut.
pub length-snprintf :
    (size : ℕ) (text : Bytes)
    → 0 < size
    → size ≤ length text
    → length (snprintf size text) + 1 ≡ size
unfolding snprintf
length-snprintf zero text h k = absurd (omega arith)
length-snprintf (suc zero) text h k = omega arith
length-snprintf (suc (suc n)) [] h k = absurd (omega arith)
length-snprintf (suc (suc n)) (c ∷ cs) h k =
    omega (arith, length-snprintf (suc n) cs (omega arith) (omega arith))

-- base ^ k
unfoldable pub power : ℕ → ℕ → ℕ
power base zero = 1
power base (suc k) = base * power base k

module _ (base : ℕ) (two : 2 ≤ base) (shrinks : (n m : ℕ) → n < base * m → n / base < m) where
  -- A number below base ^ k has at most k digits, and 0 has one.
  length-digits :
      (k fuel n : ℕ) (rest : Bytes)
      → n < power base (suc k)
      → length (digits base fuel n rest) ≤ suc k + length rest
  unfolding digits power
  length-digits k zero n rest h = omega arith
  length-digits k (suc fuel) n rest h = elim (Bool-cases (ltb n base)) [
    | inl small ↦ rw (small, digits) (omega arith)
    | inr large ↦
        rw (large, digits)
          (more k h (λ j g. length-digits j fuel (n / base) (digit (n % base) ∷ rest) g)
            (ground arith))
  ]
    where
      more :
          (k : ℕ)
          → n < base * power base k
          → ((j : ℕ)
              → n / base < base * power base j
              → length (digits base fuel (n / base) (digit (n % base) ∷ rest))
                ≤ suc j + suc (length rest))
          → base ≤ n
          → length (digits base fuel (n / base) (digit (n % base) ∷ rest)) ≤ suc k + length rest
      more zero g later le = absurd (omega arith)
      more (suc j) g later le = omega (arith, later j (shrinks n (base * power base j) g))

pub length-decimal : (n k : ℕ) → n < power 10 (suc k) → length (decimal (pos n)) ≤ suc k
unfolding decimal
length-decimal n k h =
    omega (arith, length-digits 10 (omega arith) (λ a b p. omega arith) k (n + 1) n [] h)

pub length-decimal_neg :
    (n k : ℕ) → n + 1 < power 10 (suc k) → length (decimal (negsuc n)) ≤ suc (suc k)
unfolding decimal
length-decimal_neg n k h =
    omega (arith, length-digits 10 (omega arith) (λ a b p. omega arith) k (n + 2) (n + 1) [] h)

pub length-hexadecimal : (n k : ℕ) → n < power 16 (suc k) → length (hexadecimal n) ≤ suc k
unfolding hexadecimal
length-hexadecimal n k h =
    omega (arith, length-digits 16 (omega arith) (λ a b p. omega arith) k (n + 1) n [] h)
