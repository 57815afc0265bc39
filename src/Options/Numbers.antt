-- ===== src/Options/Numbers.antt =====
-- strtol on decimal digits.
use jleaker.Common.{
  ℕ, ◌+◌, ◌-◌, ◌*◌, ◌<◌, ◌≤◌, ◌^◌, ◌≡◌, refl, true, false, ◌&&◌, ◌||◌, ◌==◌, leb, List, [], ◌∷◌,
  Bytes, arith,
}
use jleaker.Common.Int.{pos}
use jleaker.Options.Scan.{
  is_digit, read_digits, skip_spaces, read_number, read_signed, strtol, clamp, low_bits, to_int,
}

-- The number that the digits stand for, with `acc` in front of them.
abbrev pub value : (acc : ℕ) → List ℕ → ℕ
value acc [] = acc
value acc (d ∷ ds) = value (acc * 10 + d) ds

abbrev pub AreDigits : List ℕ → Type 0
AreDigits [] = Unit {0}
AreDigits (d ∷ ds) = (d ≤ 9) × AreDigits ds

-- The text of digits.
abbrev pub digit_text : List ℕ → Bytes
digit_text [] = []
digit_text (d ∷ ds) = (48 + d) ∷ digit_text ds

read_digits_lem :
    (acc : ℕ) (ds : List ℕ) → AreDigits ds → read_digits acc (digit_text ds) ≡ (value acc ds, [])
unfolding read_digits
read_digits_lem acc [] a = refl
read_digits_lem acc (d ∷ ds) (here, later) =
    let is : is_digit (48 + d) ≡ true = ground arith in
    let same : 48 + d - 48 ≡ d = omega arith in
    rw (is, same) (read_digits_lem (acc * 10 + d) ds later)

strtol_digits :
    (d : ℕ) (ds : List ℕ)
    → AreDigits (d ∷ ds)
    → strtol (digit_text (d ∷ ds)) ≡ (clamp false (value 0 (d ∷ ds)), [])
unfolding strtol skip_spaces read_signed read_number
strtol_digits d ds (here, later) =
    let c = 48 + d in
    let no_space : ((c == 32) || (leb 9 c && leb c 13)) ≡ false = ground arith in
    let no_minus : (c == 45) ≡ false = ground arith in
    let no_plus : (c == 43) ≡ false = ground arith in
    let is : is_digit c ≡ true = ground arith in
    let same : 48 + d - 48 ≡ d = omega arith in
    rw (no_space, no_minus, no_plus, is, same, read_digits_lem (0 + d) ds later) refl

small_int : (n : ℕ) → n < 2 ^ 31 → to_int (clamp false n) ≡ pos n
unfolding to_int clamp low_bits
small_int n h = ground arith

-- strtol of a text of digits reads all of it, and the `int` is their number if that is below 2^31.
pub strtol_lem :
    (d : ℕ) (ds : List ℕ)
    → AreDigits (d ∷ ds)
    → value 0 (d ∷ ds) < 2 ^ 31
    → ((strtol (digit_text (d ∷ ds))).1 ≡ [])
      × (to_int (strtol (digit_text (d ∷ ds))).0 ≡ pos (value 0 (d ∷ ds)))
strtol_lem d ds a h = rw (strtol_digits d ds a) (refl, small_int (value 0 (d ∷ ds)) h)
