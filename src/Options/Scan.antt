-- ===== src/Options/Scan.antt =====
-- strtok and strtol of the C library, as far as the agent uses them. `long` has 64 bits and `int`
-- has 32.
use jleaker.Common.{
  ℕ, ◌+◌, ◌-◌, ◌*◌, ◌%◌, ◌^◌, min, Bool, true, false, ◌&&◌, ◌||◌, ◌==◌, leb, ltb, if◌then◌else◌,
  Option, none, some, [], ◌∷◌, Bytes,
}
use jleaker.Common.Int.{ℤ, pos, negsuc, sub_ℕ}

abbrev pub is_among : Bytes → ℕ → Bool
is_among [] c = false
is_among (d ∷ ds) c = (d == c) || is_among ds c

-- The text without the delimiters in front.
unfoldable pub skip_delimiters : (delimiters : Bytes) → Bytes → Bytes
skip_delimiters ds [] = []
skip_delimiters ds (c ∷ cs) =
    let rest = skip_delimiters ds cs in if is_among ds c then rest else c ∷ cs

-- The text up to the first delimiter, and what stands behind that.
unfoldable pub split_token : (delimiters : Bytes) → Bytes → Bytes × Bytes
split_token ds [] = ([], [])
split_token ds (c ∷ cs) =
    let rest = split_token ds cs in if is_among ds c then ([], cs) else (c ∷ rest.0, rest.1)

-- The token, `none` for NULL, and the text from which the next call goes on.
unfoldable pub strtok : (delimiters : Bytes) → Bytes → Option Bytes × Bytes
unfolding skip_delimiters split_token
strtok ds s = elim (skip_delimiters ds s) [
  | [] ↦ (none, [])
  | c ∷ cs ↦ (some (split_token ds (c ∷ cs)).0, (split_token ds (c ∷ cs)).1)
]

abbrev pub is_digit : ℕ → Bool
is_digit c = leb 48 c && leb c 57

-- The value of the digits in front, added to `acc`, and the text behind them.
unfoldable pub read_digits : (acc : ℕ) → Bytes → ℕ × Bytes
read_digits acc [] = (acc, [])
read_digits acc (c ∷ cs) =
    let more = read_digits (acc * 10 + (c - 48)) cs in if is_digit c then more else (acc, c ∷ cs)

abbrev is_space : ℕ → Bool
is_space c = (c == 32) || (leb 9 c && leb c 13)

unfoldable pub skip_spaces : Bytes → Bytes
skip_spaces [] = []
skip_spaces (c ∷ cs) = let rest = skip_spaces cs in if is_space c then rest else c ∷ cs

-- LONG_MAX and LONG_MIN take the place of values beyond them.
unfoldable pub clamp : (is_negative : Bool) → ℕ → ℤ
clamp true n = sub_ℕ 0 (min n (2 ^ 63))
clamp false n = pos (min n (2 ^ 63 - 1))

-- The digits of a number; `whole` is the text at which strtol began, where it ends if there are none.
unfoldable pub read_number : (is_negative : Bool) → (whole : Bytes) → Bytes → ℤ × Bytes
unfolding clamp read_digits
read_number is_negative whole [] = (pos 0, whole)
read_number is_negative whole (c ∷ cs) =
    let n = read_digits 0 (c ∷ cs) in
    if is_digit c then (clamp is_negative n.0, n.1) else (pos 0, whole)

unfoldable pub read_signed : (whole : Bytes) → Bytes → ℤ × Bytes
unfolding read_number
read_signed whole [] = (pos 0, whole)
read_signed whole (c ∷ cs) =
    if c == 45
    then read_number true whole cs
    else (if c == 43 then read_number false whole cs else read_number false whole (c ∷ cs))

-- `strtol(s, &endptr, 10)`: the value and the text at `endptr`.
unfoldable pub strtol : Bytes → ℤ × Bytes
unfolding read_signed skip_spaces
strtol s = read_signed s (skip_spaces s)

-- The conversion of a `long` to an `int`.
unfoldable pub low_bits : ℤ → ℕ
low_bits (pos n) = n % 2 ^ 32
low_bits (negsuc n) = 2 ^ 32 - 1 - n % 2 ^ 32

unfoldable pub to_int : ℤ → ℤ
unfolding low_bits
to_int v = let low = low_bits v in if ltb low (2 ^ 31) then pos low else negsuc (2 ^ 32 - low - 1)
