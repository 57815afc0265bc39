-- ===== src/Output/Escape.antt =====
-- What escapeString writes fits the memory that it allocated and can be read back.
use jleaker.Common.{
  ℕ, zero, suc, ◌+◌, ◌≤◌, ◌≡◌, refl, ◌∙◌, sym, ap, false, ◌==◌, ==_iff, if◌then◌else◌, [], ◌∷◌,
  length, Bytes, Bool-cases, inl, inr, arith,
}
use jleaker.Output.Defs.{count_quotes, escape_loop, allocated_for, escape_string}

-- The byte does not occur.
abbrev pub IsWithout : ℕ → Bytes → Type 0
IsWithout b [] = Unit {0}
IsWithout b (c ∷ cs) = ((c == b) ≡ false) × IsWithout b cs

-- A reader of escaped text, which knows no entity but `&quot;`: it puts a quote for an ampersand
-- and skips the five bytes behind it.
unfoldable pub unescape : (to_skip : ℕ) → Bytes → Bytes
unescape skip [] = []
unescape (suc skip) (c ∷ cs) = unescape skip cs
unescape zero (c ∷ cs) =
    let quote = unescape 5 cs in
    let plain = unescape 0 cs in if c == 38 then 34 ∷ quote else c ∷ plain

escape_loop-plain : (s : Bytes) → count_quotes s ≡ 0 → escape_loop s ≡ s
unfolding escape_loop count_quotes
escape_loop-plain [] e = refl
escape_loop-plain (c ∷ cs) e = elim (Bool-cases (c == 34)) [
  | inl quote ↦ absurd (ground arith)
  | inr other ↦ rw other (ap (λ t. c ∷ t) (escape_loop-plain cs (ground arith)))
]

-- The early return gives what the loop would give.
pub escape_string-loop : (s : Bytes) → escape_string s ≡ escape_loop s
unfolding escape_string
escape_string-loop s = elim (Bool-cases (count_quotes s == 0)) [
  | inl plain ↦ rw plain (sym (escape_loop-plain s ((==_iff (count_quotes s) 0).0 plain)))
  | inr quoted ↦ rw quoted refl
]

length-escape_loop : (s : Bytes) → length (escape_loop s) + 1 ≡ allocated_for s
unfolding escape_loop allocated_for count_quotes
length-escape_loop [] = omega arith
length-escape_loop (c ∷ cs) = ground (arith, length-escape_loop cs)

escape_loop-IsWithout : (s : Bytes) → IsWithout 34 (escape_loop s)
unfolding escape_loop
escape_loop-IsWithout [] = tt
escape_loop-IsWithout (c ∷ cs) = elim (Bool-cases (c == 34)) [
  | inl quote ↦ rw quote (refl, (refl, (refl, (refl, (refl, (refl, escape_loop-IsWithout cs))))))
  | inr other ↦ rw other (other, escape_loop-IsWithout cs)
]

unescape-escape_loop : (s : Bytes) → IsWithout 38 s → unescape 0 (escape_loop s) ≡ s
unfolding escape_loop unescape
unescape-escape_loop [] w = refl
unescape-escape_loop (c ∷ cs) (here, later) = elim (Bool-cases (c == 34)) [
  | inl quote ↦ rw quote (
      ap (λ t. 34 ∷ t) (unescape-escape_loop cs later)
      ∙ ap (λ b. b ∷ cs) (sym ((==_iff c 34).0 quote)))
  | inr other ↦ rw (other, here) (ap (λ t. c ∷ t) (unescape-escape_loop cs later))
]

-- What escapeString returns, with the 0 behind it, is no longer than the memory that it allocates;
-- it has no quote, so that it does not end the value of an attribute early; and for a text without
-- an ampersand it can be read back.
pub escape_string_lem :
    (s : Bytes)
    → (length (escape_string s) + 1 ≤ allocated_for s)
      × IsWithout 34 (escape_string s)
      × (IsWithout 38 s → unescape 0 (escape_string s) ≡ s)
escape_string_lem s =
    rw (escape_string-loop s)
      (omega (arith, length-escape_loop s), escape_loop-IsWithout s, unescape-escape_loop s)
