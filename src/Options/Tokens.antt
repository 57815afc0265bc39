-- ===== src/Options/Tokens.antt =====
-- strtok on texts of tokens and delimiters.
use jleaker.Common.{
  ℕ, ◌<◌, ◌≤◌, ◌≡◌, refl, Bool, true, false, if◌then◌else◌, Option, none, some, [], ◌∷◌, ◌++◌,
  length, Bytes, Bool-cases, inl, inr, arith,
}
use jleaker.Options.Scan.{is_among, skip_delimiters, split_token, strtok}

-- A text without delimiters.
abbrev pub IsPlain : Bytes → Bytes → Type 0
IsPlain ds [] = Unit {0}
IsPlain ds (c ∷ cs) = (is_among ds c ≡ false) × IsPlain ds cs

-- What stands behind a token: nothing, or one delimiter and more text.
pub data Follows (ds : Bytes) : Bytes → Bytes → Type 0 where
  nothing : Follows ds [] []
  delimiter : {c : ℕ} {rest : Bytes} → is_among ds c ≡ true → Follows ds (c ∷ rest) rest

split_token_lem :
    (ds token tail rest : Bytes)
    → IsPlain ds token
    → Follows ds tail rest
    → split_token ds (token ++ tail) ≡ (token, rest)
unfolding split_token
split_token_lem ds [] tail rest p nothing = refl
split_token_lem ds [] tail rest p (delimiter e) = rw e refl
split_token_lem ds (c ∷ cs) tail rest (here, later) f =
    rw (here, split_token_lem ds cs tail rest later f) refl

skip_nothing :
    (ds : Bytes) (c : ℕ) (cs : Bytes) → is_among ds c ≡ false → skip_delimiters ds (c ∷ cs) ≡ c ∷ cs
unfolding skip_delimiters
skip_nothing ds c cs e = rw e refl

-- strtok gives a token that has no delimiter, and goes on behind the delimiter that ends it.
pub strtok_lem :
    (ds : Bytes) (c : ℕ) (cs tail rest : Bytes)
    → IsPlain ds (c ∷ cs)
    → Follows ds tail rest
    → strtok ds (c ∷ cs ++ tail) ≡ (some (c ∷ cs), rest)
unfolding strtok
strtok_lem ds c cs tail rest (here, later) f =
    rw
      (
        skip_nothing ds c (cs ++ tail) here,
        strtok,
        split_token_lem ds (c ∷ cs) tail rest (here, later) f,
      )
      refl

-- The same as a test, for a token that is not empty.
abbrev pub is_plain : Bytes → Bytes → Bool
is_plain ds [] = true
is_plain ds (c ∷ cs) = if is_among ds c then false else is_plain ds cs

is_plain-IsPlain : (ds s : Bytes) → is_plain ds s ≡ true → IsPlain ds s
is_plain-IsPlain ds [] e = tt
is_plain-IsPlain ds (c ∷ cs) e = elim (Bool-cases (is_among ds c)) [
  | inl found ↦ absurd (ground arith)
  | inr other ↦ (other, is_plain-IsPlain ds cs (ground arith))
]

abbrev pub is_word : Bytes → Bytes → Bool
is_word ds [] = false
is_word ds (c ∷ cs) = is_plain ds (c ∷ cs)

pub strtok_word :
    (ds token tail rest : Bytes)
    → is_word ds token ≡ true
    → Follows ds tail rest
    → strtok ds (token ++ tail) ≡ (some token, rest)
strtok_word ds [] tail rest e f = absurd (ground arith)
strtok_word ds (c ∷ cs) tail rest e f =
    strtok_lem ds c cs tail rest (is_plain-IsPlain ds (c ∷ cs) e) f

length-skip_delimiters : (ds s : Bytes) → length (skip_delimiters ds s) ≤ length s
unfolding skip_delimiters
length-skip_delimiters ds [] = omega arith
length-skip_delimiters ds (c ∷ cs) = ground (arith, length-skip_delimiters ds cs)

length-split_token : (ds s : Bytes) → length (split_token ds s).1 ≤ length s
unfolding split_token
length-split_token ds [] = omega arith
length-split_token ds (c ∷ cs) = ground (arith, length-split_token ds cs)

length-split_token_cons :
    (ds : Bytes) (c : ℕ) (cs : Bytes) → length (split_token ds (c ∷ cs)).1 ≤ length cs
unfolding split_token
length-split_token_cons ds c cs = ground (arith, length-split_token ds cs)

-- A token takes at least one byte of the text.
pub length-strtok :
    (ds s : Bytes) (t : Bytes) → (strtok ds s).0 ≡ some t → length (strtok ds s).1 < length s
unfolding strtok
length-strtok ds s t e = shorter (skip_delimiters ds s) (length-skip_delimiters ds s) e
  where
    shorter :
        (u : Bytes)
        → length u ≤ length s
        → (elim u as (λ x. Option Bytes × Bytes) [
          | [] ↦ (none, [])
          | c ∷ cs ↦ (some (split_token ds (c ∷ cs)).0, (split_token ds (c ∷ cs)).1)
        ]).0
          ≡ some t
        → length
            (elim u as (λ x. Option Bytes × Bytes) [
              | [] ↦ (none, [])
              | c ∷ cs ↦ (some (split_token ds (c ∷ cs)).0, (split_token ds (c ∷ cs)).1)
            ]).1
          < length s
    shorter [] h e = absurd (ground arith)
    shorter (c ∷ cs) h e = omega (arith, length-split_token_cons ds c cs)

pub length-strtok_le : (ds s : Bytes) → length (strtok ds s).1 ≤ length s
unfolding strtok
length-strtok_le ds s = shorter (skip_delimiters ds s) (length-skip_delimiters ds s)
  where
    shorter :
        (u : Bytes)
        → length u ≤ length s
        → length
            (elim u as (λ x. Option Bytes × Bytes) [
              | [] ↦ (none, [])
              | c ∷ cs ↦ (some (split_token ds (c ∷ cs)).0, (split_token ds (c ∷ cs)).1)
            ]).1
          ≤ length s
    shorter [] h = omega arith
    shorter (c ∷ cs) h = omega (arith, length-split_token_cons ds c cs)
