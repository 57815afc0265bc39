-- ===== src/Output/Attributes.antt =====
-- The attributes of an element can be read back from its text.
use jleaker.Common.{
  ℕ, zero, suc, ◌<◌, ◌≡◌, refl, ◌∙◌, ap, false, ◌==◌, ==_refl, if◌then◌else◌, List, [], ◌∷◌, ◌++◌,
  ◌⊎◌, length, Bytes, inl, inr, arith,
}
use mathlib.Core.List.{append_assoc}
use jleaker.Output.Defs.{escape_string, attributes_text}
use jleaker.Output.Escape.{IsWithout, unescape, escape_string_lem}

-- The bytes before the first byte `b`, and those behind it.
unfoldable pub read_until : ℕ → Bytes → Bytes × Bytes
read_until b [] = ([], [])
read_until b (c ∷ cs) =
    let rest = read_until b cs in if c == b then ([], cs) else (c ∷ rest.0, rest.1)

pub read_until_lem :
    (b : ℕ) (s rest : Bytes) → IsWithout b s → read_until b (s ++ b ∷ rest) ≡ (s, rest)
unfolding read_until
read_until_lem b [] rest w = rw (==_refl b) refl
read_until_lem b (c ∷ cs) rest (here, later) = rw (here, read_until_lem b cs rest later) refl

-- A reader of attributes: names go up to `=`, values stand between quotes. It stops where no blank
-- or a blank and a slash follow.
unfoldable pub read_attributes : ℕ → Bytes → List (Bytes × Bytes)
unfolding read_until unescape
read_attributes zero s = []
read_attributes (suc fuel) [] = []
read_attributes (suc fuel) (c ∷ []) = []
read_attributes (suc fuel) (c ∷ d ∷ s) =
    let name = read_until 61 (d ∷ s) in
    let quoted = read_until 34 name.1 in
    let value = read_until 34 quoted.1 in
    let rest = read_attributes fuel value.1 in
    if c == 32 then (if d == 47 then [] else (name.0, unescape 0 value.0) ∷ rest) else []

-- A name that a reader can tell from its surroundings: it is not empty, does not begin with a slash
-- and has no `=`.
abbrev pub IsName : Bytes → Type 0
IsName [] = ⊥
IsName (c ∷ cs) = ((c == 47) ≡ false) × IsWithout 61 (c ∷ cs)

abbrev pub AreReadable : List (Bytes × Bytes) → Type 0
AreReadable [] = Unit {0}
AreReadable (a ∷ rest) = IsName a.0 × IsWithout 38 a.1 × AreReadable rest

-- The end of an element, as the two kinds of elements write it.
abbrev pub IsEnd : Bytes → Type 0
IsEnd end_tag = (end_tag ≡ []) ⊎ (end_tag ≡ 32 ∷ 47 ∷ [])

read_one :
    (fuel : ℕ) (name value rest : Bytes)
    → IsName name
    → IsWithout 38 value
    → read_attributes (suc fuel) (32 ∷ (name ++ 61 ∷ 34 ∷ (escape_string value ++ 34 ∷ rest)))
      ≡ (name, value) ∷ read_attributes fuel rest
unfolding read_attributes
read_one fuel [] value rest n v = absurd n
read_one fuel (c ∷ cs) value rest (no_slash, without) v =
    let (fits, no_quote, back) = escape_string_lem value in
    let text = escape_string value ++ 34 ∷ rest in
    rw
      (
        no_slash,
        read_until_lem 61 (c ∷ cs) (34 ∷ text) without,
        read_until_lem 34 (escape_string value) rest no_quote,
        back v,
      )
      refl

read_end :
    (fuel : ℕ) (end_tag : Bytes)
    → IsEnd end_tag
    → read_attributes fuel (end_tag ++ 62 ∷ 10 ∷ []) ≡ []
unfolding read_attributes
read_end zero end_tag e = refl
read_end (suc fuel) end_tag (inl e) = rw e refl
read_end (suc fuel) end_tag (inr e) = rw e refl

-- The attributes of an element that echo_xml_element writes can be read back from the text behind the
-- tag, whatever quotes their values hold, if the names are names and the values have no ampersand.
pub read_attributes-attributes_text :
    (fuel : ℕ) (attributes : List (Bytes × Bytes)) (end_tag : Bytes)
    → length attributes < fuel
    → AreReadable attributes
    → IsEnd end_tag
    → read_attributes fuel (attributes_text attributes ++ (end_tag ++ 62 ∷ 10 ∷ [])) ≡ attributes
unfolding attributes_text
read_attributes-attributes_text fuel [] end_tag enough r e = read_end fuel end_tag e
read_attributes-attributes_text zero (a ∷ rest) end_tag enough r e = absurd (omega arith)
read_attributes-attributes_text (suc fuel) (a ∷ rest) end_tag enough (name, value, later) e =
    let tail = end_tag ++ 62 ∷ 10 ∷ [] in
    ap (read_attributes (suc fuel))
      (ap (λ t. 32 ∷ t) (regroup a.0 (escape_string a.1) (attributes_text rest) tail))
    ∙ read_one fuel a.0 a.1 (attributes_text rest ++ tail) name value
    ∙ ap (λ t. a ∷ t) (read_attributes-attributes_text fuel rest end_tag (omega arith) later e)
  where
    regroup :
        (n v t u : Bytes)
        → (n ++ 61 ∷ 34 ∷ (v ++ 34 ∷ t)) ++ u ≡ n ++ 61 ∷ 34 ∷ (v ++ 34 ∷ (t ++ u))
    regroup n v t u =
        append_assoc n (61 ∷ 34 ∷ (v ++ 34 ∷ t)) u
        ∙ ap (λ s. n ++ 61 ∷ 34 ∷ s) (append_assoc v (34 ∷ t) u)
