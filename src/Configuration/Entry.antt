-- ===== src/Configuration/Entry.antt =====
-- What an entry of the section ignore_referenced_by does.
use jleaker.Common.{
  ℕ, zero, suc, ◌+◌, ◌-◌, ◌<◌, ◌^◌, ◌≡◌, refl, ◌∙◌, sym, ap, Bool, true, false, ◌==◌, if◌then◌else◌,
  none, some, List, [], ◌∷◌, ◌++◌, length, length-append, get_or, Bytes, bytes, str_eq, Bool-cases,
  Option-cases, inl, inr, arith,
}
use jleaker.Common.Int.{ℤ, pos}
use jleaker.Node.Defs.{IgnoreField}
use jleaker.Options.{strtol, to_int}
use jleaker.Options.Numbers.{value, AreDigits, digit_text, strtol_lem}
use jleaker.Output.Escape.{IsWithout}
use jleaker.Configuration.Defs.{
  StrMap, State, last_dot, take, drop, add_limit, limit_entry, ini_handler,
}

get_or-skip : (xs ys : Bytes) (j : ℕ) → get_or (xs ++ ys) (length xs + j) 0 ≡ get_or ys j 0
get_or-skip [] ys j = ap (λ i. get_or ys i 0) (omega arith)
get_or-skip (x ∷ xs) ys j =
    ap (λ i. get_or (x ∷ (xs ++ ys)) i 0) (suc_out (length xs) j) ∙ get_or-skip xs ys j
  where
    suc_out : (a b : ℕ) → suc a + b ≡ suc (a + b)
    suc_out a b = omega arith

no_dot : (field : Bytes) (j : ℕ) → IsWithout 46 field → (get_or field j 0 == 46) ≡ false
no_dot [] j w = refl
no_dot (c ∷ cs) zero (here, later) = here
no_dot (c ∷ cs) (suc j) (here, later) = no_dot cs j later

last_dot_here : (name : Bytes) (i : ℕ) → (get_or name i 0 == 46) ≡ true → last_dot name i ≡ some i
unfolding last_dot
last_dot_here name zero e = rw e refl
last_dot_here name (suc i) e = rw e refl

last_dot_down :
    (name : Bytes) (i : ℕ)
    → (get_or name (suc i) 0 == 46) ≡ false
    → last_dot name (suc i) ≡ last_dot name i
unfolding last_dot
last_dot_down name i e = rw e refl

last_dot_at :
    (klass field : Bytes) (j : ℕ)
    → IsWithout 46 field
    → last_dot (klass ++ 46 ∷ field) (length klass + j) ≡ some (length klass)
last_dot_at klass field zero w =
    let name = klass ++ 46 ∷ field in
    ap (last_dot name) (omega arith)
    ∙ last_dot_here name (length klass) (
        ap (λ c. c == 46)
          (ap (λ i. get_or name i 0) (omega arith) ∙ get_or-skip klass (46 ∷ field) 0))
last_dot_at klass field (suc j) w =
    let name = klass ++ 46 ∷ field in
    let index : length klass + suc j ≡ suc (length klass + j) = omega arith in
    ap (last_dot name) index
    ∙ last_dot_down name (length klass + j) (
        ap (λ c. c == 46)
          (ap (λ i. get_or name i 0) (sym index) ∙ get_or-skip klass (46 ∷ field) (suc j))
        ∙ no_dot field j w)
    ∙ last_dot_at klass field j w

take-append : (xs ys : Bytes) → take (length xs) (xs ++ ys) ≡ xs
unfolding take
take-append [] ys = refl
take-append (x ∷ xs) ys = ap (λ zs. x ∷ zs) (take-append xs ys)

drop-append : (xs : Bytes) (y : ℕ) (ys : Bytes) → drop (length xs + 1) (xs ++ y ∷ ys) ≡ ys
unfolding drop
drop-append [] y ys = refl
drop-append (x ∷ xs) y ys =
    let index : suc (length xs) + 1 ≡ suc (length xs + 1) = omega arith in
    ap (λ n. drop n (x ∷ (xs ++ y ∷ ys))) index ∙ drop-append xs y ys

module _ (strmap : StrMap) where
  -- The two strings that the entry is made of, and its number.
  limit_entry_lem :
      (klass field : Bytes) (d : ℕ) (ds : List ℕ) (s : State strmap)
      → IsWithout 46 field
      → 0 < length field
      → AreDigits (d ∷ ds)
      → value 0 (d ∷ ds) < 2 ^ 31
      → limit_entry strmap (klass ++ 46 ∷ field) (digit_text (d ∷ ds)) s
        ≡ (true, add_limit strmap klass field (pos (value 0 (d ∷ ds))) s)
  unfolding limit_entry
  limit_entry_lem klass field d ds s w some_field digits below =
      let name = klass ++ 46 ∷ field in
      let (whole, is_value) = strtol_lem d ds digits below in
      let size : length name ≡ length klass + (1 + length field) =
        omega (arith, length-append klass (46 ∷ field)) in
      let dot : last_dot name (length name) ≡ some (length klass) =
        ap (last_dot name) size ∙ last_dot_at klass field (1 + length field) w in
      let long : (length name - length klass == 1) ≡ false = ground (arith, size) in
      rw
        (
          whole,
          dot,
          long,
          is_value,
          take-append klass (46 ∷ field),
          drop-append klass 46 field,
          limit_entry,
        )
        refl

  -- An entry `class.field = number` of the section ignore_referenced_by is accepted if the field's name
  -- is not empty and has no dot and the number is below 2^31 and in digits. Afterwards the limits of
  -- the class begin with one for the field, followed by those that it had, the limits of no other
  -- class change, and neither do the ignored classes. The map is assumed to find what was put last.
  pub ini_handler_lem :
      (klass field : Bytes) (d : ℕ) (ds : List ℕ) (s : State strmap)
      → ((m : strmap.Map) (k k' : Bytes) (v : List IgnoreField)
          → strmap.get (strmap.put m k v) k' ≡ (if str_eq k k' then some v else strmap.get m k'))
      → IsWithout 46 field
      → 0 < length field
      → AreDigits (d ∷ ds)
      → value 0 (d ∷ ds) < 2 ^ 31
      → let (accepted, after) =
          ini_handler strmap
            (bytes "ignore_referenced_by")
            (klass ++ 46 ∷ field)
            (digit_text (d ∷ ds))
            s in
        let old : List IgnoreField = elim (strmap.get s.ignore_referenced_by klass) [
          | none ↦ []
          | some fs ↦ fs
        ] in
        let limit : IgnoreField = record {
          field = pos 0;
          field_name = field;
          threshold = pos (value 0 (d ∷ ds));
        } in
        (accepted ≡ true)
        × ((k : Bytes)
            → strmap.get after.ignore_referenced_by k ≡ (
                if str_eq klass k then some (limit ∷ old) else strmap.get s.ignore_referenced_by k))
        × (after.ignore_classes ≡ s.ignore_classes)
  unfolding ini_handler add_limit str_eq
  ini_handler_lem klass field d ds s found_last w some_field digits below =
      let entry = limit_entry_lem klass field d ds s w some_field digits below in
      (
        ap (λ x. x.0) entry,
        λ k. ap (λ x. strmap.get x.1.ignore_referenced_by k) entry ∙ found_last _ klass k _,
        ap (λ x. x.1.ignore_classes) entry,
      )

  after_number :
      (name end : Bytes) (v : ℤ) (s : State strmap)
      → let out : Bool × State strmap = elim end [
        | c ∷ cs ↦ (false, s)
        | [] ↦ elim (last_dot name (length name)) [
          | none ↦ (false, s)
          | some idx ↦
              if length name - idx == 1
              then (false, s)
              else (true, add_limit strmap (take idx name) (drop (idx + 1) name) v s)
        ]
      ] in
        out.0 ≡ false → out.1 ≡ s
  after_number name (c ∷ cs) v s e = refl
  after_number name [] v s e = elim (Option-cases (last_dot name (length name))) [
    | inl no_dot ↦ ground arith
    | inr (idx, dot) ↦ ground arith
  ]

  limit_entry-refused :
      (name text : Bytes) (s : State strmap)
      → (limit_entry strmap name text s).0 ≡ false
      → (limit_entry strmap name text s).1 ≡ s
  unfolding limit_entry
  limit_entry-refused name text s e = after_number name (strtol text).1 (to_int (strtol text).0) s e

  -- An entry that ini_handler does not accept changes nothing.
  pub ini_handler-refused :
      (section name text : Bytes) (s : State strmap)
      → (ini_handler strmap section name text s).0 ≡ false
      → (ini_handler strmap section name text s).1 ≡ s
  unfolding ini_handler
  ini_handler-refused section name text s e =
      elim (Bool-cases (str_eq section (bytes "ignore_classes"))) [
        | inl classes ↦ absurd (ground arith)
        | inr other ↦ elim (Bool-cases (str_eq section (bytes "ignore_referenced_by"))) [
          | inl limits ↦
              let here : ini_handler strmap section name text s ≡ limit_entry strmap name text s =
                ground arith in
              ap (λ x. x.1) here ∙ limit_entry-refused name text s (sym (ap (λ x. x.0) here) ∙ e)
          | inr unknown ↦ absurd (ground arith)
        ]
      ]
