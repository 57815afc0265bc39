-- ===== src/Reference/Fields/Name.antt =====
-- getFieldNameByIndex reads the layout at an index.
use jleaker.Common.{
  ℕ, zero, suc, ◌+◌, ◌-◌, ◌≤◌, ◌≡◌, refl, ap, ◌∙◌, sym, if◌then◌else◌, Option, none, some, ◌>>=◌,
  bind_ext, bind_assoc, List, [], ◌++◌, length, length-append, length-map, get_elem?, ltb,
  get_elem?-map, get_elem?-append_left, get_elem?-append_right, get_elem?-beyond, get_elem?-lt,
  Bytes, ltb→lt, subst, Bool-cases, Option-cases, inl, inr, arith,
}
use jleaker.Common.Int.{ℤ, pos, negsuc, pos_part, ◌-ℤ◌, ltb_ℤ, int_laws}
use jleaker.Reference.Fields.Jvm.{Jvm, own_names}
use jleaker.Reference.Fields.Defs.{
  own_name, get_field_name_by_index_internal, get_field_name_by_index,
}
use jleaker.Reference.Fields.Layout.{field_total, collect, layout, less_new, remove-collect}

pos-sub : (n m : ℕ) → m ≤ n → pos n -ℤ pos m ≡ pos (n - m)
pos-sub n m h = omega int_laws

sub_sub : (n m k : ℕ) → pos n -ℤ pos m -ℤ pos k ≡ pos n -ℤ pos (m + k)
sub_sub n m k = omega int_laws

-- Once a name is found nobody reads the index any more, so it is left out of the comparison.
abbrev Answer : Type 0
Answer = Option Bytes × ℤ × List ℕ

forget : Answer → Answer
forget (field, idx, seen) = elim field [ none ↦ (none, idx, seen) | some f ↦ (some f, pos 0, seen) ]

forget_field : (y : Answer) → ◌≡◌ {A = Option (Option Bytes)} (some y.0) (some (forget y).0)
unfolding forget
forget_field (none, idx, seen) = refl
forget_field (some f, idx, seen) = refl

abbrev forgotten : Option Answer → Option Answer
forgotten m = m >>= λ y. some (forget y)

-- The name at an index that may be negative, and the index less the list if it lies past it.
at_index : ℤ → List Bytes → List ℕ → Answer
at_index idx names seen =
    if ltb_ℤ idx (pos 0) then (none, idx, seen) else (elim (get_elem? names (pos_part idx)) [
      | some name ↦ (some name, pos 0, seen)
      | none ↦ (none, idx -ℤ pos (length names), seen)
    ])

at_index-negative :
    (n : ℕ) (names : List Bytes) (seen : List ℕ)
    → at_index (negsuc n) names seen ≡ (none, negsuc n, seen)
unfolding at_index
at_index-negative n names seen = ground arith

at_index-inside :
    (n : ℕ) (names : List Bytes) (seen : List ℕ) (name : Bytes)
    → get_elem? names n ≡ some name
    → at_index (pos n) names seen ≡ (some name, pos 0, seen)
unfolding at_index
at_index-inside n names seen name e = ground arith

at_index-field :
    (j : ℕ) (names : List Bytes) (seen : List ℕ)
    → (at_index (pos j) names seen).0 ≡ get_elem? names j
unfolding at_index
at_index-field j names seen = ground arith

at_index-past :
    (j : ℕ) (names : List Bytes) (seen : List ℕ)
    → at_index (pos (length names + j)) names seen ≡ (none, pos j, seen)
unfolding at_index
at_index-past j names seen =
    let rest : pos (length names + j) -ℤ pos (length names) ≡ pos j = omega int_laws in
    ground (arith, get_elem?-beyond names (length names + j), rest)

at_index-append_past :
    (j : ℕ) (xs ys : List Bytes) (seen : List ℕ)
    → at_index (pos (length xs + j)) (xs ++ ys) seen ≡ at_index (pos j) ys seen
unfolding at_index
at_index-append_past j xs ys seen =
    let rest : pos (length xs + j) -ℤ pos (length (xs ++ ys)) ≡ pos j -ℤ pos (length ys) =
      omega (int_laws, length-append xs ys) in
    ground (arith, get_elem?-append_right xs ys j, rest)

module _ (jvm : Jvm) where
  own_name-at_index :
      (klass : ℕ) (idx : ℤ) (seen : List ℕ)
      → forgotten (own_name jvm klass idx seen) ≡ some (at_index idx (own_names jvm klass) seen)
  unfolding own_name at_index forget
  own_name-at_index klass idx seen = ground (
    arith,
    get_elem?-map (jvm.field_name klass) (jvm.class_fields klass) (pos_part idx),
    length-map (jvm.class_fields klass) (jvm.field_name klass),
  )

  after_super : ℕ → Answer → Option Answer
  after_super klass (field, idx, seen) = elim field [
    | some f ↦ some (some f, idx, seen)
    | none ↦ own_name jvm klass idx seen
  ]

  after_super-forget :
      (klass : ℕ) (y : Answer)
      → forgotten (after_super klass y) ≡ forgotten (after_super klass (forget y))
  unfolding after_super forget
  after_super-forget klass (none, idx, seen) = refl
  after_super-forget klass (some f, idx, seen) = refl

  at_index-append :
      (klass : ℕ) (idx : ℤ) (fs : List Bytes) (seen : List ℕ)
      → forgotten (after_super klass (at_index idx fs seen))
        ≡ some (at_index idx (fs ++ own_names jvm klass) seen)
  unfolding after_super
  at_index-append klass (negsuc n) fs seen =
      rw (at_index-negative n fs seen, at_index-negative n (fs ++ own_names jvm klass) seen)
        (own_name-at_index klass (negsuc n) seen
          ∙ ap some (at_index-negative n (own_names jvm klass) seen))
  at_index-append klass (pos n) fs seen = elim (Bool-cases (ltb n (length fs))) [
    | inl inside ↦
        let (name, e) = get_elem?-lt fs n (ground arith) in
        let e' = get_elem?-append_left fs (own_names jvm klass) n (ground arith) ∙ e in
        rw
          (
            at_index-inside n fs seen name e,
            at_index-inside n (fs ++ own_names jvm klass) seen name e',
          )
          (unfold forget in refl)
    | inr past ↦
        let rest : n ≡ length fs + (n - length fs) = ground arith in
        let j = n - length fs in
        subst
          (λ k.
            forgotten (after_super klass (at_index (pos k) fs seen))
            ≡ some (at_index (pos k) (fs ++ own_names jvm klass) seen))
          (sym rest)
          (rw (at_index-past j fs seen, at_index-append_past j fs (own_names jvm klass) seen)
            (own_name-at_index klass (pos j) seen))
  ]

  name_internal-at_index :
      (fuel klass : ℕ) (idx : ℤ) (seen : List ℕ)
      → forgotten (get_field_name_by_index_internal jvm fuel klass idx seen)
        ≡ (layout jvm fuel klass seen >>= λ x. some (at_index (less_new jvm idx seen x.1) x.0 x.1))
  unfolding get_field_name_by_index_internal layout after_super
  name_internal-at_index zero klass idx seen = refl
  name_internal-at_index (suc fuel) klass idx seen =
      rw (remove-collect jvm (suc fuel) klass idx seen)
        (elim (Option-cases (collect jvm (suc fuel) klass seen)) [
          | inl out ↦ rw out
          | inr (seen1, e) ↦ rw e (elim (Option-cases (jvm.superclass klass)) [
            | inl top ↦ rw top (own_name-at_index klass (less_new jvm idx seen seen1) seen1)
            | inr (super, up) ↦
                let inner = less_new jvm idx seen seen1 in
                let below = get_field_name_by_index_internal jvm fuel super inner seen1 in
                rw up (
                  bind_assoc below (after_super klass) _
                  ∙ bind_ext below _ _ (after_super-forget klass)
                  ∙ sym (bind_assoc below (λ y. some (forget y)) _)
                  ∙ ap (λ m. m >>= λ y. forgotten (after_super klass y))
                      (name_internal-at_index fuel super inner seen1)
                  ∙ bind_assoc (layout jvm fuel super seen1) _ _
                  ∙ bind_ext (layout jvm fuel super seen1) _ _ (λ x.
                    at_index-append klass (less_new jvm inner seen1 x.1) x.0 x.1
                    ∙ ap (λ i. some (at_index i (x.0 ++ own_names jvm klass) x.1)) (omega int_laws))
                  ∙ sym (bind_assoc (layout jvm fuel super seen1) _ _))
          ])
        ])

  -- The name that getFieldNameByIndex gives back for an index into the layout.
  unfoldable pub name_at : ℤ → List Bytes → List ℕ → Option Bytes
  name_at idx names seen =
      if ltb_ℤ idx (pos (field_total jvm seen))
      then none
      else get_elem? names (pos_part idx - field_total jvm seen)

  at_index-name_at :
      (idx : ℤ) (names : List Bytes) (seen : List ℕ)
      → (at_index (less_new jvm idx [] seen) names seen).0 ≡ name_at idx names seen
  unfolding at_index name_at field_total
  at_index-name_at (negsuc n) names seen =
      let total = field_total jvm seen in
      let low : less_new jvm (negsuc n) [] seen ≡ negsuc (n + total) = omega int_laws in
      ap (λ i. (at_index i names seen).0) low
      ∙ ap (λ y. y.0) (at_index-negative (n + total) names seen)
      ∙ ground arith
  at_index-name_at (pos n) names seen = elim (Bool-cases (ltb n (field_total jvm seen))) [
    | inl below ↦
        let total = field_total jvm seen in
        let low : less_new jvm (pos n) [] seen ≡ negsuc (total - n - 1) =
          omega (int_laws, ltb→lt n total below) in
        ap (λ i. (at_index i names seen).0) low
        ∙ ap (λ y. y.0) (at_index-negative (total - n - 1) names seen)
        ∙ ground arith
    | inr past ↦
        let total = field_total jvm seen in
        let within : total ≤ n = ground arith in
        let high : less_new jvm (pos n) [] seen ≡ pos (n - total) = omega int_laws in
        ap (λ i. (at_index i names seen).0) high
        ∙ at_index-field (n - total) names seen
        ∙ ground arith
  ]

  -- getFieldNameByIndex ends when laying out the class and its ancestors does. It answers the name of
  -- the field at the index, counted past the fields of all interfaces and from the top class down,
  -- and NULL for an index before the first of these fields or after the last.
  pub get_field_name_by_index_lem :
      (fuel klass : ℕ) (idx : ℤ)
      → get_field_name_by_index jvm fuel klass idx
        ≡ (layout jvm fuel klass [] >>= λ x. some (name_at idx x.0 x.1))
  unfolding get_field_name_by_index
  get_field_name_by_index_lem fuel klass idx =
      bind_ext below _ _ forget_field
      ∙ sym (bind_assoc below (λ y. some (forget y)) (λ y. some y.0))
      ∙ ap (λ m. m >>= λ y. some y.0) (name_internal-at_index fuel klass idx [])
      ∙ bind_assoc (layout jvm fuel klass []) _ _
      ∙ bind_ext (layout jvm fuel klass []) _ _ (λ x. ap some (at_index-name_at idx x.0 x.1))
    where
      below : Option Answer
      below = get_field_name_by_index_internal jvm fuel klass idx []
