-- ===== src/Reference/Fields/RoundTrip.antt =====
-- getFieldOffset and getFieldNameByIndex are inverse to one another on the fields of a class, and
-- both end on every hierarchy without cycles.
use jleaker.Common.{
  ℕ, zero, suc, ◌+◌, ◌-◌, ◌<◌, ◌≡◌, refl, ap, ◌∙◌, sym, none, some, List, [], ◌∷◌, get_elem?, ◌≢◌,
  Bytes, str_eq, str_eq_iff, Bool-cases, Option-cases, ◌⊎◌, inl, inr, arith,
}
use jleaker.Common.Int.{ℤ, pos, negsuc}
use jleaker.Reference.Fields.Jvm.{Jvm}
use jleaker.Reference.Fields.Defs.{get_field_offset, get_field_name_by_index}
use jleaker.Reference.Fields.Layout.{field_total}
use jleaker.Reference.Fields.Offset.{index_of, get_field_offset_lem}
use jleaker.Reference.Fields.Name.{name_at, get_field_name_by_index_lem}
use jleaker.Reference.Fields.Total.{IsRanked, layout_total}
use jleaker.Reference.Fields.Declared.{Declares, Declares-layout, layout-Declares}

index_of_sound :
    (name : Bytes) (names : List Bytes) (i : ℕ)
    → index_of name names ≡ some i
    → get_elem? names i ≡ some name
unfolding index_of
index_of_sound name [] i e = cc
index_of_sound name (x ∷ xs) i e = elim (Bool-cases (str_eq name x)) [
  | inl same ↦
      let first : i ≡ 0 = ground arith in
      let this : x ≡ name = sym ((str_eq_iff name x).0 same) in rw first (ap some this)
  | inr other ↦ elim (Option-cases (index_of name xs)) [
    | inl gone ↦ ground arith
    | inr (j, later) ↦
        let next : i ≡ suc j = ground arith in rw next (index_of_sound name xs j later)
  ]
]

index_of_complete :
    (name : Bytes) (names : List Bytes) (i : ℕ)
    → get_elem? names i ≡ some name
    → index_of name names ≢ none
unfolding index_of
index_of_complete name [] i e = cc
index_of_complete name (x ∷ xs) zero e = ground (arith, str_eq_iff name x)
index_of_complete name (x ∷ xs) (suc i) e = ground (arith, index_of_complete name xs i e)

module _ (jvm : Jvm) (name : Bytes) where
  -- What an offset says: the name is read back from it, or it is -1 and nothing declares the name.
  abbrev pub Answers : ℕ → ℕ → ℤ → Type 0
  Answers fuel klass idx =
      (Declares jvm name klass
        × (idx ≢ negsuc 0)
        × (get_field_name_by_index jvm fuel klass idx ≡ some (some name)))
      ⊎ ((idx ≡ negsuc 0) × (¬ Declares jvm name klass))

  -- On a hierarchy without cycles getFieldOffset ends. If the class or one of its ancestors
  -- declares the field, the result is an index, never -1, from which getFieldNameByIndex gives the
  -- field's name back; if none does, the result is -1.
  pub name_by_index-offset :
      (rank : ℕ → ℕ) (fuel klass : ℕ)
      → IsRanked jvm rank
      → rank klass < fuel
      → (idx : ℤ) × (get_field_offset jvm fuel klass name ≡ some idx) × Answers fuel klass idx
  name_by_index-offset rank fuel klass ranked h =
      let ((names, seen), e) = layout_total jvm rank ranked fuel klass [] h in
      elim (Option-cases (index_of name names)) [
        | inl gone ↦ (
          negsuc 0,
          get_field_offset_lem jvm fuel klass name ∙ rw (e, gone) refl,
          inr (
            refl,
            λ d.
                let (i, g) = layout-Declares jvm name fuel klass [] e d in
                index_of_complete name names i g gone,
          ),
        )
        | inr (i, at) ↦ (
          pos (field_total jvm seen + i),
          get_field_offset_lem jvm fuel klass name ∙ rw (e, at) refl,
          inl (
            Declares-layout jvm name fuel klass [] e i (index_of_sound name names i at),
            (λ p. cc),
            get_field_name_by_index_lem jvm fuel klass _ ∙ rw e (ap some (found names seen i at)),
          ),
        )
      ]
    where
      found :
          (names : List Bytes) (seen : List ℕ) (i : ℕ)
          → index_of name names ≡ some i
          → name_at jvm (pos (field_total jvm seen + i)) names seen ≡ some name
      found names seen i at =
          unfold name_at in
          let back : field_total jvm seen + i - field_total jvm seen ≡ i = omega arith in
          ground (arith, ap (get_elem? names) back, index_of_sound name names i at)
