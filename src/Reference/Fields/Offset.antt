-- ===== src/Reference/Fields/Offset.antt =====
-- getFieldOffset computes the position of a field in the layout.
use jleaker.Common.{
  ℕ, zero, suc, ◌+◌, ◌≡◌, refl, ap, ◌∙◌, sym, Bool, true, false, if◌then◌else◌, Option, none, some,
  ◌>>=◌, bind_ext, bind_assoc, List, [], ◌∷◌, ◌++◌, length, map, length-append, length-map, Bytes,
  str_eq, Option-cases, inl, inr, arith,
}
use jleaker.Common.Int.{ℤ, pos, negsuc, ◌+ℤ◌, ◌-ℤ◌, +ℤ_pos, int_laws}
use jleaker.Reference.Fields.Jvm.{Jvm, own_names}
use jleaker.Reference.Fields.Defs.{
  find_field, own_offset, get_field_offset_internal, get_field_offset,
}
use jleaker.Reference.Fields.Layout.{field_total, collect, layout, less_new, remove-collect}

-- The first position at which a name stands.
unfoldable pub index_of : Bytes → List Bytes → Option ℕ
index_of name [] = none
index_of name (x ∷ xs) =
    let later = index_of name xs in
    if str_eq name x then some 0 else (elim later [ none ↦ none | some i ↦ some (suc i) ])

pub index_of-append :
    (name : Bytes) (xs ys : List Bytes)
    → index_of name (xs ++ ys) ≡ (elim (index_of name xs) [
      | some i ↦ some i
      | none ↦ elim (index_of name ys) [ none ↦ none | some j ↦ some (length xs + j) ]
    ])
unfolding index_of
index_of-append name [] ys = ground arith
index_of-append name (x ∷ xs) ys = ground (arith, index_of-append name xs ys)

module _ (jvm : Jvm) where
  find_field-index_of :
      (klass : ℕ) (name : Bytes) (fs : List ℕ) (i : ℕ)
      → find_field jvm klass name fs i ≡ (elim (index_of name (map (jvm.field_name klass) fs)) [
        | none ↦ none
        | some j ↦ some (i + j)
      ])
  unfolding find_field index_of
  find_field-index_of klass name [] i = refl
  find_field-index_of klass name (f ∷ fs) i =
      ground (arith, find_field-index_of klass name fs (i + 1))

  -- Whether the name stands in the list, and the index moved to it or past the whole list.
  pub located : Bytes → ℤ → List Bytes → List ℕ → Bool × ℤ × List ℕ
  located name idx names seen = elim (index_of name names) [
    | some i ↦ (true, idx +ℤ pos i, seen)
    | none ↦ (false, idx +ℤ pos (length names), seen)
  ]

  own_offset-located :
      (klass : ℕ) (name : Bytes) (idx : ℤ) (seen : List ℕ)
      → own_offset jvm klass name idx seen ≡ some (located name idx (own_names jvm klass) seen)
  unfolding own_offset located
  own_offset-located klass name idx seen = ground (
    arith,
    find_field-index_of klass name (jvm.class_fields klass) 0,
    length-map (jvm.class_fields klass) (jvm.field_name klass),
  )

  -- The index with the interfaces that became listed added.
  abbrev pub plus_new : ℤ → List ℕ → List ℕ → ℤ
  plus_new idx seen seen' = idx +ℤ pos (field_total jvm seen') -ℤ pos (field_total jvm seen)

  -- What the class's own fields add to an answer for the inherited ones.
  after_super : ℕ → Bytes → Bool × ℤ × List ℕ → Option (Bool × ℤ × List ℕ)
  after_super klass name (found, idx, seen) =
      if found then some (true, idx, seen) else own_offset jvm klass name idx seen

  located-append :
      (klass : ℕ) (name : Bytes) (idx : ℤ) (fs : List Bytes) (seen : List ℕ)
      → after_super klass name (located name idx fs seen)
        ≡ some (located name idx (fs ++ own_names jvm klass) seen)
  unfolding located after_super
  located-append klass name idx fs seen = elim (Option-cases (index_of name fs)) [
    | inr (i, e) ↦ ground (arith, index_of-append name fs (own_names jvm klass))
    | inl e ↦ elim (Option-cases (index_of name own)) [
      | inl f ↦ ground (
        arith,
        index_of-append name fs own,
        own_offset-located klass name (idx +ℤ pos (length fs)) seen,
        +ℤ_pos idx (length fs) (length own),
        length-append fs own,
      )
      | inr (j, f) ↦ ground (
        arith,
        index_of-append name fs own,
        own_offset-located klass name (idx +ℤ pos (length fs)) seen,
        +ℤ_pos idx (length fs) j,
      )
    ]
  ]
    where
      own : List Bytes
      own = own_names jvm klass

  pub offset_internal-located :
      (fuel klass : ℕ) (name : Bytes) (idx : ℤ) (seen : List ℕ)
      → get_field_offset_internal jvm fuel klass name idx seen
        ≡ (layout jvm fuel klass seen >>= λ x. some (located name (plus_new idx seen x.1) x.0 x.1))
  unfolding get_field_offset_internal layout after_super
  offset_internal-located zero klass name idx seen = refl
  offset_internal-located (suc fuel) klass name idx seen =
      rw (remove-collect jvm (suc fuel) klass (pos 0) seen)
        (elim (Option-cases (collect jvm (suc fuel) klass seen)) [
          | inl out ↦ rw out
          | inr (seen1, e) ↦ rw e (elim (Option-cases (jvm.superclass klass)) [
            | inl top ↦ rw top (
                own_offset-located klass name (idx -ℤ less_new jvm (pos 0) seen seen1) seen1
                ∙ ap (λ i. some (located name i (own_names jvm klass) seen1)) (omega int_laws))
            | inr (super, up) ↦
                let inner = idx -ℤ less_new jvm (pos 0) seen seen1 in
                rw up (
                  ap (λ m. m >>= after_super klass name)
                    (offset_internal-located fuel super name inner seen1)
                  ∙ bind_assoc (layout jvm fuel super seen1) _ (after_super klass name)
                  ∙ bind_ext (layout jvm fuel super seen1) _ _ (λ x.
                    located-append klass name (plus_new inner seen1 x.1) x.0 x.1
                    ∙ ap (λ i. some (located name i (x.0 ++ own_names jvm klass) x.1))
                        (omega int_laws))
                  ∙ sym (bind_assoc (layout jvm fuel super seen1) _ _))
          ])
        ])

  located_value :
      (name : Bytes) (names : List Bytes) (seen : List ℕ)
      → (let y = located name (plus_new (pos 0) [] seen) names seen in
          ◌≡◌ {A = Option ℤ} (some (if y.0 then y.1 else negsuc 0)) (
            some (elim (index_of name names) [
              | some i ↦ pos (field_total jvm seen + i)
              | none ↦ negsuc 0
            ])))
  unfolding located field_total
  located_value name names seen = elim (Option-cases (index_of name names)) [
    | inl e ↦ ground arith
    | inr (i, e) ↦ rw (e, located) (ap some (omega int_laws))
  ]

  -- getFieldOffset ends when laying out the class and its ancestors does. It answers -1 for a name that
  -- none of them declares as a field, and else the number of fields of all their interfaces, each
  -- counted once, plus the first position of the name among their fields from the top class down.
  pub get_field_offset_lem :
      (fuel klass : ℕ) (name : Bytes)
      → get_field_offset jvm fuel klass name ≡ (
          layout jvm fuel klass [] >>= λ x.
          some
            (elim (index_of name x.0) [ some i ↦ pos (field_total jvm x.1 + i) | none ↦ negsuc 0 ]))
  unfolding get_field_offset located field_total
  get_field_offset_lem fuel klass name =
      ap (λ m. m >>= λ x. some (if x.0 then x.1 else negsuc 0))
        (offset_internal-located fuel klass name (pos 0) [])
      ∙ bind_assoc (layout jvm fuel klass []) _ _
      ∙ bind_ext (layout jvm fuel klass []) _ _ (λ x. located_value name x.0 x.1)
