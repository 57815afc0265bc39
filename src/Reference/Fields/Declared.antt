-- ===== src/Reference/Fields/Declared.antt =====
-- The names in the layout are those that the class or one of its ancestors declares.
use jleaker.Common.{
  ℕ, zero, suc, ◌+◌, ◌-◌, ◌≡◌, ◌∙◌, none, some, List, get_elem?, ◌++◌, length,
  get_elem?-append_left, get_elem?-append_right, get_elem?-append_cases, lt_of_get_elem?, Bytes,
  Option-cases, inl, inr, arith,
}
use jleaker.Reference.Fields.Jvm.{Jvm, own_names}
use jleaker.Reference.Fields.Layout.{collect, layout}

-- The class or one of its ancestors has a field of the name.
pub data Declares (jvm : Jvm) (name : Bytes) : ℕ → Type 0 where
  own :
      {klass : ℕ} (i : ℕ) → get_elem? (own_names jvm klass) i ≡ some name → Declares jvm name klass
  inherited :
      {klass super : ℕ}
      → jvm.superclass klass ≡ some super
      → Declares jvm name super
      → Declares jvm name klass

module _ (jvm : Jvm) (name : Bytes) where
  layout-inherits :
      (fuel klass super : ℕ) (seen : List ℕ) {names : List Bytes} {seen' : List ℕ}
      → jvm.superclass klass ≡ some super
      → layout jvm (suc fuel) klass seen ≡ some (names, seen')
      → (seen1 : List ℕ) × (inner : List Bytes) × (layout jvm fuel super seen1
          ≡ some (inner, seen'))
        × (names ≡ inner ++ own_names jvm klass)
  unfolding layout
  layout-inherits fuel klass super seen up e =
      elim (Option-cases (collect jvm (suc fuel) klass seen)) [
        | inl out ↦ cc (rw out at e)
        | inr (seen1, c) ↦ elim (Option-cases (layout jvm fuel super seen1)) [
          | inl out ↦ cc (rw (c, up, out) at e)
          | inr ((inner, s), f) ↦
              let whole = rw (c, up, f) at e in (seen1, inner, ground arith, ground arith)
        ]
      ]

  layout-top :
      (fuel klass : ℕ) (seen : List ℕ) {names : List Bytes} {seen' : List ℕ}
      → jvm.superclass klass ≡ none
      → layout jvm (suc fuel) klass seen ≡ some (names, seen')
      → names ≡ own_names jvm klass
  unfolding layout
  layout-top fuel klass seen top e = ground arith

  pub Declares-layout :
      (fuel klass : ℕ) (seen : List ℕ) {names : List Bytes} {seen' : List ℕ}
      → layout jvm fuel klass seen ≡ some (names, seen')
      → (i : ℕ) → get_elem? names i ≡ some name
      → Declares jvm name klass
  Declares-layout zero klass seen e i g = unfold layout in cc
  Declares-layout (suc fuel) klass seen {names} e i g = elim (Option-cases (jvm.superclass klass)) [
    | inl top ↦ own i (rw (layout-top fuel klass seen top e) at g)
    | inr (super, up) ↦
        let (seen1, inner, f, split) = layout-inherits fuel klass super seen up e in
        elim (get_elem?-append_cases inner (own_names jvm klass) i (rw split at g)) [
          | inl above ↦ inherited up (Declares-layout fuel super seen1 f i above)
          | inr here ↦ own (i - length inner) here
        ]
  ]

  pub layout-Declares :
      (fuel klass : ℕ) (seen : List ℕ) {names : List Bytes} {seen' : List ℕ}
      → layout jvm fuel klass seen ≡ some (names, seen')
      → Declares jvm name klass
      → (i : ℕ) × (get_elem? names i ≡ some name)
  layout-Declares zero klass seen e d = unfold layout in cc
  layout-Declares (suc fuel) klass seen {names} e (own i g) =
      elim (Option-cases (jvm.superclass klass)) [
        | inl top ↦ (i, rw (layout-top fuel klass seen top e) g)
        | inr (super, up) ↦
            let (seen1, inner, f, split) = layout-inherits fuel klass super seen up e in
            (length inner + i, rw split (get_elem?-append_right inner (own_names jvm klass) i ∙ g))
      ]
  layout-Declares (suc fuel) klass seen {names} e (inherited {super} up d) =
      let (seen1, inner, f, split) = layout-inherits fuel klass super seen up e in
      let (i, g) = layout-Declares fuel super seen1 f d in
      (
        i,
        rw split
            (get_elem?-append_left inner (own_names jvm klass) i (lt_of_get_elem? inner i g) ∙ g),
      )
