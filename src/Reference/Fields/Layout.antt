-- ===== src/Reference/Fields/Layout.antt =====
-- The layout that JVMTI's field indices follow: first the fields of the interfaces that the class
-- and its ancestors list, each interface once, then the fields of the ancestors from the top down.
use jleaker.Common.{
  ℕ, zero, suc, ◌+◌, ◌≡◌, refl, ap, ◌∙◌, sym, Bool, true, false, if◌then◌else◌, Option, none, some,
  ◌>>=◌, bind_ext, bind_assoc, List, [], ◌∷◌, ◌++◌, length, Bytes, Bool-cases, inl, inr, arith,
}
use jleaker.Common.Int.{ℤ, pos, ◌+ℤ◌, ◌-ℤ◌, int_laws}
use jleaker.Reference.Fields.Jvm.{Jvm, own_names}
use jleaker.Reference.Fields.Defs.{
  find_interface_in_list, interfaces_loop, remove_implemented_interfaces_from_index,
}

module _ (jvm : Jvm) where
  -- The fields of the listed interfaces.
  unfoldable pub field_total : List ℕ → ℕ
  field_total [] = 0
  field_total (intr ∷ intrs) = length (jvm.class_fields intr) + field_total intrs

  -- The list of interfaces once those of `intrs` and of their ancestors are on it.
  unfoldable pub collect_loop : (ℕ → List ℕ → Option (List ℕ)) → List ℕ → List ℕ → Option (List ℕ)
  collect_loop inner [] seen = some seen
  collect_loop inner (intr ∷ intrs) seen =
      let listed = find_interface_in_list seen intr in
      elim listed.0 [
        | true ↦ collect_loop inner intrs listed.1
        | false ↦ inner intr listed.1 >>= collect_loop inner intrs
      ]

  unfoldable pub collect : ℕ → ℕ → List ℕ → Option (List ℕ)
  unfolding collect_loop
  collect zero klass seen = none
  collect (suc fuel) klass seen = collect_loop (collect fuel) (jvm.interfaces klass) seen

  -- The names of the fields of a class and its ancestors, and the interfaces of all of them.
  unfoldable pub layout : ℕ → ℕ → List ℕ → Option (List Bytes × List ℕ)
  layout zero klass seen = none
  layout (suc fuel) klass seen = do
    seen1 ← collect (suc fuel) klass seen
    elim (jvm.superclass klass) [
      | none ↦ some (own_names jvm klass, seen1)
      | some super ↦ do
        (inherited, seen2) ← layout fuel super seen1
        some (inherited ++ own_names jvm klass, seen2)
    ]

  -- The index less what the interfaces new on the list account for.
  abbrev pub less_new : ℤ → List ℕ → List ℕ → ℤ
  less_new idx seen seen' = idx +ℤ pos (field_total seen) -ℤ pos (field_total seen')

  field_total-find :
      (seen : List ℕ) (intr : ℕ)
      → field_total (find_interface_in_list seen intr).1
        ≡ field_total seen
          + (if (find_interface_in_list seen intr).0 then 0 else length (jvm.class_fields intr))
  unfolding field_total find_interface_in_list
  field_total-find [] intr = ground arith
  field_total-find (x ∷ xs) intr = ground (arith, field_total-find xs intr)

  -- Removing the interfaces' fields from an index lists the interfaces and subtracts exactly the
  -- fields of those that were not on the list before.
  loop-collect :
      (inner : ℕ → ℤ → List ℕ → Option (ℤ × List ℕ)) (coll : ℕ → List ℕ → Option (List ℕ))
      → ((k : ℕ) (idx : ℤ) (seen : List ℕ)
          → inner k idx seen ≡ (coll k seen >>= λ seen'. some (less_new idx seen seen', seen')))
      → (intrs : List ℕ) (idx : ℤ) (seen : List ℕ)
      → interfaces_loop jvm inner intrs idx seen
        ≡ (collect_loop coll intrs seen >>= λ seen'. some (less_new idx seen seen', seen'))
  unfolding interfaces_loop collect_loop
  loop-collect inner coll same [] idx seen = ap (λ i. some (i, seen)) (omega int_laws)
  loop-collect inner coll same (intr ∷ intrs) idx seen = elim (Bool-cases there) [
    | inl old ↦
        rw (old, interfaces_loop, collect_loop)
          (loop-collect inner coll same intrs idx listed
            ∙ bind_ext _ _ _ (λ seen'. ap (λ i. some (i, seen')) (no_change old idx seen')))
    | inr new ↦
        rw (new, interfaces_loop, collect_loop)
          (ap (λ m. m >>= rest) (same intr idx listed)
            ∙ bind_assoc (coll intr listed) _ rest
            ∙ bind_ext (coll intr listed) _ _ (λ seen'.
              loop-collect inner coll same intrs (less_new idx listed seen' -ℤ pos F) seen'
              ∙ bind_ext _ _ _
                  (λ seen''. ap (λ i. some (i, seen'')) (one_more new idx seen' seen'')))
            ∙ sym (bind_assoc (coll intr listed) (collect_loop coll intrs) _))
  ]
    where
      there : Bool
      there = (find_interface_in_list seen intr).0

      listed : List ℕ
      listed = (find_interface_in_list seen intr).1

      F : ℕ
      F = length (jvm.class_fields intr)

      rest : ℤ × List ℕ → Option (ℤ × List ℕ)
      rest = λ x. interfaces_loop jvm inner intrs (x.0 -ℤ pos F) x.1

      no_change : there ≡ true → (i : ℤ) (s : List ℕ) → less_new i listed s ≡ less_new i seen s
      no_change old i s =
          let same_total : field_total listed ≡ field_total seen =
            ground (arith, field_total-find seen intr) in
          omega int_laws

      one_more :
          there ≡ false
          → (i : ℤ) (s t : List ℕ) → less_new (less_new i listed s -ℤ pos F) s t ≡ less_new i seen t
      one_more new i s t =
          let total : field_total listed ≡ field_total seen + F =
            ground (arith, field_total-find seen intr) in
          omega int_laws

  pub remove-collect :
      (fuel klass : ℕ) (idx : ℤ) (seen : List ℕ)
      → remove_implemented_interfaces_from_index jvm fuel klass idx seen
        ≡ (collect fuel klass seen >>= λ seen'. some (less_new idx seen seen', seen'))
  unfolding remove_implemented_interfaces_from_index collect
  remove-collect zero klass idx seen = refl
  remove-collect (suc fuel) klass idx seen =
      loop-collect (remove_implemented_interfaces_from_index jvm fuel) (collect fuel)
        (remove-collect fuel) (jvm.interfaces klass) idx seen
