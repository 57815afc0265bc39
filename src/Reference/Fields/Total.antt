-- ===== src/Reference/Fields/Total.antt =====
-- On a hierarchy without cycles the recursions end.
use jleaker.Common.{
  ℕ, zero, suc, ◌<◌, ◌≡◌, refl, Option, some, List, [], ◌∷◌, ◌++◌, Bytes, Bool-cases, Option-cases,
  inl, inr, arith,
}
use jleaker.Reference.Fields.Jvm.{Jvm, own_names}
use jleaker.Reference.Fields.Defs.{find_interface_in_list}
use jleaker.Reference.Fields.Layout.{collect_loop, collect, layout}

abbrev pub AllBelow : (ℕ → ℕ) → ℕ → List ℕ → Type 0
AllBelow rank bound [] = Unit {0}
AllBelow rank bound (x ∷ xs) = (rank x < bound) × AllBelow rank bound xs

-- A hierarchy without cycles: each class has a number above those of its interfaces and of its
-- superclass, which the class file verifier of the virtual machine ensures.
pub record IsRanked (jvm : Jvm) (rank : ℕ → ℕ) : Type 0 where
  pub interfaces_below : (klass : ℕ) → AllBelow rank (rank klass) (jvm.interfaces klass)
  pub superclass_below :
      (klass super : ℕ) → jvm.superclass klass ≡ some super → rank super < rank klass

module _ (jvm : Jvm) (rank : ℕ → ℕ) (ranked : IsRanked jvm rank) where
  loop_total :
      (coll : ℕ → List ℕ → Option (List ℕ)) (bound : ℕ)
      → ((k : ℕ) (seen : List ℕ) → rank k < bound → (s : List ℕ) × (coll k seen ≡ some s))
      → (intrs seen : List ℕ) → AllBelow rank bound intrs
      → (s : List ℕ) × (collect_loop jvm coll intrs seen ≡ some s)
  unfolding collect_loop
  loop_total coll bound total [] seen below = (seen, refl)
  loop_total coll bound total (intr ∷ intrs) seen below =
      let listed = (find_interface_in_list seen intr).1 in
      elim (Bool-cases (find_interface_in_list seen intr).0) [
        | inl old ↦
            let (s, e) = loop_total coll bound total intrs listed below.1 in
            (s, rw (old, collect_loop) e)
        | inr new ↦
            let (t, first) = total intr listed below.0 in
            let (s, e) = loop_total coll bound total intrs t below.1 in
            (s, rw (new, collect_loop) (rw first e))
      ]

  collect_total :
      (fuel klass : ℕ) (seen : List ℕ)
      → rank klass < fuel
      → (s : List ℕ) × (collect jvm fuel klass seen ≡ some s)
  unfolding collect
  collect_total zero klass seen h = absurd (omega arith)
  collect_total (suc fuel) klass seen h =
      loop_total (collect jvm fuel) (rank klass) (λ k s below. collect_total fuel k s (omega arith))
        (jvm.interfaces klass) seen (ranked.interfaces_below klass)

  pub layout_total :
      (fuel klass : ℕ) (seen : List ℕ)
      → rank klass < fuel
      → (x : List Bytes × List ℕ) × (layout jvm fuel klass seen ≡ some x)
  unfolding layout
  layout_total zero klass seen h = absurd (omega arith)
  layout_total (suc fuel) klass seen h =
      let (seen1, e) = collect_total (suc fuel) klass seen h in
      elim (Option-cases (jvm.superclass klass)) [
        | inl top ↦ ((own_names jvm klass, seen1), rw (e, top))
        | inr (super, up) ↦
            let (x, f) =
              layout_total fuel super seen1
                (omega (arith, ranked.superclass_below klass super up)) in
            ((x.0 ++ own_names jvm klass, x.1), rw (e, up, f))
      ]
