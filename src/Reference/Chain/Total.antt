-- ===== src/Reference/Chain/Total.antt =====
-- The search ends: each nested call marks a node that was not marked before.
use jleaker.Common.{
  ℕ, zero, suc, ◌<◌, ◌≤◌, ◌≡◌, refl, ◌∙◌, sym, subst, Bool, true, false, some, List, [], ◌∷◌,
  length, set, inl, inr, Bool-cases, Option-cases, arith,
}
use jleaker.Reference.Kind.{is_root_reference, should_consider_this_reference}
use jleaker.Node.Defs.{MemoryReferer, MemoryNode, Store, node_at}
use jleaker.Reference.Chain.Defs.{
  Jvm, Search, exhausted, fatal, ends, with_objects, with_class, fill_node,
  fill_class_in_memory_node, set_visited, remove_leak, refs_loop, search_filled, finish,
  generate_references_chain_for_node,
}
use jleaker.Reference.Chain.Frame.{has_leak, lt_of_has_leak, unvisited, Same, Same-refl, AreValid}
use jleaker.Reference.Chain.Steps.{
  set_visited-Same, remove_leak-Same, fill-IsFilled, AreValid-set_visited, AreValid-remove_leak,
  remove_leak-Kept, unvisited-set_visited,
}
use jleaker.Reference.Chain.Explored.{Among}
use jleaker.Reference.Chain.Result.{Ends, done, Keeps, Result}
use jleaker.Reference.Chain.Found.{generate_lem}
use jleaker.Reference.Chain.Loop.{after, call_after}

-- The search returned.
abbrev pub Returns : Search → Type 0
Returns exhausted = ⊥
Returns fatal = ⊥
Returns (ends refs st) = Unit {0}

-- A reference that is no root has a node.
abbrev pub AreLinked : List MemoryReferer → Type 0
AreLinked rs =
    (r : MemoryReferer)
    → Among r rs
    → is_root_reference r.kind ≡ false
    → (b : ℕ) × (r.node ≡ some b)

module _ (jvm : Jvm) (consider : Bool) (leak : ℕ) where
  call-Keeps :
      (fuel a : ℕ) (st : Store) {refs : List MemoryReferer} {st' : Store}
      → AreValid st
      → generate_references_chain_for_node jvm consider leak fuel a st ≡ ends refs st'
      → Keeps jvm consider leak st st st'
  call-Keeps fuel a st {refs} {st'} v e = of_ends (
      subst (Ends (Result jvm consider leak st st a)) e (
        generate_lem jvm consider leak st fuel a st (Same-refl jvm leak st) v
          (λ b new had gone. absurd (ground arith))))
    where
      of_ends :
          Ends (Result jvm consider leak st st a) (ends refs st')
          → Keeps jvm consider leak st st st'
      of_ends (done (k, u)) = k

  with_objects_total :
      (n : MemoryNode) (os : List ℕ)
      → length os ≤ 1
      → (m : MemoryNode) × (with_objects jvm n os ≡ some m)
  unfolding with_objects
  with_objects_total n [] h = (_, refl)
  with_objects_total n (o ∷ []) h = (_, refl)
  with_objects_total n (o ∷ p ∷ os) h = absurd (omega arith)

  fill_node_total :
      (a : ℕ) (n : MemoryNode)
      → length (jvm.objects_with_tag a) ≤ 1
      → (m : MemoryNode) × (fill_node jvm a n ≡ some m)
  unfolding fill_node
  fill_node_total a n h = elim (Bool-cases n.dead) [
    | inl dead ↦ (n, ground arith)
    | inr here ↦ elim (Option-cases n.klass) [
      | inr (k, e) ↦ (n, ground arith)
      | inl e ↦ elim (Option-cases n.obj) [
        | inr (o, o_is) ↦ (with_class jvm n o, ground arith)
        | inl none_is ↦
            let (m, w) = with_objects_total n (jvm.objects_with_tag a) h in (m, ground arith)
      ]
    ]
  ]

  fill_total :
      (a : ℕ) (st : Store)
      → length (jvm.objects_with_tag a) ≤ 1
      → (st' : Store) × (fill_class_in_memory_node jvm st a ≡ some st')
  unfolding fill_class_in_memory_node
  fill_total a st h = let (m, e) = fill_node_total a (node_at st a) h in (set st a m, rw e refl)

  -- The sets of the store are well formed, and its references that are no roots have nodes.
  pub record IsReady (st : Store) : Type 0 where
    pub valid : AreValid st
    pub linked : (a : ℕ) → AreLinked (node_at st a).referers

  IsReady-Same : (st st' : Store) → AreValid st' → Same jvm leak st st' → IsReady st → IsReady st'
  IsReady-Same st st' v s ready = record {
    valid = v;
    linked = λ a. subst AreLinked (sym (s.same_referers a)) (ready.linked a);
  }

  -- Calls that start with `n` nodes not marked return, and keep what a call keeps.
  abbrev IsGood : (ℕ → Store → Search) → ℕ → Type 0
  IsGood inner n =
      (b : ℕ) (s : Store)
      → IsReady s
      → unvisited s ≡ n
      → Returns (inner b s)
        × ((refs : List MemoryReferer) (s' : Store)
            → inner b s ≡ ends refs s'
            → Keeps jvm consider leak s s s')

  after-Returns :
      (inner : ℕ → Store → Search) (a : ℕ) (r : MemoryReferer) (rs : List MemoryReferer)
      (st : Store)
      → ((s : Store)
          → Keeps jvm consider leak st st s
          → Returns (refs_loop jvm consider leak inner a rs (remove_leak leak s a)))
      → (out : Search) → Returns out
      → ((refs : List MemoryReferer) (s : Store)
          → out ≡ ends refs s
          → Keeps jvm consider leak st st s)
      → Returns (after jvm consider leak st inner a r rs out)
  after-Returns inner a r rs st later exhausted u k = absurd u
  after-Returns inner a r rs st later fatal u k = absurd u
  after-Returns inner a r rs st later (ends [] s) u k = later s (k [] s refl)
  after-Returns inner a r rs st later (ends (t ∷ ts) s) u k = tt

  loop-Returns :
      (inner : ℕ → Store → Search) (a n : ℕ) (left : List MemoryReferer) (st : Store)
      → IsGood inner n
      → IsReady st
      → a < length st
      → unvisited st ≡ n
      → AreLinked left
      → Returns (refs_loop jvm consider leak inner a left st)
  unfolding refs_loop
  loop-Returns inner a n [] st good ready h count linked = tt
  loop-Returns inner a n (r ∷ rs) st good ready h count linked =
      elim (Bool-cases (should_consider_this_reference consider r.kind)) [
        | inr c ↦
            rw (c, refs_loop)
              (loop-Returns inner a n rs st good ready h count (λ t m. linked t (inr m)))
        | inl c ↦ elim (Bool-cases (is_root_reference r.kind)) [
          | inl e ↦ rw (c, e, refs_loop) tt
          | inr e ↦
              let (b, at) = linked r (inl refl) e in
              let (ends_here, keeps) = good b st ready count in
              rw (call_after jvm consider leak st inner a b r rs st c e at) (
                after-Returns inner a r rs st
                  (λ s k.
                    let within : a < length s = rw k.same.same_length h in
                    loop-Returns inner a n rs (remove_leak leak s a) good
                      (IsReady-Same s _ (AreValid-remove_leak leak s a k.valid within)
                        (remove_leak-Same jvm leak s a k.valid within)
                        (IsReady-Same st s k.valid k.same ready))
                      (rw (remove_leak-Same jvm leak s a k.valid within).same_length within)
                      ((remove_leak-Kept leak s a within).same_count ∙ k.kept.same_count ∙ count)
                      (λ t m. linked t (inr m)))
                  (inner b st) ends_here keeps)
        ]
      ]

  -- A call past its two early returns.
  search-Returns :
      (fuel a : ℕ) (st : Store)
      → ((b : ℕ) → length (jvm.objects_with_tag b) ≤ 1)
      → IsReady st
      → a < length st
      → (node_at st a).visited ≡ false
      → IsGood
          (generate_references_chain_for_node jvm consider leak fuel)
          (unvisited (set_visited true st a))
      → Returns (
          search_filled jvm consider leak
            (generate_references_chain_for_node jvm consider leak fuel)
            a
            (fill_class_in_memory_node jvm (set_visited true st a) a))
  unfolding search_filled
  search-Returns fuel a st single ready h new good =
      let mark = set_visited-Same jvm leak true st a h in
      let v = AreValid-set_visited true st a ready.valid h in
      let h1 : a < length (set_visited true st a) = rw mark.same_length h in
      let (st', e) = fill_total a (set_visited true st a) (single a) in
      let f = fill-IsFilled jvm leak (set_visited true st a) a v h1 e in
      let ready' = IsReady-Same _ st' f.valid f.same (IsReady-Same st _ v mark ready) in
      rw e (elim (Bool-cases (node_at st' a).dead) [
        | inl dead ↦ rw dead tt
        | inr alive ↦ rw alive (
            loop-Returns (generate_references_chain_for_node jvm consider leak fuel) a _ _ st' good
              ready' (rw f.same.same_length h1) f.kept.same_count (ready'.linked a))
      ])

  finish-Returns : (a : ℕ) (out : Search) → Returns out → Returns (finish a out)
  unfolding finish
  finish-Returns a exhausted u = u
  finish-Returns a fatal u = u
  finish-Returns a (ends refs st) u = tt

  pub generate-Returns :
      (fuel a : ℕ) (st : Store)
      → ((b : ℕ) → length (jvm.objects_with_tag b) ≤ 1)
      → IsReady st
      → unvisited st < fuel
      → Returns (generate_references_chain_for_node jvm consider leak fuel a st)
  unfolding generate_references_chain_for_node
  generate-Returns zero a st single ready enough = absurd (omega arith)
  generate-Returns (suc fuel) a st single ready enough = elim (Bool-cases (node_at st a).visited) [
    | inl marked ↦ rw marked tt
    | inr new ↦ elim (Bool-cases (has_leak leak st a)) [
      | inr gone ↦ rw (new, gone) tt
      | inl had ↦
          rw (new, had)
            (finish-Returns a _ (
              search-Returns fuel a st single ready (lt_of_has_leak leak st a had) new (λ b s r e. (
                generate-Returns fuel b s single r (
                    omega
                      (arith, e, unvisited-set_visited st a (lt_of_has_leak leak st a had) new)),
                λ refs s' eq. call-Keeps fuel b s r.valid eq,
              ))))
    ]
  ]
