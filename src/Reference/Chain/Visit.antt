-- ===== src/Reference/Chain/Visit.antt =====
-- A whole call: marking the node, filling it, the loop, and clearing the mark.
use jleaker.Common.{
  ℕ, ◌<◌, ◌≡◌, refl, ◌∙◌, sym, ap, subst, Bool, true, false, ◌==◌, ==_iff, List, [], ◌∷◌, length,
  ◌⊎◌, inl, inr, Bool-cases, arith,
}
use jleaker.Node.Defs.{MemoryReferer, Store, node_at}
use jleaker.Reference.Chain.Defs.{Jvm, set_visited}
use jleaker.Reference.Chain.Fill.{live}
use jleaker.Reference.Chain.Frame.{Same, Same-trans}
use jleaker.Reference.Chain.Steps.{
  set_visited-Same, AreValid-set_visited, has_leak-set_visited, visited-set_visited, Kept-visit,
}
use jleaker.Reference.Chain.Explored.{
  AllFrom, AllFrom-mono, Blocked, Stuck, IsExplored, IsExplored-mono,
}
use jleaker.Reference.Chain.Result.{Keeps, Result}
use jleaker.Reference.Chain.Loop.{LoopResult}

module _ (jvm : Jvm) (consider : Bool) (leak : ℕ) (first : Store) where
  Stuck-set_visited :
      (v : Bool) (st : Store) (a b : ℕ)
      → a < length st
      → (v ≡ true) ⊎ Blocked jvm consider leak first (set_visited v st a) a
      → Stuck jvm consider leak first st b
      → Stuck jvm consider leak first (set_visited v st a) b
  Stuck-set_visited v st a b h which (inl (inl gone)) =
      inl (inl (has_leak-set_visited leak v st a b h ∙ gone))
  Stuck-set_visited v st a b h which (inl (inr other)) = inl (inr other)
  Stuck-set_visited v st a b h which (inr marked) = elim (Bool-cases (a == b)) [
    | inr apart ↦ inr (ground (arith, visited-set_visited v st a b h))
    | inl e ↦ elim which [
      | inl on ↦ inr (ground (arith, visited-set_visited v st a b h))
      | inr blocked ↦
          inl (
            subst (Blocked jvm consider leak first (set_visited v st a)) ((==_iff a b).0 e) blocked)
    ]
  ]

  pub IsExplored-mark :
      (st : Store) (a : ℕ)
      → a < length st
      → IsExplored jvm consider leak first st
      → IsExplored jvm consider leak first (set_visited true st a)
  IsExplored-mark st a h explored =
      IsExplored-mono jvm consider leak first st _
        (λ b new. (
          ground (arith, visited-set_visited true st a b h),
          has_leak-set_visited leak true st a b h,
        ))
        (λ b. Stuck-set_visited true st a b h (inl refl)) explored

  -- Clearing the mark of a node whose references are explored.
  pub IsExplored-clear :
      (st : Store) (a : ℕ)
      → a < length st
      → Blocked jvm consider leak first (set_visited false st a) a
      → (live jvm first a ≡ true
          → AllFrom jvm consider leak (Stuck jvm consider leak first st) (node_at first a).referers)
      → IsExplored jvm consider leak first st
      → IsExplored jvm consider leak first (set_visited false st a)
  IsExplored-clear st a h blocked all explored b new had gone alive =
      AllFrom-mono jvm consider leak (Stuck jvm consider leak first st) _ (node_at first b).referers
        (λ c. Stuck-set_visited false st a c h (inr blocked))
        (elim (Bool-cases (a == b)) [
          | inl e ↦
              let same = (==_iff a b).0 e in
              subst
                (λ c.
                  AllFrom jvm consider leak (Stuck jvm consider leak first st)
                    (node_at first c).referers)
                same (all (ap (live jvm first) same ∙ alive))
          | inr apart ↦
              explored b (ground (arith, visited-set_visited false st a b h)) had
                (sym (has_leak-set_visited leak false st a b h) ∙ gone) alive
        ])

  -- What was kept while the node was marked is kept by the whole call.
  pub Keeps-visit :
      (st st' : Store) (a : ℕ)
      → a < length st
      → (node_at st a).visited ≡ false
      → Keeps jvm consider leak first (set_visited true st a) st'
      → Keeps jvm consider leak first st (set_visited false st' a)
  Keeps-visit st st' a h new k =
      let mark = set_visited-Same jvm leak true st a h in
      let size : length st' ≡ length st = k.same.same_length ∙ mark.same_length in
      let h' : a < length st' = rw size h in
      record {
        same =
            Same-trans jvm leak st st' _ (Same-trans jvm leak st _ st' mark k.same)
              (set_visited-Same jvm leak false st' a h');
        kept = Kept-visit st st' a h new k.kept size;
        valid = AreValid-set_visited false st' a k.valid h';
      }

  pub close :
      (st st' : Store) (a : ℕ) (refs : List MemoryReferer)
      → a < length st
      → (node_at st a).visited ≡ false
      → Same jvm leak first st
      → LoopResult jvm consider leak first
          (set_visited true st a)
          a
          (node_at first a).referers
          refs
          st'
      → Result jvm consider leak first st a refs (set_visited false st' a)
  close st st' a [] h new s (k, (explored, all, exit)) =
      let keeps = Keeps-visit st st' a h new k in
      let h' : a < length st' =
        rw (k.same.same_length ∙ (set_visited-Same jvm leak true st a h).same_length) h in
      let blocked : Blocked jvm consider leak first (set_visited false st' a) a = elim exit [
        | inl skipped ↦ inr (inr skipped)
        | inr gone ↦ inl (has_leak-set_visited leak false st' a a h' ∙ gone)
      ] in
      (keeps, (IsExplored-clear st' a h' blocked (λ alive. all) explored, inl blocked))
  close st st' a (r ∷ rs) h new s (k, chain) = (Keeps-visit st st' a h new k, chain)
