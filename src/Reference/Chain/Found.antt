-- ===== src/Reference/Chain/Found.antt =====
-- generateReferencesChainForNode finds a chain of references to a root exactly when there is one.
use jleaker.Common.{
  ℕ, zero, suc, ◌<◌, ◌≡◌, ◌∙◌, sym, ap, ==_refl, Bool, true, false, not, List, [], length, inl, inr,
  Bool-cases, Option-cases, arith,
}
use jleaker.Bitmask
use jleaker.Node.Defs.{MemoryReferer, Store, node_at}
use jleaker.Reference.Chain.Defs.{
  Jvm, Search, exhausted, fatal, ends, fill_class_in_memory_node, set_visited, search_filled,
  finish, generate_references_chain_for_node,
}
use jleaker.Reference.Chain.Fill.{live}
use jleaker.Reference.Chain.Frame.{has_leak, lt_of_has_leak, Same, Same-trans, AreValid}
use jleaker.Reference.Chain.Steps.{
  set_visited-Same, IsFilled, fill-IsFilled, AreValid-set_visited, visited-set_visited,
}
use jleaker.Reference.Chain.Explored.{IsExplored, IsExplored-mono}
use jleaker.Reference.Chain.Result.{
  Ends, done, gives_up, dies, Keeps, Keeps-refl, Keeps-trans, Result, AtNode, Inner,
}
use jleaker.Reference.Chain.Loop.{LoopResult, Stuck-Keeps, loop_lem}
use jleaker.Reference.Chain.Visit.{IsExplored-mark, IsExplored-clear, Keeps-visit, close}

module _ (jvm : Jvm) (consider : Bool) (leak : ℕ) (first : Store) where
  fill-Keeps :
      (st st' : Store) (a : ℕ) → IsFilled jvm leak st a st' → Keeps jvm consider leak first st st'
  fill-Keeps st st' a f = record { same = f.same; kept = f.kept; valid = f.valid }

  IsExplored-fill :
      (st st' : Store) (a : ℕ)
      → IsFilled jvm leak st a st'
      → IsExplored jvm consider leak first st
      → IsExplored jvm consider leak first st'
  IsExplored-fill st st' a f explored =
      IsExplored-mono jvm consider leak first st st'
        (λ b new.
          (sym (f.kept.same_visited b) ∙ new, ap (λ s. Bitmask.contains s leak) (f.same_leaks b)))
        (λ b. Stuck-Keeps jvm consider leak first st st' b (fill-Keeps st st' a f)) explored

  -- A call for a node that is new and leads to the leak.
  record AtCall (st : Store) (a : ℕ) : Type 0 where
    same_first : Same jvm leak first st
    valid : AreValid st
    explored : IsExplored jvm consider leak first st
    new : (node_at st a).visited ≡ false
    had : has_leak leak st a ≡ true

  within : (st : Store) (a : ℕ) → AtCall st a → a < length st
  within st a at = lt_of_has_leak leak st a at.had

  live_marked :
      (st : Store) (a : ℕ) → AtCall st a → live jvm (set_visited true st a) a ≡ live jvm first a
  live_marked st a at =
      (set_visited-Same jvm leak true st a (within st a at)).same_live a ∙ at.same_first.same_live a

  filled-AtNode :
      (st st' : Store) (a : ℕ)
      → AtCall st a
      → IsFilled jvm leak (set_visited true st a) a st'
      → live jvm first a ≡ true
      → AtNode jvm consider leak first st' a
  filled-AtNode st st' a at f alive =
      let h = within st a at in
      let mark = set_visited-Same jvm leak true st a h in
      record {
        same_first =
            Same-trans jvm leak first st st' at.same_first
              (Same-trans jvm leak st _ st' mark f.same);
        valid = f.valid;
        within = rw (f.same.same_length ∙ mark.same_length) h;
        marked =
            f.kept.same_visited a ∙ ground (arith, ==_refl a, visited-set_visited true st a a h);
        explored =
            IsExplored-fill _ st' a f (IsExplored-mark jvm consider leak first st a h at.explored);
        leads = at.same_first.fewer a at.had;
        alive = alive;
      }

  -- The object is gone.
  dead_lem :
      (st st' : Store) (a : ℕ)
      → AtCall st a
      → IsFilled jvm leak (set_visited true st a) a st'
      → live jvm first a ≡ false
      → Result jvm consider leak first st a [] (set_visited false st' a)
  dead_lem st st' a at f dead =
      let h = within st a at in
      let h' : a < length st' =
        rw (f.same.same_length ∙ (set_visited-Same jvm leak true st a h).same_length) h in
      (
        Keeps-visit jvm consider leak first st st' a h at.new (fill-Keeps _ st' a f),
        (
          IsExplored-clear jvm consider leak first st' a h' (inr (inl dead))
              (λ alive. absurd (ground arith))
              (IsExplored-fill _ st' a f
                (IsExplored-mark jvm consider leak first st a h at.explored)),
          inl (inr (inl dead)),
        ),
      )

  finish-Ends :
      (P Q : List MemoryReferer → Store → Type 0) (a : ℕ) (out : Search)
      → ((refs : List MemoryReferer) (st : Store) → P refs st → Q refs (set_visited false st a))
      → Ends P out
      → Ends Q (finish a out)
  unfolding finish
  finish-Ends P Q a (ends refs st) f (done p) = done (f refs st p)
  finish-Ends P Q a exhausted f gives_up = gives_up
  finish-Ends P Q a fatal f dies = dies

  loop_closed :
      (st st' : Store) (a : ℕ) (refs : List MemoryReferer) (last : Store)
      → AtCall st a
      → IsFilled jvm leak (set_visited true st a) a st'
      → LoopResult jvm consider leak first st' a (node_at first a).referers refs last
      → Result jvm consider leak first st a refs (set_visited false last a)
  loop_closed st st' a refs last at f (keeps, outcome) =
      close jvm consider leak first st last a refs (within st a at) at.new at.same_first
        (Keeps-trans jvm consider leak first _ st' last (fill-Keeps _ st' a f) keeps, outcome)

  -- The part of a call after the two early returns.
  visit_lem :
      (inner : ℕ → Store → Search) (st : Store) (a : ℕ)
      → Inner jvm consider leak first inner
      → AtCall st a
      → Ends (Result jvm consider leak first st a) (
          finish a (
            search_filled jvm consider leak inner a
              (fill_class_in_memory_node jvm (set_visited true st a) a)))
  unfolding finish search_filled
  visit_lem inner st a call at =
      let h = within st a at in
      let mark = set_visited-Same jvm leak true st a h in
      elim (Option-cases (fill_class_in_memory_node jvm (set_visited true st a) a)) [
        | inl bad ↦ rw bad dies
        | inr (st', e) ↦
            let f =
              fill-IsFilled jvm leak (set_visited true st a) a
                (AreValid-set_visited true st a at.valid h) (rw mark.same_length h) e in
            let dead_iff : (node_at st' a).dead ≡ not (live jvm first a) =
              f.dead_lem ∙ ap not (live_marked st a at) in
            elim (Bool-cases (live jvm first a)) [
              | inr dead ↦
                  let gone : (node_at st' a).dead ≡ true = ground arith in
                  rw (e, gone) (done (dead_lem st st' a at f dead))
              | inl alive ↦
                  let there : (node_at st' a).dead ≡ false = ground arith in
                  let at' = filled-AtNode st st' a at f alive in
                  rw (e, there, at'.same_first.same_referers a)
                    (finish-Ends _ _ a _ (λ refs last. loop_closed st st' a refs last at f)
                      (loop_lem jvm consider leak first inner a (node_at first a).referers st' call
                        at' (λ r m. m)))
            ]
      ]

  pub generate_lem :
      (fuel : ℕ)
      → Inner jvm consider leak first (generate_references_chain_for_node jvm consider leak fuel)
  unfolding generate_references_chain_for_node
  generate_lem zero a st s v explored = gives_up
  generate_lem (suc fuel) a st s v explored = elim (Bool-cases (node_at st a).visited) [
    | inl marked ↦
        rw marked (done (Keeps-refl jvm consider leak first st v, (explored, inr marked)))
    | inr new ↦ elim (Bool-cases (has_leak leak st a)) [
      | inr gone ↦
          rw (new, gone)
            (done (Keeps-refl jvm consider leak first st v, (explored, inl (inl gone))))
      | inl had ↦
          rw (new, had)
            (visit_lem (generate_references_chain_for_node jvm consider leak fuel) st a
              (generate_lem fuel)
              (record { same_first = s; valid = v; explored = explored; new = new; had = had }))
    ]
  ]
