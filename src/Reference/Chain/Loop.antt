-- ===== src/Reference/Chain/Loop.antt =====
-- The loop over the referers of a node that is marked and filled.
use jleaker.Common.{
  ℕ, ◌<◌, ◌≡◌, refl, ◌∙◌, Bool, true, false, some, List, [], ◌∷◌, length, inl, inr, Bool-cases,
  Option-cases, arith,
}
use jleaker.Reference.Kind.{is_root_reference, should_consider_this_reference}
use jleaker.Node.Defs.{MemoryReferer, Store, node_at}
use jleaker.Reference.Chain.Defs.{Jvm, Search, exhausted, fatal, ends, remove_leak, refs_loop}
use jleaker.Reference.Chain.Frame.{Same-trans}
use jleaker.Reference.Chain.Steps.{
  remove_leak-Same, AreValid-remove_leak, remove_leak-Kept, has_leak-remove_leak,
}
use jleaker.Reference.Chain.Explored.{
  Among, Considered, root, step, Stuck, IsExplored, Blocked-fewer,
}
use jleaker.Reference.Chain.Result.{
  Ends, done, gives_up, dies, Keeps, Keeps-refl, Keeps-trans, Result, LoopOutcome, AtNode, Inner,
  Stuck-remove_leak, IsExplored-remove_leak,
}

pub Ends-map :
    (P Q : List MemoryReferer → Store → Type 0) (out : Search)
    → ((refs : List MemoryReferer) (st : Store) → P refs st → Q refs st)
    → Ends P out
    → Ends Q out
Ends-map P Q (ends refs st) f (done p) = done (f refs st p)
Ends-map P Q exhausted f gives_up = gives_up
Ends-map P Q fatal f dies = dies

module _ (jvm : Jvm) (consider : Bool) (leak : ℕ) (first : Store) where
  pub Stuck-Keeps :
      (st st' : Store) (b : ℕ)
      → Keeps jvm consider leak first st st'
      → Stuck jvm consider leak first st b
      → Stuck jvm consider leak first st' b
  Stuck-Keeps st st' b k (inl blocked) =
      inl (Blocked-fewer jvm consider leak first st st' b (k.same.fewer b) blocked)
  Stuck-Keeps st st' b k (inr marked) = inr (k.kept.same_visited b ∙ marked)

  -- What the loop returns, where `left` are the references from the current one on.
  abbrev pub LoopResult : Store → ℕ → List MemoryReferer → List MemoryReferer → Store → Type 0
  LoopResult st a left refs st' =
      Keeps jvm consider leak first st st' × LoopOutcome jvm consider leak first a left refs st'

  skip :
      (st : Store) (a : ℕ) (r : MemoryReferer) (rs refs : List MemoryReferer) (st' : Store)
      → should_consider_this_reference consider r.kind ≡ false
      → LoopResult st a rs refs st'
      → LoopResult st a (r ∷ rs) refs st'
  skip st a r rs [] st' e (keeps, (explored, all, inl skipped)) =
      (keeps, (explored, (λ c. absurd (ground arith), all), inl (e, skipped)))
  skip st a r rs [] st' e (keeps, (explored, all, inr gone)) =
      (keeps, (explored, (λ c. absurd (ground arith), all), inr gone))
  skip st a r rs (s ∷ ss) st' e (keeps, chain) = (keeps, chain)

  -- The node after a call found nothing and the leak was removed.
  AtNode-next :
      (st st' : Store) (a : ℕ)
      → AtNode jvm consider leak first st a
      → Keeps jvm consider leak first st st'
      → IsExplored jvm consider leak first st'
      → Keeps jvm consider leak first st (remove_leak leak st' a)
        × AtNode jvm consider leak first (remove_leak leak st' a) a
  AtNode-next st st' a at k explored =
      let within : a < length st' = rw k.same.same_length at.within in
      let marked = k.kept.same_visited a ∙ at.marked in
      let removed : Keeps jvm consider leak first st' (remove_leak leak st' a) = record {
        same = remove_leak-Same jvm leak st' a k.valid within;
        kept = remove_leak-Kept leak st' a within;
        valid = AreValid-remove_leak leak st' a k.valid within;
      } in
      let all = Keeps-trans jvm consider leak first st st' _ k removed in
      (
        all,
        record {
          same_first = Same-trans jvm leak first st _ at.same_first all.same;
          valid = all.valid;
          within = rw all.same.same_length at.within;
          marked = all.kept.same_visited a ∙ at.marked;
          explored =
              IsExplored-remove_leak jvm consider leak first st' a k.valid within marked explored;
          leads = at.leads;
          alive = at.alive;
        },
      )

  -- The rest of the loop, after a call for the node `b` found nothing.
  resume :
      (st st' : Store) (a b : ℕ) (r : MemoryReferer) (rs refs : List MemoryReferer) (last : Store)
      → AtNode jvm consider leak first st a
      → Keeps jvm consider leak first st st'
      → Stuck jvm consider leak first st' b
      → is_root_reference r.kind ≡ false
      → r.node ≡ some b
      → LoopResult (remove_leak leak st' a) a rs refs last
      → Keeps jvm consider leak first st (remove_leak leak st' a)
      → LoopResult st a (r ∷ rs) refs last
  resume st st' a b r rs [] last at k stuck inner e (keeps, (explored, all, exit)) k2 =
      let within : a < length st' = rw k.same.same_length at.within in
      let gone = has_leak-remove_leak leak st' a k.valid within in
      let stuck' =
        Stuck-Keeps _ last b keeps
          (Stuck-remove_leak jvm consider leak first st' a b k.valid within stuck) in
      (
        Keeps-trans jvm consider leak first st _ last k2 keeps,
        (explored, (λ c. (inner, (b, e, stuck')), all), inr (ground (arith, keeps.same.fewer a))),
      )
  resume st st' a b r rs (s ∷ ss) last at k stuck inner e (keeps, chain) k2 =
      (Keeps-trans jvm consider leak first st _ last k2 keeps, chain)

  -- What the loop does with the answer of the recursive call.
  abbrev pub after : (ℕ → Store → Search) → ℕ → MemoryReferer → List MemoryReferer → Search → Search
  after inner a r rs exhausted = exhausted
  after inner a r rs fatal = fatal
  after inner a r rs (ends [] st') = refs_loop jvm consider leak inner a rs (remove_leak leak st' a)
  after inner a r rs (ends (s ∷ ss) st') = ends (r ∷ s ∷ ss) st'

  pub call_after :
      (inner : ℕ → Store → Search) (a b : ℕ) (r : MemoryReferer) (rs : List MemoryReferer)
      (st : Store)
      → should_consider_this_reference consider r.kind ≡ true
      → is_root_reference r.kind ≡ false
      → r.node ≡ some b
      → refs_loop jvm consider leak inner a (r ∷ rs) st ≡ after inner a r rs (inner b st)
  unfolding refs_loop
  call_after inner a b r rs st c e n = cc

  after_call :
      (inner : ℕ → Store → Search) (a b : ℕ) (r : MemoryReferer) (rs : List MemoryReferer)
      (st : Store)
      → AtNode jvm consider leak first st a
      → Considered jvm consider leak first a r
      → is_root_reference r.kind ≡ false
      → r.node ≡ some b
      → ((s : Store)
          → AtNode jvm consider leak first s a
          → Ends (LoopResult s a rs) (refs_loop jvm consider leak inner a rs s))
      → (out : Search) → Ends (Result jvm consider leak first st b) out
      → Ends (LoopResult st a (r ∷ rs)) (after inner a r rs out)
  after_call inner a b r rs st at c e n later exhausted gives_up = gives_up
  after_call inner a b r rs st at c e n later fatal dies = dies
  after_call inner a b r rs st at c e n later (ends [] st') (done (k, (explored, stuck))) =
      let (k2, at2) = AtNode-next st st' a at k explored in
      Ends-map (LoopResult (remove_leak leak st' a) a rs) (LoopResult st a (r ∷ rs)) _
        (λ refs last res. resume st st' a b r rs refs last at k stuck e n res k2) (later _ at2)
  after_call inner a b r rs st at c e n later (ends (s ∷ ss) st') (done (k, chain)) =
      done (k, step (at.leads, at.alive) c e n chain)

  pub loop_lem :
      (inner : ℕ → Store → Search) (a : ℕ) (left : List MemoryReferer) (st : Store)
      → Inner jvm consider leak first inner
      → AtNode jvm consider leak first st a
      → ((r : MemoryReferer) → Among r left → Among r (node_at first a).referers)
      → Ends (LoopResult st a left) (refs_loop jvm consider leak inner a left st)
  unfolding refs_loop
  loop_lem inner a [] st call at among =
      done (Keeps-refl jvm consider leak first st at.valid, (at.explored, tt, inl tt))
  loop_lem inner a (r ∷ rs) st call at among =
      let later : (s : Store)
          → AtNode jvm consider leak first s a
          → Ends (LoopResult s a rs) (refs_loop jvm consider leak inner a rs s) =
        λ s at'. loop_lem inner a rs s call at' (λ t m. among t (inr m)) in
      elim (Bool-cases (should_consider_this_reference consider r.kind)) [
        | inl c ↦ elim (Bool-cases (is_root_reference r.kind)) [
          | inl e ↦
              let chain = root (at.leads, at.alive) (among r (inl refl), c) e in
              rw (c, e, refs_loop) (done (Keeps-refl jvm consider leak first st at.valid, chain))
          | inr e ↦ elim (Option-cases r.node) [
            | inl null ↦ rw (c, e, null, refs_loop) dies
            | inr (b, n) ↦ rw (call_after inner a b r rs st c e n) (
                after_call inner a b r rs st at (among r (inl refl), c) e n later (inner b st)
                  (call b st at.same_first at.valid at.explored))
          ]
        ]
        | inr c ↦
            rw (c, refs_loop)
              (Ends-map (LoopResult st a rs) (LoopResult st a (r ∷ rs)) _
                (λ refs st'. skip st a r rs refs st' c) (later st at))
      ]
