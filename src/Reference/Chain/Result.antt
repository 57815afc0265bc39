-- ===== src/Reference/Chain/Result.antt =====
-- What a call of generateReferencesChainForNode returns: a chain, or what it has explored.
use jleaker.Common.{
  ℕ, ◌<◌, ◌≡◌, ◌∙◌, sym, subst, Bool, true, false, ◌==◌, ==_iff, List, [], ◌∷◌, length, ◌⊎◌, inl,
  inr, Bool-cases, arith,
}
use jleaker.Node.Defs.{MemoryReferer, Store, node_at}
use jleaker.Reference.Chain.Defs.{Jvm, Search, exhausted, fatal, ends, remove_leak}
use jleaker.Reference.Chain.Fill.{live}
use jleaker.Reference.Chain.Frame.{
  has_leak, Same, Same-refl, Same-trans, Kept, Kept-refl, Kept-trans, AreValid,
}
use jleaker.Reference.Chain.Steps.{remove_leak-Same, remove_leak-Kept, has_leak-remove_leak_other}
use jleaker.Reference.Chain.Explored.{
  IsChain, AreSkipped, AllFrom, Stuck, IsExplored, Blocked-fewer, IsExplored-mono,
}

-- The chain and the store of a search that ends.
pub data Ends (P : List MemoryReferer → Store → Type 0) : Search → Type 0 where
  done : {refs : List MemoryReferer} {st : Store} → P refs st → Ends P (ends refs st)
  gives_up : Ends P exhausted
  dies : Ends P fatal

module _ (jvm : Jvm) (consider : Bool) (leak : ℕ) (first : Store) where
  -- The parts of a store that a search keeps, from `st` to `st'`.
  pub record Keeps (st st' : Store) : Type 0 where
    pub same : Same jvm leak st st'
    pub kept : Kept st st'
    pub valid : AreValid st'

  pub Keeps-refl : (st : Store) → AreValid st → Keeps st st
  Keeps-refl st v = record { same = Same-refl jvm leak st; kept = Kept-refl st; valid = v }

  pub Keeps-trans : (st st' st'' : Store) → Keeps st st' → Keeps st' st'' → Keeps st st''
  Keeps-trans st st' st'' p q = record {
    same = Same-trans jvm leak st st' st'' p.same q.same;
    kept = Kept-trans st st' st'' p.kept q.kept;
    valid = q.valid;
  }

  -- What a call finds at a node.
  abbrev pub Outcome : ℕ → List MemoryReferer → Store → Type 0
  Outcome a [] st' = IsExplored jvm consider leak first st' × Stuck jvm consider leak first st' a
  Outcome a (r ∷ rs) st' = IsChain jvm consider leak first a (r ∷ rs)

  abbrev pub Result : Store → ℕ → List MemoryReferer → Store → Type 0
  Result st a refs st' = Keeps st st' × Outcome a refs st'

  -- What the loop finds among the references of a node that are left.
  abbrev pub LoopOutcome : ℕ → List MemoryReferer → List MemoryReferer → Store → Type 0
  LoopOutcome a left [] st' =
      IsExplored jvm consider leak first st'
      × AllFrom jvm consider leak (Stuck jvm consider leak first st') left
      × (AreSkipped jvm consider leak left ⊎ (has_leak leak st' a ≡ false))
  LoopOutcome a left (r ∷ rs) st' = IsChain jvm consider leak first a (r ∷ rs)

  -- The state of the search at a node that is marked.
  pub record AtNode (st : Store) (a : ℕ) : Type 0 where
    pub same_first : Same jvm leak first st
    pub valid : AreValid st
    pub within : a < length st
    pub marked : (node_at st a).visited ≡ true
    pub explored : IsExplored jvm consider leak first st
    pub leads : has_leak leak first a ≡ true
    pub alive : live jvm first a ≡ true

  abbrev pub Inner : (ℕ → Store → Search) → Type 0
  Inner inner =
      (b : ℕ) (st : Store)
      → Same jvm leak first st
      → AreValid st
      → IsExplored jvm consider leak first st
      → Ends (Result st b) (inner b st)

  pub Stuck-remove_leak :
      (st : Store) (a b : ℕ)
      → AreValid st
      → a < length st
      → Stuck jvm consider leak first st b
      → Stuck jvm consider leak first (remove_leak leak st a) b
  Stuck-remove_leak st a b v h (inl blocked) = inl (
      Blocked-fewer jvm consider leak first st _ b ((remove_leak-Same jvm leak st a v h).fewer b)
        blocked)
  Stuck-remove_leak st a b v h (inr marked) =
      inr ((remove_leak-Kept leak st a h).same_visited b ∙ marked)

  -- Giving up the leak at a marked node.
  pub IsExplored-remove_leak :
      (st : Store) (a : ℕ)
      → AreValid st
      → a < length st
      → (node_at st a).visited ≡ true
      → IsExplored jvm consider leak first st
      → IsExplored jvm consider leak first (remove_leak leak st a)
  IsExplored-remove_leak st a v h marked explored =
      IsExplored-mono jvm consider leak first st _
        (λ b new. (
          sym ((remove_leak-Kept leak st a h).same_visited b) ∙ new,
          has_leak-remove_leak_other leak st a b h (other b new),
        ))
        (λ b. Stuck-remove_leak st a b v h) explored
    where
      other : (b : ℕ) → (node_at (remove_leak leak st a) b).visited ≡ false → (a == b) ≡ false
      other b new = elim (Bool-cases (a == b)) [
        | inr apart ↦ apart
        | inl e ↦
            let again : (node_at st b).visited ≡ true =
              subst (λ c. (node_at st c).visited ≡ true) ((==_iff a b).0 e) marked in
            ground (arith, (remove_leak-Kept leak st a h).same_visited b)
      ]
