-- ===== src/Reference/Chain/Explored.antt =====
-- Chains of references to a root, and what a search knows of the nodes that it has given up.
use jleaker.Common.{
  ℕ, ◌≡◌, ◌∙◌, sym, ap, subst, Bool, true, false, some, List, [], ◌∷◌, ◌⊎◌, inl, inr, arith,
}
use jleaker.Reference.Kind.{is_root_reference, should_consider_this_reference}
use jleaker.Node.Defs.{MemoryReferer, Store, node_at}
use jleaker.Reference.Chain.Defs.{Jvm}
use jleaker.Reference.Chain.Fill.{live}
use jleaker.Reference.Chain.Frame.{has_leak}

abbrev pub Among : MemoryReferer → List MemoryReferer → Type 0
Among r [] = ⊥
Among r (s ∷ ss) = (r ≡ s) ⊎ Among r ss

module _ (jvm : Jvm) (consider : Bool) (leak : ℕ) where
  -- The nodes that a chain passes: they lead to the leak and their objects are alive.
  abbrev pub Passes : Store → ℕ → Type 0
  Passes st a = (has_leak leak st a ≡ true) × (live jvm st a ≡ true)

  abbrev pub Considered : Store → ℕ → MemoryReferer → Type 0
  Considered st a r =
      Among r (node_at st a).referers × (should_consider_this_reference consider r.kind ≡ true)

  -- A chain of considered references that starts at the node and ends in a root.
  pub data IsChain (st : Store) : ℕ → List MemoryReferer → Type 0 where
    root :
        {a : ℕ} {r : MemoryReferer}
        → Passes st a
        → Considered st a r
        → is_root_reference r.kind ≡ true
        → IsChain st a (r ∷ [])
    step :
        {a b : ℕ} {r : MemoryReferer} {rs : List MemoryReferer}
        → Passes st a
        → Considered st a r
        → is_root_reference r.kind ≡ false
        → r.node ≡ some b
        → IsChain st b rs
        → IsChain st a (r ∷ rs)

  -- No reference of the list is considered.
  abbrev pub AreSkipped : List MemoryReferer → Type 0
  AreSkipped [] = Unit {0}
  AreSkipped (r ∷ rs) = (should_consider_this_reference consider r.kind ≡ false) × AreSkipped rs

  -- Each considered reference of the list comes from a node with the property, and is no root.
  abbrev pub AllFrom : (ℕ → Type 0) → List MemoryReferer → Type 0
  AllFrom Q [] = Unit {0}
  AllFrom Q (r ∷ rs) =
      (should_consider_this_reference consider r.kind ≡ true
        → (is_root_reference r.kind ≡ false) × ((b : ℕ) × (r.node ≡ some b) × Q b))
      × AllFrom Q rs

  pub AllFrom-mono :
      (Q R : ℕ → Type 0) (rs : List MemoryReferer)
      → ((b : ℕ) → Q b → R b)
      → AllFrom Q rs
      → AllFrom R rs
  AllFrom-mono Q R [] f all = tt
  AllFrom-mono Q R (r ∷ rs) f (here, later) =
      (λ c. let (inner, (b, e, q)) = here c in (inner, (b, e, f b q)), AllFrom-mono Q R rs f later)

  pub AllFrom-Among :
      (Q : ℕ → Type 0) (r : MemoryReferer) (rs : List MemoryReferer)
      → AllFrom Q rs
      → Among r rs
      → should_consider_this_reference consider r.kind ≡ true
      → (is_root_reference r.kind ≡ false) × ((b : ℕ) × (r.node ≡ some b) × Q b)
  AllFrom-Among Q r (s ∷ ss) (here, later) (inl e) c =
      subst (λ x. (is_root_reference x.kind ≡ false) × ((b : ℕ) × (x.node ≡ some b) × Q b)) (sym e)
        (here (ap (λ x. should_consider_this_reference consider x.kind) (sym e) ∙ c))
  AllFrom-Among Q r [] all m c = absurd m
  AllFrom-Among Q r (s ∷ ss) (here, later) (inr m) c = AllFrom-Among Q r ss later m c

  pub AreSkipped-AllFrom : (Q : ℕ → Type 0) (rs : List MemoryReferer) → AreSkipped rs → AllFrom Q rs
  AreSkipped-AllFrom Q [] s = tt
  AreSkipped-AllFrom Q (r ∷ rs) (here, later) =
      (λ c. absurd (ground arith), AreSkipped-AllFrom Q rs later)

  module _ (first : Store) where
    -- No chain leaves the node in the store `st` of a search that began with `first`.
    abbrev pub Blocked : Store → ℕ → Type 0
    Blocked st b =
        (has_leak leak st b ≡ false)
        ⊎ ((live jvm first b ≡ false) ⊎ AreSkipped (node_at first b).referers)

    -- The same, or the node is one that the search has not left yet.
    abbrev pub Stuck : Store → ℕ → Type 0
    Stuck st b = Blocked st b ⊎ ((node_at st b).visited ≡ true)

    -- The nodes whose leak was given up lead only to such nodes.
    abbrev pub IsExplored : Store → Type 0
    IsExplored st =
        (a : ℕ)
        → (node_at st a).visited ≡ false
        → has_leak leak first a ≡ true
        → has_leak leak st a ≡ false
        → live jvm first a ≡ true
        → AllFrom (Stuck st) (node_at first a).referers

    pub Blocked-fewer :
        (st st' : Store) (b : ℕ)
        → (has_leak leak st' b ≡ true → has_leak leak st b ≡ true)
        → Blocked st b
        → Blocked st' b
    Blocked-fewer st st' b fewer (inl gone) = inl (ground arith)
    Blocked-fewer st st' b fewer (inr other) = inr other

    pub IsExplored-mono :
        (st st' : Store)
        → ((a : ℕ)
            → (node_at st' a).visited ≡ false
            → ((node_at st a).visited ≡ false) × (has_leak leak st' a ≡ has_leak leak st a))
        → ((b : ℕ) → Stuck st b → Stuck st' b)
        → IsExplored st
        → IsExplored st'
    IsExplored-mono st st' same stuck explored a new had gone alive =
        let (old, leaks) = same a new in
        AllFrom-mono (Stuck st) (Stuck st') (node_at first a).referers stuck
          (explored a old had (sym leaks ∙ gone) alive)

    not_visited :
        (st : Store)
        → ((a : ℕ) → (node_at st a).visited ≡ false)
        → (b : ℕ) → Stuck st b
        → Blocked st b
    not_visited st clear b (inl blocked) = blocked
    not_visited st clear b (inr marked) = absurd (ground (arith, clear b))

    -- The way on from a node of a chain, if it is blocked.
    exits :
        (st : Store)
        → IsExplored st
        → ((a : ℕ) → (node_at st a).visited ≡ false)
        → (r : MemoryReferer) (a : ℕ) → has_leak leak first a ≡ true
        → live jvm first a ≡ true
        → Blocked st a
        → should_consider_this_reference consider r.kind ≡ true
        → Among r (node_at first a).referers
        → (is_root_reference r.kind ≡ false) × ((b : ℕ) × (r.node ≡ some b) × Blocked st b)
    exits st explored clear r a leads alive (inl gone) c among =
        let (inner, (b, e, stuck)) =
          AllFrom-Among (Stuck st) r _ (explored a (clear a) leads gone alive) among c in
        (inner, (b, e, not_visited st clear b stuck))
    exits st explored clear r a leads alive (inr (inl dead)) c among = absurd (ground arith)
    exits st explored clear r a leads alive (inr (inr skipped)) c among =
        AllFrom-Among (Blocked st) r _ (AreSkipped-AllFrom (Blocked st) _ skipped) among c

    -- A node that is blocked, and whose sources are explored, starts no chain.
    pub explored_lem :
        (st : Store)
        → IsExplored st
        → ((a : ℕ) → (node_at st a).visited ≡ false)
        → {a : ℕ} {rs : List MemoryReferer} → Blocked st a
        → ¬ IsChain first a rs
    explored_lem st explored clear {a} blocked (root (leads, alive) (among, c) at_root) =
        let (inner, _) = exits st explored clear _ a leads alive blocked c among in ground arith
    explored_lem st explored clear {a} blocked (step {b} (leads, alive) (among, c) inner e chain) =
        let (_, (b', e', next)) = exits st explored clear _ a leads alive blocked c among in
        let same : b' ≡ b = ground arith in
        explored_lem st explored clear (subst (Blocked st) same next) chain
