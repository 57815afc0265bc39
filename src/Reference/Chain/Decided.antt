-- ===== src/Reference/Chain/Decided.antt =====
-- The search decides whether there is a chain of references to a root.
use jleaker.Common.{ℕ, ◌<◌, ◌≤◌, ◌≡◌, ◌∙◌, Bool, false, List, [], ◌∷◌, length, inl, inr, arith}
use jleaker.Node.Defs.{MemoryReferer, Store, node_at}
use jleaker.Reference.Chain.Defs.{
  Jvm, Search, exhausted, fatal, ends, generate_references_chain_for_node,
}
use jleaker.Node.Update.{unvisited-le}
use jleaker.Reference.Chain.Frame.{Same-refl, Kept}
use jleaker.Reference.Chain.Explored.{IsChain, Blocked, explored_lem}
use jleaker.Reference.Chain.Result.{Ends, done, Result}
use jleaker.Reference.Chain.Found.{generate_lem}
use jleaker.Reference.Chain.Total.{Returns, IsReady, generate-Returns}

module _ (jvm : Jvm) (consider : Bool) (leak : ℕ) where
  -- The answer of a search from the node: a chain of the store that it began with, or NULL where
  -- there is none; the visited flags are as they were.
  pub data IsDecided (st : Store) (node : ℕ) : Search → Type 0 where
    found :
        {r : MemoryReferer} {rs : List MemoryReferer} {last : Store}
        → IsChain jvm consider leak st node (r ∷ rs)
        → Kept st last
        → IsDecided st node (ends (r ∷ rs) last)
    no_chain :
        {last : Store}
        → ((rs : List MemoryReferer) → ¬ IsChain jvm consider leak st node rs)
        → Kept st last
        → IsDecided st node (ends [] last)

  decide :
      (st : Store) (node : ℕ) (out : Search)
      → ((a : ℕ) → (node_at st a).visited ≡ false)
      → Returns out
      → Ends (Result jvm consider leak st st node) out
      → IsDecided st node out
  decide st node exhausted clear u e = absurd u
  decide st node fatal clear u e = absurd u
  decide st node (ends (r ∷ rs) last) clear u (done (k, chain)) = found chain k.kept
  decide st node (ends [] last) clear u (done (k, (explored, stuck))) =
      let clear' : (a : ℕ) → (node_at last a).visited ≡ false =
        λ a. k.kept.same_visited a ∙ clear a in
      let blocked : Blocked jvm consider leak st last node = elim stuck [
        | inl b ↦ b
        | inr marked ↦ absurd (ground (arith, clear' node))
      ] in
      no_chain (λ rs. explored_lem jvm consider leak st last explored clear' blocked) k.kept

  -- With fuel for one call more than there are nodes, a search for a leak from a node returns, if no
  -- node is marked, the sets of leaks are well formed, references that are no roots have a node, and
  -- JVMTI knows at most one object for a tag. It answers a chain of considered references from the
  -- node to a root, through nodes that lead to the leak and whose objects are alive, if there is one,
  -- and NULL if there is none; it leaves all visited flags as they were.
  pub generate-IsDecided :
      (st : Store) (node fuel : ℕ)
      → ((a : ℕ) → length (jvm.objects_with_tag a) ≤ 1)
      → IsReady jvm consider leak st
      → ((a : ℕ) → (node_at st a).visited ≡ false)
      → length st < fuel
      → IsDecided st node (generate_references_chain_for_node jvm consider leak fuel node st)
  generate-IsDecided st node fuel single ready clear enough =
      decide st node _ clear
        (generate-Returns jvm consider leak fuel node st single ready
          (omega (arith, unvisited-le st)))
        (generate_lem jvm consider leak st fuel node st (Same-refl jvm leak st) ready.valid
          (λ b new had gone. absurd (ground arith)))
