-- ===== src/Detect/Release/Tests.antt =====
-- A leaked object (0) and an object (1) that refer to each other, and a class (2) that holds the second.
use jleaker.Common.{
  ℕ, zero, suc, ◌+◌, ◌≤◌, ◌<◌, ◌≡◌, refl, Bool, true, false, none, some, List, [], ◌∷◌, arith,
}
use jleaker.Common.Int.{pos, ◌+ℤ◌, ◌-ℤ◌}
use jleaker.Reference.Kind.{Kind}
use jleaker.Node.Defs.{MemoryReferer, MemoryNode, Store, node_at, fresh_node}
use jleaker.Node.Counts.{hit, refs_to, edges_to, IsCounted}
use jleaker.Node.Update.{unvisited}
use jleaker.Node.Free.{Memory, free_memory_node}
use jleaker.Node.Free.Loop.{Called, IsHeld-same}
use jleaker.Node.Free.Total.{free_memory_node-Called}
use jleaker.Node.Free.Owners.{Leads, owned, referred, owners_of, fresh_memory, fresh-IsHeld}
use jleaker.Detect.Search.{LeakingNode}
use jleaker.Detect.Release.{Released, misread, released, owners, release_nodes, release_nodes_lem}

abbrev from : ℕ → List MemoryReferer
from a = record { kind = Kind.field; info = none; node = some a } ∷ []

abbrev counted_node : ℕ → List MemoryReferer → MemoryNode
counted_node n refs = record (fresh_node 0) {
  reference_pointing_to_me = pos n;
  referers = refs;
  visited = false;
}

abbrev nodes : Store
nodes =
    counted_node 2 (from 1)
    ∷ counted_node 1 (record { kind = Kind.field; info = none; node = some 0 } ∷ from 2)
    ∷ counted_node 2 []
    ∷ []

abbrev leaks : List LeakingNode
leaks = record { node = 0; leak_size = pos 9; print_fn = some 0; leak_number = 0 } ∷ []

abbrev freed_of : Released → Bool × ℕ
freed_of (released m) = (true, m.nodes_freed)
freed_of _ = (false, 0)

runs : freed_of (release_nodes 4 leaks (2 ∷ []) (fresh_memory nodes)) ≡ (true, 3)
unfolding release_nodes fresh_node ◌+ℤ◌ ◌-ℤ◌
runs = refl

-- A class (1) that another class (0) holds is not freed at its turn.
misreads :
    release_nodes 3 []
      (1 ∷ 0 ∷ [])
      (fresh_memory (counted_node 1 (from 1) ∷ counted_node 2 [] ∷ []))
    ≡ misread
unfolding release_nodes fresh_node ◌+ℤ◌ ◌-ℤ◌
misreads = refl

counts : IsCounted (owners leaks (2 ∷ [])) nodes none
unfolding owners_of hit edges_to
counts = record { counted = here; closed = past }
  where
    here :
        (a : ℕ)
        → a < 3
        → (node_at nodes a).reference_pointing_to_me
          ≡ pos (owners leaks (2 ∷ []) a + edges_to a nodes + hit none a)
    here zero lt = refl
    here (suc zero) lt = refl
    here (suc (suc zero)) lt = refl
    here (suc (suc (suc a))) lt = absurd (omega arith)

    past : (a : ℕ) → 3 ≤ a → edges_to a nodes + hit none a ≡ 0
    past a le = ground arith

clear : (a : ℕ) → (node_at nodes a).visited ≡ false
unfolding fresh_node
clear zero = refl
clear (suc zero) = refl
clear (suc (suc zero)) = refl
clear (suc (suc (suc a))) = refl

in_store : (a : ℕ) → 3 ≤ a → owners leaks (2 ∷ []) a ≡ 0
unfolding owners_of hit
in_store a le = ground arith

led : (a : ℕ) → a < 3 → Leads (owners leaks (2 ∷ [])) nodes a
unfolding owners_of hit refs_to
led zero lt = owned 0 (omega arith)
led (suc zero) lt = referred 0 1 (owned 0 (omega arith)) (omega arith)
led (suc (suc zero)) lt = owned 2 (omega arith)
led (suc (suc (suc a))) lt = absurd (omega arith)

once : (a : ℕ) → owners_of (2 ∷ []) a ≤ 1
unfolding owners_of hit
once a = ground arith

no_refs : (a : ℕ) → 0 < owners_of (2 ∷ []) a → (node_at nodes a).referers ≡ []
unfolding owners_of hit
no_refs zero lt = absurd (omega arith)
no_refs (suc zero) lt = absurd (omega arith)
no_refs (suc (suc zero)) lt = refl
no_refs (suc (suc (suc a))) lt = absurd (ground arith)

release_nodes_lem_example :
    (last : Memory) × (release_nodes 4 leaks (2 ∷ []) (fresh_memory nodes) ≡ released last)
    × ((a : ℕ) → a < 3 → last.freed a ≡ true)
    × (last.nodes_freed ≡ 3)
release_nodes_lem_example =
    release_nodes_lem nodes leaks (2 ∷ []) 4 counts clear in_store led once no_refs (omega arith)

free_memory_node-Called_example :
    Called
      (λ b. owners_of (2 ∷ []) b)
      (fresh_memory nodes)
      (some 0)
      (free_memory_node 4 (some 0) (fresh_memory nodes))
unfolding owners_of unvisited
free_memory_node-Called_example =
    free_memory_node-Called 4 (λ b. owners_of (2 ∷ []) b) (fresh_memory nodes) (some 0)
      (IsHeld-same (owners leaks (2 ∷ [])) (λ b. owners_of (2 ∷ []) b + hit (some 0) b)
        (fresh_memory nodes) (λ b. omega arith)
        (fresh-IsHeld (owners leaks (2 ∷ [])) nodes counts clear in_store led))
      (omega arith)
