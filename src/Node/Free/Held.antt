-- ===== src/Node/Free/Held.antt =====
-- The references to each node, and what writes of one node do to them.
use jleaker.Common.{
  ap, ℕ, zero, suc, ◌+◌, ◌≤◌, ◌<◌, ◌≡◌, refl, Bool, true, false, if◌then◌else◌, List, [], ◌∷◌,
  length, set, arith,
}
use jleaker.Common.Int.{pos}
use jleaker.Node.Defs.{MemoryReferer, MemoryNode, Store, node_at}
use jleaker.Node.Counts.{refs_to, edges_to}
use jleaker.Node.Free.Defs.{Memory}

-- The references of a node; those of a node that is being freed are accounted for by the call.
unfoldable pub given_by : ℕ → MemoryNode → ℕ
given_by a n = if n.visited then 0 else refs_to a n.referers

pub live_edges : ℕ → Store → ℕ
live_edges a [] = 0
live_edges a (n ∷ st) = given_by a n + live_edges a st

pub live_edges-set :
    (a : ℕ) (st : Store) (i : ℕ) (n : MemoryNode)
    → i < length st
    → live_edges a (set st i n) + given_by a (node_at st i) ≡ live_edges a st + given_by a n
unfolding live_edges
live_edges-set a [] i n h = absurd (omega arith)
live_edges-set a (m ∷ st) zero n h = omega arith
live_edges-set a (m ∷ st) (suc i) n h = omega (arith, live_edges-set a st i n (omega arith))

-- Before anything is freed these are all.
pub live_edges-eq-edges_to :
    (a : ℕ) (st : Store)
    → ((b : ℕ) → (node_at st b).visited ≡ false)
    → live_edges a st ≡ edges_to a st
unfolding live_edges edges_to given_by
live_edges-eq-edges_to a [] h = refl
live_edges-eq-edges_to a (n ∷ st) h =
    ground (arith, h 0, live_edges-eq-edges_to a st (λ b. h (suc b)))

-- Where all lists are empty there is no reference.
pub live_edges_empty :
    (a : ℕ) (st : Store) → ((b : ℕ) → (node_at st b).referers ≡ []) → live_edges a st ≡ 0
unfolding live_edges given_by refs_to
live_edges_empty a [] h = refl
live_edges_empty a (n ∷ st) h =
    ground (arith, ap (refs_to a) (h 0), live_edges_empty a st (λ b. h (suc b)))

abbrev pub visited_at : Memory → ℕ → Bool
visited_at m a = (node_at m.nodes a).visited

abbrev pub refs_at : Memory → ℕ → List MemoryReferer
refs_at m a = (node_at m.nodes a).referers

-- How many of the first `n` addresses are freed.
unfoldable pub freed_total : ℕ → (ℕ → Bool) → ℕ
freed_total zero f = 0
freed_total (suc n) f = (if f n then 1 else 0) + freed_total n f

-- `held a` references to the node at `a` are not in the lists of the store: those of its owners,
-- and those that calls under way are about to drop.
pub record IsHeld (held : ℕ → ℕ) (m : Memory) : Type 0 where
  pub counted :
      (a : ℕ)
      → a < length m.nodes
      → m.freed a ≡ false
      → (node_at m.nodes a).reference_pointing_to_me ≡ pos (held a + live_edges a m.nodes)
  -- No reference to a freed node is left.
  pub dropped : (a : ℕ) → m.freed a ≡ true → held a + live_edges a m.nodes ≡ 0
  pub closed : (a : ℕ) → length m.nodes ≤ a → held a + live_edges a m.nodes ≡ 0
  pub marked : (a : ℕ) → m.freed a ≡ true → visited_at m a ≡ true
  -- A node to which no reference is left does not stay.
  pub positive :
      (a : ℕ) → a < length m.nodes → visited_at m a ≡ false → 0 < held a + live_edges a m.nodes
  pub total : m.nodes_freed ≡ freed_total (length m.nodes) m.freed
