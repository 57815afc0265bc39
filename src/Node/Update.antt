-- ===== src/Node/Update.antt =====
-- Reading the store after a write of one node.
use jleaker.Common.{
  ℕ, zero, suc, [], ◌∷◌, ◌+◌, ◌≤◌, ◌<◌, ◌≡◌, ◌∙◌, ap, Bool, true, false, ◌==◌, ==_iff,
  if◌then◌else◌, length, set, get_or-set, subst, Bool-cases, inl, inr, arith,
}
use jleaker.Node.Defs.{MemoryNode, Store, node_at, fresh_node}

pub node_at-set :
    (st : Store) (i a : ℕ) (n : MemoryNode)
    → i < length st
    → node_at (set st i n) a ≡ (if i == a then n else node_at st a)
node_at-set st i a n h = ground (arith, get_or-set st i a n (fresh_node 0))

-- Any part of a node that a write leaves alone is what it was, at every address.
pub part-set {ℓ} :
    {X : Type ℓ} (part : MemoryNode → X) (st : Store) (i a : ℕ) (n : MemoryNode)
    → i < length st
    → part n ≡ part (node_at st i)
    → part (node_at (set st i n) a) ≡ part (node_at st a)
part-set part st i a n h same = elim (Bool-cases (i == a)) [
  | inl e ↦
      ap part (node_at-set st i a n h)
      ∙ ap part (written (i == a) n (node_at st a) e)
      ∙ same
      ∙ ap (λ j. part (node_at st j)) ((==_iff i a).0 e)
  | inr e ↦ ap part (node_at-set st i a n h) ∙ ap part (kept (i == a) n (node_at st a) e)
]
  where
    written : (b : Bool) (m o : MemoryNode) → b ≡ true → (if b then m else o) ≡ m
    written b m o e = rw e

    kept : (b : Bool) (m o : MemoryNode) → b ≡ false → (if b then m else o) ≡ o
    kept b m o e = rw e

pub node_at-set_self :
    (st : Store) (i : ℕ) (n : MemoryNode) → i < length st → node_at (set st i n) i ≡ n
node_at-set_self st i n h = ground (arith, node_at-set st i i n)

pub node_at-set_other :
    (st : Store) (i a : ℕ) (n : MemoryNode)
    → i < length st
    → (i == a) ≡ false
    → node_at (set st i n) a ≡ node_at st a
node_at-set_other st i a n h e = ground (arith, node_at-set st i a n)

-- A part that depends on the address.
pub part_at-set {ℓ} :
    {X : Type ℓ} (part : ℕ → MemoryNode → X) (st : Store) (i a : ℕ) (n : MemoryNode)
    → i < length st
    → part i n ≡ part i (node_at st i)
    → part a (node_at (set st i n) a) ≡ part a (node_at st a)
part_at-set part st i a n h same = elim (Bool-cases (i == a)) [
  | inl e ↦
      let i≡a : i ≡ a = (==_iff i a).0 e in
      subst (λ b. part b (node_at (set st i n) b) ≡ part b (node_at st b)) i≡a
        (ap (part i) (node_at-set_self st i n h) ∙ same)
  | inr e ↦ ap (part a) (node_at-set_other st i a n h e)
]

-- How many nodes are not marked.
unfoldable pub unvisited : Store → ℕ
unvisited [] = 0
unvisited (n ∷ st) = (if n.visited then 0 else 1) + unvisited st

pub unvisited-set :
    (st : Store) (i : ℕ) (n : MemoryNode)
    → i < length st
    → unvisited (set st i n) + (if (node_at st i).visited then 0 else 1)
      ≡ unvisited st + (if n.visited then 0 else 1)
unfolding unvisited
unvisited-set [] i n h = absurd (omega arith)
unvisited-set (m ∷ st) zero n h = omega arith
unvisited-set (m ∷ st) (suc i) n h = omega (arith, unvisited-set st i n (omega arith))

-- Marks that are kept leave no more nodes unmarked.
pub unvisited_mono :
    (st st' : Store)
    → length st' ≡ length st
    → ((b : ℕ) → (node_at st b).visited ≡ true → (node_at st' b).visited ≡ true)
    → unvisited st' ≤ unvisited st
unfolding unvisited
unvisited_mono [] [] e h = omega arith
unvisited_mono [] (n ∷ st') e h = absurd (omega arith)
unvisited_mono (n ∷ st) [] e h = absurd (omega arith)
unvisited_mono (n ∷ st) (n' ∷ st') e h =
    ground (arith, h 0, unvisited_mono st st' (omega arith) (λ b. h (suc b)))

pub unvisited-le : (st : Store) → unvisited st ≤ length st
unfolding unvisited
unvisited-le [] = omega arith
unvisited-le (n ∷ st) = ground (arith, unvisited-le st)
