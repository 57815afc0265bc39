-- ===== src/Reference/Chain/Fill.antt =====
-- fillClassInMemoryNode finds whether a node's object is alive.
use jleaker.Common.{
  ℕ, ◌≡◌, refl, sym, subst, Bool, true, false, not, ◌&&◌, ◌||◌, Option, none, some, List, [], ◌∷◌,
  ◌⊎◌, Bool-cases, Option-cases, inl, inr, arith,
}
use jleaker.Node.Defs.{MemoryNode, Store, node_at}
use jleaker.Reference.Chain.Defs.{Jvm, with_objects, with_class, fill_node}

is_some {ℓ} : {A : Type ℓ} → Option A → Bool
is_some none = false
is_some (some x) = true

is_any {ℓ} : {A : Type ℓ} → List A → Bool
is_any [] = false
is_any (x ∷ xs) = true

-- Whether the node's object is still there, or will be when the node is filled.
unfoldable pub live_node : Jvm → ℕ → MemoryNode → Bool
unfolding is_some is_any
live_node jvm a n =
    not n.dead && (is_some n.klass || (is_some n.obj || is_any (jvm.objects_with_tag a)))

abbrev pub live : Jvm → Store → ℕ → Bool
live jvm st a = live_node jvm a (node_at st a)

objects_cases :
    (jvm : Jvm) (n m : MemoryNode) (os : List ℕ)
    → with_objects jvm n os ≡ some m
    → ((m ≡ record n { dead = true }) × (is_any os ≡ false))
      ⊎ ((o : ℕ) × (m ≡ with_class jvm n o) × (is_any os ≡ true))
unfolding with_objects is_any
objects_cases jvm n m [] e = inl (ground arith, refl)
objects_cases jvm n m (o ∷ []) e = inr (o, ground arith, refl)
objects_cases jvm n m (o ∷ p ∷ os) e = absurd (ground arith)

-- The three ways in which a node is filled.
fill_node_cases :
    (jvm : Jvm) (a : ℕ) (n m : MemoryNode)
    → fill_node jvm a n ≡ some m
    → ((m ≡ n) × ((n.dead ≡ true) ⊎ ((n.dead ≡ false) × (is_some n.klass ≡ true))))
      ⊎ ((m ≡ record n { dead = true }) × (live_node jvm a n ≡ false))
      ⊎ ((o : ℕ) × (m ≡ with_class jvm n o) × (n.dead ≡ false) × (live_node jvm a n ≡ true))
unfolding fill_node live_node
fill_node_cases jvm a n m e = elim (Bool-cases n.dead) [
  | inl dead ↦ inl (ground arith, inl dead)
  | inr alive ↦ elim (Option-cases n.klass) [
    | inr (k, ek) ↦ inl (ground arith, inr (alive, ground arith))
    | inl ek ↦ elim (Option-cases n.obj) [
      | inr (o, eo) ↦ inr (inr (o, ground arith, alive, ground arith))
      | inl eo ↦ elim (objects_cases jvm n m (jvm.objects_with_tag a) (ground arith)) [
        | inl (same, none_there) ↦ inr (inl (same, ground arith))
        | inr (o, same, there) ↦ inr (inr (o, same, alive, ground arith))
      ]
    ]
  ]
]

-- Filling a node finds whether it is alive, and leaves what the search reads of it.
pub fill_node_lem :
    (jvm : Jvm) (a : ℕ) (n m : MemoryNode)
    → fill_node jvm a n ≡ some m
    → (m.dead ≡ not (live_node jvm a n))
      × (live_node jvm a m ≡ live_node jvm a n)
      × (m.referers ≡ n.referers)
      × (m.leaks_related ≡ n.leaks_related)
      × (m.visited ≡ n.visited)
unfolding live_node with_class is_some
fill_node_lem jvm a n m e = elim (fill_node_cases jvm a n m e) [
  | inl (same, inl dead) ↦ rw same (ground arith)
  | inl (same, inr (alive, klass)) ↦ rw same (ground arith)
  | inr (inl (same, gone)) ↦ rw same (ground arith)
  | inr (inr (o, same, alive, there)) ↦ rw same (ground arith)
]

-- A node that was filled is left as it is when it is filled once more.
pub fill_node-again :
    (jvm : Jvm) (a : ℕ) (n m : MemoryNode) → fill_node jvm a n ≡ some m → fill_node jvm a m ≡ some m
unfolding fill_node with_class is_some
fill_node-again jvm a n m e = elim (fill_node_cases jvm a n m e) [
  | inl (same, how) ↦
      subst (λ x. fill_node jvm a x ≡ some x) (sym same)
        (subst (λ x. fill_node jvm a n ≡ some x) same e)
  | inr (inl (same, gone)) ↦ rw same refl
  | inr (inr (o, same, alive, there)) ↦
      subst (λ x. fill_node jvm a x ≡ some x) (sym same) (rw alive refl)
]
