-- ===== src/Reference/Chain/Untouched.antt =====
-- What the search for chains leaves of the nodes, and that filling a node leaves it.
use jleaker.Common.{
  ℕ, ◌≡◌, refl, ◌∙◌, sym, ap, Bool, true, false, ◌==◌, ==_iff, ltb, if◌then◌else◌, Option, none,
  some, List, [], ◌∷◌, length, length-set, set, get_or-set, get_or-beyond, subst, Bool-cases,
  Option-cases, inl, inr, arith,
}
use jleaker.Common.Int.{ℤ}
use jleaker.Node.Defs.{MemoryReferer, MemoryNode, Store, node_at, fresh_node}
use jleaker.Reference.Chain.Defs.{
  Jvm, with_class, with_objects, fill_node, fill_class_in_memory_node,
}

-- What stays of a node.
abbrev pub essence : MemoryNode → List MemoryReferer × ℤ × Bool
essence n = (n.referers, n.reference_pointing_to_me, n.visited)

abbrev or_node : MemoryNode → Option MemoryNode → MemoryNode
or_node n none = n
or_node n (some m) = m

pub record Untouched (st st' : Store) : Type 0 where
  pub same_length : length st' ≡ length st
  pub same : (a : ℕ) → essence (node_at st' a) ≡ essence (node_at st a)

pub Untouched-refl : (st : Store) → Untouched st st
Untouched-refl st = record { same_length = refl; same = λ a. refl }

pub Untouched-trans :
    {st st' st'' : Store} → Untouched st st' → Untouched st' st'' → Untouched st st''
Untouched-trans p q = record {
  same_length = q.same_length ∙ p.same_length;
  same = λ a. q.same a ∙ p.same a;
}

-- A write, in the store or beyond it, that keeps a part of the node keeps it at every address.
pub part_kept {ℓ} :
    {X : Type ℓ} (part : MemoryNode → X) (st : Store) (i a : ℕ) (n : MemoryNode)
    → part n ≡ part (node_at st i)
    → part (node_at (set st i n) a) ≡ part (node_at st a)
part_kept part st i a n same = elim (Bool-cases (i == a)) [
  | inr other ↦ ap part (ground (arith, get_or-set st i a n (fresh_node 0)))
  | inl this ↦ elim (Bool-cases (ltb i (length st))) [
    | inl within ↦
        ap part (ground (arith, get_or-set st i a n (fresh_node 0)))
        ∙ same
        ∙ ap (λ j. part (node_at st j)) ((==_iff i a).0 this)
    | inr past ↦
        ap part
          (ground (arith, get_or-set st i a n (fresh_node 0), get_or-beyond st a (fresh_node 0)))
  ]
]

pub Untouched-set :
    (st : Store) (i : ℕ) (n : MemoryNode)
    → essence n ≡ essence (node_at st i)
    → Untouched st (set st i n)
Untouched-set st i n same = record {
  same_length = length-set st i n;
  same = λ a. part_kept essence st i a n same;
}

module _ (jvm : Jvm) where
  with_objects-essence :
      (n m : MemoryNode) (os : List ℕ) → with_objects jvm n os ≡ some m → essence m ≡ essence n
  unfolding with_objects with_class
  with_objects-essence n m [] e = sym (ap (λ x. essence (or_node n x)) e)
  with_objects-essence n m (o ∷ []) e = sym (ap (λ x. essence (or_node n x)) e)
  with_objects-essence n m (o ∷ p ∷ os) e = absurd (cc)

  -- The tests of fillClassInMemoryNode.
  filled-essence :
      (address : ℕ) (n m : MemoryNode) (dead : Bool) (klass obj : Option ℕ)
      → ◌≡◌ {A = Option MemoryNode}
          (if dead then some n else elim klass [
            | some k ↦ some n
            | none ↦ elim obj [
              | some o ↦ some (with_class jvm n o)
              | none ↦ with_objects jvm n (jvm.objects_with_tag address)
            ]
          ])
          (some m)
      → essence m ≡ essence n
  unfolding with_class
  filled-essence address n m true klass obj e = sym (ap (λ x. essence (or_node n x)) e)
  filled-essence address n m false (some k) obj e = sym (ap (λ x. essence (or_node n x)) e)
  filled-essence address n m false none (some o) e = sym (ap (λ x. essence (or_node n x)) e)
  filled-essence address n m false none none e =
      with_objects-essence n m (jvm.objects_with_tag address) e

  fill_node-essence :
      (address : ℕ) (n m : MemoryNode) → fill_node jvm address n ≡ some m → essence m ≡ essence n
  unfolding fill_node
  fill_node-essence address n m e = filled-essence address n m n.dead n.klass n.obj e

  pub fill-Untouched :
      (st st' : Store) (node : ℕ)
      → fill_class_in_memory_node jvm st node ≡ some st'
      → Untouched st st'
  unfolding fill_class_in_memory_node
  fill-Untouched st st' node e = elim (Option-cases (fill_node jvm node (node_at st node))) [
    | inl two ↦ absurd (ground arith)
    | inr (n, filled) ↦
        let same : ◌≡◌ {A = Option Store} (some (set st node n)) (some st') =
          sym (rw (filled, fill_class_in_memory_node) refl) ∙ e in
        let ends : set st node n ≡ st' = cc in
        subst (Untouched st) ends
          (Untouched-set st node n (fill_node-essence node (node_at st node) n filled))
  ]
