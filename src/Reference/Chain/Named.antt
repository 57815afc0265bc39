-- ===== src/Reference/Chain/Named.antt =====
-- A node that fillClassInMemoryNode fills has its object, its class and the class's name.
use jleaker.Common.{
  ℕ, ◌≤◌, ◌≡◌, refl, ◌⊎◌, true, Bool-cases, Option-cases, inl, inr, none, some, List, [], ◌∷◌,
  length, Bytes, arith,
}
use jleaker.Node.Defs.{MemoryNode}
use jleaker.Reference.Chain.Defs.{Jvm, with_objects, with_class, fill_node}
use jleaker.Reference.Chain.Fill.{live_node, fill_node_lem}

-- A node that has its class has its object and the class's name too.
abbrev pub IsNamed : MemoryNode → Type 0
IsNamed n =
    (n.klass ≡ none)
    ⊎ ((k : ℕ) × (n.klass ≡ some k)
        × ((c : Bytes) × (n.classname ≡ some c))
        × ((o : ℕ) × (n.obj ≡ some o)))

-- A node whose class is known.
pub record IsFull (n : MemoryNode) : Type 0 where
  pub k : ℕ
  pub klass : n.klass ≡ some k
  pub c : Bytes
  pub classname : n.classname ≡ some c
  pub o : ℕ
  pub obj : n.obj ≡ some o

module _ (jvm : Jvm) where
  -- What a filled node is.
  pub record Filled (a : ℕ) (n : MemoryNode) : Type 0 where
    pub m : MemoryNode
    pub filled : fill_node jvm a n ≡ some m
    pub named : IsNamed m
    pub full : live_node jvm a n ≡ true → IsFull m

  with_class-IsNamed : (n : MemoryNode) (o : ℕ) → IsNamed (with_class jvm n o)
  unfolding with_class
  with_class-IsNamed n o = inr (_, refl, (_, refl), (_, refl))

  with_class-IsFull : (n : MemoryNode) (o : ℕ) → IsFull (with_class jvm n o)
  unfolding with_class
  with_class-IsFull n o = record { k = _; klass = refl; c = _; classname = refl; o = _; obj = refl }

  with_objects-filled :
      (a : ℕ) (n : MemoryNode) (os : List ℕ)
      → n.klass ≡ none
      → length os ≤ 1
      → (m : MemoryNode) × (with_objects jvm n os ≡ some m)
        × IsNamed m
        × ((m.dead ≡ true) ⊎ IsFull m)
  unfolding with_objects
  with_objects-filled a n [] e h = (record n { dead = true }, refl, inl e, inl refl)
  with_objects-filled a n (o ∷ []) e h =
      (with_class jvm n o, refl, with_class-IsNamed n o, inr (with_class-IsFull n o))
  with_objects-filled a n (o ∷ p ∷ os) e h = absurd (omega arith)

  -- A live node is not dead once filled.
  not_dead :
      (a : ℕ) (n m : MemoryNode)
      → fill_node jvm a n ≡ some m
      → (m.dead ≡ true) ⊎ IsFull m
      → live_node jvm a n ≡ true
      → IsFull m
  not_dead a n m e (inr f) h = f
  not_dead a n m e (inl dead) h = absurd (ground (arith, (fill_node_lem jvm a n m e).0))

  pub fill_node-Filled :
      (a : ℕ) (n : MemoryNode) → IsNamed n → length (jvm.objects_with_tag a) ≤ 1 → Filled a n
  unfolding fill_node
  fill_node-Filled a n (inr (k, ek, (c, ec), (o, eo))) h = elim (Bool-cases n.dead) [
    | inl dead ↦ record {
      m = n;
      filled = ground arith;
      named = inr (k, ek, (c, ec), (o, eo));
      full = λ _. record { k = k; klass = ek; c = c; classname = ec; o = o; obj = eo };
    }
    | inr alive ↦ record {
      m = n;
      filled = ground arith;
      named = inr (k, ek, (c, ec), (o, eo));
      full = λ _. record { k = k; klass = ek; c = c; classname = ec; o = o; obj = eo };
    }
  ]
  fill_node-Filled a n (inl ek) h = elim (Bool-cases n.dead) [
    | inl dead ↦
        let e : fill_node jvm a n ≡ some n = ground arith in
        record { m = n; filled = e; named = inl ek; full = not_dead a n n e (inl dead) }
    | inr alive ↦ elim (Option-cases n.obj) [
      | inr (o, eo) ↦ record {
        m = with_class jvm n o;
        filled = ground arith;
        named = with_class-IsNamed n o;
        full = λ _. with_class-IsFull n o;
      }
      | inl eo ↦
          let (m, em, named, out) = with_objects-filled a n (jvm.objects_with_tag a) ek h in
          let e : fill_node jvm a n ≡ some m = ground arith in
          record { m = m; filled = e; named = named; full = not_dead a n m e out }
    ]
  ]
