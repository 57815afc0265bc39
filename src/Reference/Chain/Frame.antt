-- ===== src/Reference/Chain/Frame.antt =====
-- What a search leaves as it was: the lists of referers, the visited flags, which objects are alive,
-- and all but some members of the sets of leaks.
use jleaker.Common.{
  ℕ, ◌<◌, ◌≡◌, refl, ◌∙◌, sym, ap, subst, Bool, true, ◌==◌, ==_iff, ltb, [], ◌∷◌, length, set,
  length-set, get_or-beyond, ltb→lt, Bool-cases, inl, inr, arith,
}
use jleaker.Bitmask
use jleaker.Bitmask.Bounds.{IsValid}
use jleaker.Bitmask.Members.{contains_lem}
use jleaker.Node.Defs.{MemoryNode, Store, node_at, fresh_node}
use jleaker.Node.Update.{part-set, part_at-set, node_at-set_self, node_at-set_other}
use jleaker.Reference.Chain.Defs.{Jvm}
use jleaker.Reference.Chain.Fill.{live_node, live}
unfoldable pub use jleaker.Node.Update.{unvisited}
pub use jleaker.Node.Update.{unvisited-set}

-- Whether the node leads to the leak.
abbrev pub has_leak : (leak : ℕ) → Store → ℕ → Bool
has_leak leak st a = Bitmask.contains (node_at st a).leaks_related leak

-- Every node that leads to a leak is in the store.
pub lt_of_has_leak : (leak : ℕ) (st : Store) (a : ℕ) → has_leak leak st a ≡ true → a < length st
unfolding fresh_node Bitmask.new
lt_of_has_leak leak st a h = elim (Bool-cases (ltb a (length st))) [
  | inl within ↦ ltb→lt a (length st) within
  | inr past ↦
      let fresh : node_at st a ≡ fresh_node 0 = get_or-beyond st a (fresh_node 0) (ground arith) in
      absurd (no_leak (h' fresh))
]
  where
    h' : node_at st a ≡ fresh_node 0 → has_leak leak (fresh_node 0 ∷ []) 0 ≡ true
    h' fresh = subst (λ n. Bitmask.contains n.leaks_related leak ≡ true) fresh h

    no_leak : has_leak leak (fresh_node 0 ∷ []) 0 ≡ true → ⊥
    no_leak g = ground (arith, contains_lem (fresh_node 0).leaks_related leak)

-- What no step of the search changes, and the sets of leaks, which only lose `leak`.
pub record Same (jvm : Jvm) (leak : ℕ) (st st' : Store) : Type 0 where
  pub same_length : length st' ≡ length st
  pub same_referers : (a : ℕ) → (node_at st' a).referers ≡ (node_at st a).referers
  pub same_live : (a : ℕ) → live jvm st' a ≡ live jvm st a
  pub fewer : (a : ℕ) → has_leak leak st' a ≡ true → has_leak leak st a ≡ true

-- The flags that a whole call gives back as they were.
pub record Kept (st st' : Store) : Type 0 where
  pub same_visited : (a : ℕ) → (node_at st' a).visited ≡ (node_at st a).visited
  pub same_count : unvisited st' ≡ unvisited st

pub Kept-refl : (st : Store) → Kept st st
Kept-refl st = record { same_visited = λ a. refl; same_count = refl }

pub Kept-trans : (st st' st'' : Store) → Kept st st' → Kept st' st'' → Kept st st''
Kept-trans st st' st'' p q = record {
  same_visited = λ a. q.same_visited a ∙ p.same_visited a;
  same_count = q.same_count ∙ p.same_count;
}

pub Kept-set :
    (st : Store) (i : ℕ) (n : MemoryNode)
    → i < length st
    → n.visited ≡ (node_at st i).visited
    → Kept st (set st i n)
Kept-set st i n h same = record {
  same_visited = λ a. part-set (λ m. m.visited) st i a n h same;
  same_count = ground (arith, unvisited-set st i n h);
}

-- The sets of all nodes are well formed.
abbrev pub AreValid : Store → Type 0
AreValid st = (a : ℕ) → IsValid (node_at st a).leaks_related

pub AreValid-set :
    (st : Store) (i : ℕ) (n : MemoryNode)
    → AreValid st
    → i < length st
    → IsValid n.leaks_related
    → AreValid (set st i n)
AreValid-set st i n v h w a = elim (Bool-cases (i == a)) [
  | inl e ↦
      subst (λ b. IsValid (node_at (set st i n) b).leaks_related) ((==_iff i a).0 e)
        (rw (node_at-set_self st i n h) w)
  | inr e ↦ rw (node_at-set_other st i a n h e) (v a)
]

module _ (jvm : Jvm) (leak : ℕ) where
  pub Same-refl : (st : Store) → Same jvm leak st st
  Same-refl st = record {
    same_length = refl;
    same_referers = λ a. refl;
    same_live = λ a. refl;
    fewer = λ a h. h;
  }

  pub Same-trans :
      (st st' st'' : Store) → Same jvm leak st st' → Same jvm leak st' st'' → Same jvm leak st st''
  Same-trans st st' st'' p q = record {
    same_length = q.same_length ∙ p.same_length;
    same_referers = λ a. q.same_referers a ∙ p.same_referers a;
    same_live = λ a. q.same_live a ∙ p.same_live a;
    fewer = λ a h. p.fewer a (q.fewer a h);
  }

  -- A write of one node.
  pub Same-set :
      (st : Store) (i : ℕ) (n : MemoryNode)
      → i < length st
      → n.referers ≡ (node_at st i).referers
      → live_node jvm i n ≡ live jvm st i
      → (Bitmask.contains n.leaks_related leak ≡ true → has_leak leak st i ≡ true)
      → Same jvm leak st (set st i n)
  Same-set st i n h refs alive leaks = record {
    same_length = length-set st i n;
    same_referers = λ a. part-set (λ m. m.referers) st i a n h refs;
    same_live = λ a. part_at-set (live_node jvm) st i a n h alive;
    fewer = λ a g. elim (Bool-cases (i == a)) [
      | inl e ↦
          let i≡a = (==_iff i a).0 e in
          subst (λ b. has_leak leak st b ≡ true) i≡a
            (leaks (
              ap (λ (m : MemoryNode). Bitmask.contains m.leaks_related leak)
                (sym (node_at-set_self st i n h))
              ∙ subst (λ b. has_leak leak (set st i n) b ≡ true) (sym i≡a) g))
      | inr e ↦
          ap (λ (m : MemoryNode). Bitmask.contains m.leaks_related leak)
            (sym (node_at-set_other st i a n h e))
          ∙ g
    ];
  }
