-- ===== src/Reference/Chain/Steps.antt =====
-- The three writes of the search: the visited flag, the node's class, and the leak that is given up.
use jleaker.Common.{
  ℕ, ◌<◌, ◌≡◌, refl, ◌∙◌, sym, ap, subst, Bool, true, false, not, ◌==◌, ==_refl, ==_iff, suc,
  Bool-cases, some, length, set, Option-cases, inl, inr, arith, if◌then◌else◌,
}
use jleaker.Bitmask
use jleaker.Bitmask.Bounds.{IsValid, remove-IsValid}
use jleaker.Bitmask.Members.{contains-update}
use jleaker.Node.Defs.{MemoryNode, Store, node_at}
use jleaker.Node.Update.{part-set, node_at-set_self, node_at-set_other}
use jleaker.Reference.Chain.Defs.{
  Jvm, fill_node, fill_class_in_memory_node, set_visited, remove_leak,
}
use jleaker.Reference.Chain.Fill.{live_node, live, fill_node_lem}
use jleaker.Reference.Chain.Frame.{
  has_leak, unvisited, unvisited-set, Same, Same-set, Kept, Kept-set, AreValid, AreValid-set,
}

module _ (jvm : Jvm) (leak : ℕ) where
  pub set_visited-Same :
      (b : Bool) (st : Store) (a : ℕ) → a < length st → Same jvm leak st (set_visited b st a)
  unfolding set_visited live_node
  set_visited-Same b st a h = Same-set jvm leak st a _ h refl refl (λ g. g)

  pub remove_leak-Same :
      (st : Store) (a : ℕ) → AreValid st → a < length st → Same jvm leak st (remove_leak leak st a)
  unfolding remove_leak live_node
  remove_leak-Same st a v h = Same-set jvm leak st a _ h refl refl (λ g.
      let (_, _, gone) = contains-update (node_at st a).leaks_related leak leak (v a) in
      ground (arith, ==_refl leak))

  -- Filling a node that is in the store.
  pub record IsFilled (st : Store) (a : ℕ) (st' : Store) : Type 0 where
    pub same : Same jvm leak st st'
    pub kept : Kept st st'
    pub valid : AreValid st'
    pub same_leaks : (b : ℕ) → (node_at st' b).leaks_related ≡ (node_at st b).leaks_related
    pub dead_lem : (node_at st' a).dead ≡ not (live jvm st a)

  pub fill-IsFilled :
      (st : Store) (a : ℕ) {st' : Store}
      → AreValid st
      → a < length st
      → fill_class_in_memory_node jvm st a ≡ some st'
      → IsFilled st a st'
  unfolding fill_class_in_memory_node
  fill-IsFilled st a {st'} v h e = elim (Option-cases (fill_node jvm a (node_at st a))) [
    | inl wrong ↦ absurd (ground arith)
    | inr (n, filled) ↦
        let (dead, alive, refs, leaks, visited) = fill_node_lem jvm a (node_at st a) n filled in
        let same : st' ≡ set st a n = ground arith in
        subst (IsFilled st a) (sym same) record {
          same =
              Same-set jvm leak st a n h refs alive
                (λ g. ap (λ s. Bitmask.contains s leak) (sym leaks) ∙ g);
          kept = Kept-set st a n h visited;
          valid = AreValid-set st a n v h (subst IsValid (sym leaks) (v a));
          same_leaks = λ b. part-set (λ m. m.leaks_related) st a b n h leaks;
          dead_lem = ap (λ (m : MemoryNode). m.dead) (node_at-set_self st a n h) ∙ dead;
        }
  ]

pub AreValid-set_visited :
    (b : Bool) (st : Store) (a : ℕ) → AreValid st → a < length st → AreValid (set_visited b st a)
unfolding set_visited
AreValid-set_visited b st a v h = AreValid-set st a _ v h (v a)

pub AreValid-remove_leak :
    (leak : ℕ) (st : Store) (a : ℕ) → AreValid st → a < length st → AreValid (remove_leak leak st a)
unfolding remove_leak
AreValid-remove_leak leak st a v h = AreValid-set st a _ v h (remove-IsValid _ (v a) leak)

pub remove_leak-Kept :
    (leak : ℕ) (st : Store) (a : ℕ) → a < length st → Kept st (remove_leak leak st a)
unfolding remove_leak
remove_leak-Kept leak st a h = Kept-set st a _ h refl

pub has_leak-remove_leak :
    (leak : ℕ) (st : Store) (a : ℕ)
    → AreValid st
    → a < length st
    → has_leak leak (remove_leak leak st a) a ≡ false
unfolding remove_leak
has_leak-remove_leak leak st a v h =
    let (_, _, gone) = contains-update (node_at st a).leaks_related leak leak (v a) in
    ap (λ (m : MemoryNode). Bitmask.contains m.leaks_related leak) (node_at-set_self st a _ h)
    ∙ ground (arith, ==_refl leak)

pub has_leak-remove_leak_other :
    (leak : ℕ) (st : Store) (a b : ℕ)
    → a < length st
    → (a == b) ≡ false
    → has_leak leak (remove_leak leak st a) b ≡ has_leak leak st b
unfolding remove_leak
has_leak-remove_leak_other leak st a b h apart =
    ap (λ (m : MemoryNode). Bitmask.contains m.leaks_related leak)
      (node_at-set_other st a b _ h apart)

pub has_leak-set_visited :
    (leak : ℕ) (b : Bool) (st : Store) (a c : ℕ)
    → a < length st
    → has_leak leak (set_visited b st a) c ≡ has_leak leak st c
unfolding set_visited
has_leak-set_visited leak b st a c h =
    part-set (λ m. Bitmask.contains m.leaks_related leak) st a c _ h refl

pub visited-set_visited :
    (b : Bool) (st : Store) (a c : ℕ)
    → a < length st
    → (node_at (set_visited b st a) c).visited ≡ (if a == c then b else (node_at st c).visited)
unfolding set_visited
visited-set_visited b st a c h = elim (Bool-cases (a == c)) [
  | inl e ↦ rw e (
      subst (λ d. (node_at (set_visited b st a) d).visited ≡ b) ((==_iff a c).0 e)
        (ap (λ (m : MemoryNode). m.visited) (node_at-set_self st a _ h)))
  | inr e ↦ rw e (ap (λ (m : MemoryNode). m.visited) (node_at-set_other st a c _ h e))
]

pub unvisited-set_visited :
    (st : Store) (a : ℕ)
    → a < length st
    → (node_at st a).visited ≡ false
    → unvisited st ≡ suc (unvisited (set_visited true st a))
unfolding set_visited
unvisited-set_visited st a h new =
    ground (arith, unvisited-set st a (record (node_at st a) { visited = true }) h)

-- Marking a node, a call that gives the flags back, and clearing the mark.
pub Kept-visit :
    (st st' : Store) (a : ℕ)
    → a < length st
    → (node_at st a).visited ≡ false
    → Kept (set_visited true st a) st'
    → length st' ≡ length st
    → Kept st (set_visited false st' a)
unfolding set_visited
Kept-visit st st' a h new k size =
    let h' : a < length st' = omega arith in
    record {
      same_visited = λ c.
          let marked = visited-set_visited true st a c h in
          let cleared = visited-set_visited false st' a c h' in
          let between = k.same_visited c in
          elim (Bool-cases (a == c)) [
            | inl e ↦
                let same : (node_at st c).visited ≡ false =
                  subst (λ d. (node_at st d).visited ≡ false) ((==_iff a c).0 e) new in
                ground arith
            | inr e ↦ ground arith
          ];
      same_count = ground (
        arith,
        unvisited-set_visited st a h new,
        k.same_count,
        k.same_visited a,
        visited-set_visited true st a a h,
        ==_refl a,
        unvisited-set st' a (record (node_at st' a) { visited = false }) h',
      );
    }
