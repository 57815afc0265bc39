-- ===== src/Detect/Dump/Rooted.antt =====
-- What holds of the nodes throughout a dump: they are counted, not marked, and reached from the lists
-- of leaks and of class nodes.
use jleaker.Common.{
  ℕ, ◌<◌, ◌≤◌, ◌≡◌, refl, ◌∙◌, ap, false, ◌==◌, none, [], ◌∷◌, ◌++◌, length, length-set,
  length-append, set, get_or-append, get_or-beyond, ==_iff, subst, Bool-cases, inl, inr, arith,
}
use jleaker.Node.Defs.{MemoryNode, Store, node_at, fresh_node}
use jleaker.Node.Counts.{refs_to, IsCounted}
use jleaker.Node.Update.{part-set, node_at-set_self, node_at-set_other}
use jleaker.Node.Free.Owners.{Leads, owned, referred}

pub record IsRooted (owners : ℕ → ℕ) (st : Store) : Type 0 where
  pub counts : IsCounted owners st none
  pub clear : (a : ℕ) → (node_at st a).visited ≡ false
  pub within : (a : ℕ) → length st ≤ a → owners a ≡ 0
  pub led : (a : ℕ) → a < length st → Leads owners st a

-- References are only added, and no mark changes.
pub record Grows (st st' : Store) : Type 0 where
  pub longer : length st ≤ length st'
  pub same_marks : (a : ℕ) → (node_at st' a).visited ≡ (node_at st a).visited
  pub more : (a b : ℕ) → refs_to b (node_at st a).referers ≤ refs_to b (node_at st' a).referers

pub Grows-refl : (st : Store) → Grows st st
Grows-refl st = record { longer = omega arith; same_marks = λ a. refl; more = λ a b. omega arith }

pub Grows-trans : {st st' st'' : Store} → Grows st st' → Grows st' st'' → Grows st st''
Grows-trans p q = record {
  longer = omega (arith, p.longer, q.longer);
  same_marks = λ a. q.same_marks a ∙ p.same_marks a;
  more = λ a b. omega (arith, p.more a b, q.more a b);
}

pub Grows-set :
    (st : Store) (i : ℕ) (n : MemoryNode)
    → i < length st
    → n.visited ≡ (node_at st i).visited
    → ((b : ℕ) → refs_to b (node_at st i).referers ≤ refs_to b n.referers)
    → Grows st (set st i n)
Grows-set st i n h marks refs = record {
  longer = omega (arith, length-set st i n);
  same_marks = λ a. part-set (λ x. x.visited) st i a n h marks;
  more = λ a b. elim (Bool-cases (i == a)) [
    | inl same ↦
        subst (λ c. refs_to b (node_at st c).referers ≤ refs_to b (node_at (set st i n) c).referers)
          ((==_iff i a).0 same)
          (omega (
            arith,
            refs b,
            ap (λ (x : MemoryNode). refs_to b x.referers) (node_at-set_self st i n h),
          ))
    | inr other ↦
        omega (
          arith,
          ap (λ (x : MemoryNode). refs_to b x.referers) (node_at-set_other st i a n h other),
        )
  ];
}

pub Grows-append : (st : Store) (k : ℕ) → Grows st (st ++ fresh_node k ∷ [])
unfolding fresh_node refs_to
Grows-append st k = record {
  longer = omega (arith, length-append st (fresh_node k ∷ []));
  same_marks = λ a.
      ground (
        arith,
        get_or-append st (fresh_node k) a (fresh_node 0),
        get_or-beyond st a (fresh_node 0),
      );
  more = λ a b.
      ground (
        arith,
        get_or-append st (fresh_node k) a (fresh_node 0),
        get_or-beyond st a (fresh_node 0),
      );
}

pub Leads-mono :
    {owners owners' : ℕ → ℕ} {st st' : Store}
    → ((a : ℕ) → owners a ≤ owners' a)
    → ((a b : ℕ) → refs_to b (node_at st a).referers ≤ refs_to b (node_at st' a).referers)
    → (a : ℕ) → Leads owners st a
    → Leads owners' st' a
Leads-mono more_owners more_refs a (owned b lt) = owned b (omega (arith, more_owners b))
Leads-mono more_owners more_refs a (referred b c led lt) =
    referred b c (Leads-mono more_owners more_refs b led) (omega (arith, more_refs b c))
