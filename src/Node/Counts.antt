-- ===== src/Node/Counts.antt =====
-- The field reference_pointing_to_me against the referers in the store that point at the node.
use jleaker.Common.{
  ap, sym, ◌∙◌, Bool-cases, ==_iff, inl, inr, ℕ, zero, suc, ◌+◌, ◌<◌, ◌≤◌, ◌≡◌, refl, ◌==◌,
  if◌then◌else◌, Option, none, some, List, [], ◌∷◌, ◌++◌, length, set, length-set, length-append,
  get_or-set, get_or-append, arith,
}
use jleaker.Common.Int.{pos, ◌+ℤ◌, pos-+ℤ, +ℤ-zero}
use jleaker.Node.Defs.{MemoryReferer, MemoryNode, Store, node_at, fresh_node, new_memory_node}

-- 1 if the pointer is the node's address.
unfoldable pub hit : Option ℕ → ℕ → ℕ
hit none a = 0
hit (some r) a = if r == a then 1 else 0

-- The referers of one node that point at `a`, and those of the whole store.
unfoldable pub refs_to : ℕ → List MemoryReferer → ℕ
unfolding hit
refs_to a [] = 0
refs_to a (r ∷ rs) = hit r.node a + refs_to a rs

unfoldable pub edges_to : ℕ → Store → ℕ
unfolding refs_to
edges_to a [] = 0
edges_to a (n ∷ st) = refs_to a n.referers + edges_to a st

pub refs_to-append :
    (a : ℕ) (rs ss : List MemoryReferer) → refs_to a (rs ++ ss) ≡ refs_to a rs + refs_to a ss
unfolding refs_to
refs_to-append a [] ss = omega arith
refs_to-append a (r ∷ rs) ss = omega (arith, refs_to-append a rs ss)

pub edges_to-append :
    (a : ℕ) (st ss : Store) → edges_to a (st ++ ss) ≡ edges_to a st + edges_to a ss
unfolding edges_to
edges_to-append a [] ss = omega arith
edges_to-append a (n ∷ st) ss = omega (arith, edges_to-append a st ss)

pub edges_to-set :
    (a : ℕ) (st : Store) (i : ℕ) (n : MemoryNode)
    → i < length st
    → edges_to a (set st i n) + refs_to a (node_at st i).referers
      ≡ edges_to a st + refs_to a n.referers
unfolding edges_to
edges_to-set a [] i n h = absurd (omega arith)
edges_to-set a (m ∷ st) zero n h = omega arith
edges_to-set a (m ∷ st) (suc i) n h = omega (arith, edges_to-set a st i n (omega arith))

fresh-count : (n : ℕ) → (fresh_node n).reference_pointing_to_me ≡ pos 1
unfolding fresh_node
fresh-count n = pos-+ℤ 0 1

pub fresh-referers : (n : ℕ) → (fresh_node n).referers ≡ []
unfolding fresh_node
fresh-referers n = refl

-- Each node counts its referers and its owners, which are the list of leaks or of class nodes that
-- holds it; a reference to `pending` is counted already and not yet in the store.
pub record IsCounted (owners : ℕ → ℕ) (st : Store) (pending : Option ℕ) : Type 0 where
  pub counted :
      (a : ℕ)
      → a < length st
      → (node_at st a).reference_pointing_to_me ≡ pos (owners a + edges_to a st + hit pending a)
  pub closed : (a : ℕ) → length st ≤ a → edges_to a st + hit pending a ≡ 0

module _ {owners : ℕ → ℕ} {st : Store} where
  -- Replacing one node keeps the counts if the node's count grows by `d` and the references that are
  -- stored or pending change to match.
  replaced :
      (p q : Option ℕ) (i : ℕ) (n : MemoryNode) (d : ℕ)
      → IsCounted owners st p
      → i < length st
      → n.reference_pointing_to_me ≡ (node_at st i).reference_pointing_to_me +ℤ pos d
      → ((a : ℕ)
          → refs_to a n.referers + hit q a
            ≡ refs_to a (node_at st i).referers + hit p a + (if i == a then d else 0))
      → IsCounted owners (set st i n) q
  replaced p q i n d c h count refs = record {
    counted = λ a lt.
        let here : a < length st = omega (arith, length-set st i n) in
        let read = get_or-set st i a n (fresh_node 0) in
        let edges = edges_to-set a st i n h in
        let old = c.counted a here in
        let change = refs a in
        elim (Bool-cases (i == a)) [
          | inl same ↦
              let e : i ≡ a = (==_iff i a).0 same in
              let total : owners a + edges_to a (set st i n) + hit q a
                  ≡ owners a + edges_to a st + hit p a + d =
                ground arith in
              let now : node_at (set st i n) a ≡ n = ground (arith, read) in
              ap (λ (x : MemoryNode). x.reference_pointing_to_me) now
              ∙ count
              ∙ ap (λ j. (node_at st j).reference_pointing_to_me +ℤ pos d) e
              ∙ ap (λ k. k +ℤ pos d) old
              ∙ pos-+ℤ _ d
              ∙ ap pos (sym total)
          | inr apart ↦
              let total : owners a + edges_to a (set st i n) + hit q a
                  ≡ owners a + edges_to a st + hit p a =
                ground arith in
              let now : node_at (set st i n) a ≡ node_at st a = ground (arith, read) in
              ap (λ (x : MemoryNode). x.reference_pointing_to_me) now ∙ old ∙ ap pos (sym total)
        ];
    closed = λ a le.
        let past : length st ≤ a = omega (arith, length-set st i n) in
        ground (arith, c.closed a past, edges_to-set a st i n h, refs a);
  }

  -- A change of a node that touches neither its referers nor its count.
  pub IsCounted-set :
      {pending : Option ℕ} (i : ℕ) (n : MemoryNode)
      → IsCounted owners st pending
      → i < length st
      → n.referers ≡ (node_at st i).referers
      → n.reference_pointing_to_me ≡ (node_at st i).reference_pointing_to_me
      → IsCounted owners (set st i n) pending
  IsCounted-set {pending} i n c h same_refs same_count =
      replaced pending pending i n 0 c h (same_count ∙ sym (+ℤ-zero _))
        (λ a. ground (arith, ap (refs_to a) same_refs))

  -- reference_pointing_to_me++ for a reference that is about to be recorded.
  pub IsCounted-increment :
      (r : ℕ)
      → IsCounted owners st none
      → r < length st
      → IsCounted owners
          (set st r (record (node_at st r) {
            reference_pointing_to_me = (node_at st r).reference_pointing_to_me +ℤ pos 1;
          }))
          (some r)
  unfolding hit
  IsCounted-increment r c h = replaced none (some r) r _ 1 c h refl (λ a. ground arith)

  -- Recording the pending reference as a referer of the node `this`.
  pub IsCounted-referer :
      {ref : Option ℕ} (this : ℕ) (m : MemoryReferer)
      → IsCounted owners st ref
      → this < length st
      → m.node ≡ ref
      → IsCounted owners
          (set st this
            (record (node_at st this) { referers = (node_at st this).referers ++ m ∷ [] }))
          none
  unfolding refs_to
  IsCounted-referer {ref} this m c h e = replaced ref none this _ 0 c h (sym (+ℤ-zero _)) (λ a.
      ground (arith, refs_to-append a (node_at st this).referers (m ∷ []), ap (λ p. hit p a) e))

  -- A new node, counted for the reference that is about to be recorded.
  pub IsCounted-new :
      (number_of_leaks : ℕ)
      → IsCounted owners st none
      → owners (length st) ≡ 0
      → IsCounted owners
          (new_memory_node number_of_leaks st).1
          (some (new_memory_node number_of_leaks st).0)
  unfolding new_memory_node hit edges_to fresh_node
  IsCounted-new number_of_leaks c unowned =
      let fresh = fresh_node number_of_leaks in
      record {
        counted = λ a lt.
            let size = length-append st (fresh ∷ []) in
            elim (Bool-cases (a == length st)) [
              | inl same ↦
                  let now : node_at (st ++ fresh ∷ []) a ≡ fresh =
                    ground (arith, get_or-append st fresh a (fresh_node 0)) in
                  let e : a ≡ length st = (==_iff a (length st)).0 same in
                  let total : owners a + edges_to a (st ++ fresh ∷ []) + hit (some (length st)) a
                      ≡ 1 =
                    ground (
                      arith,
                      c.closed a (omega arith),
                      edges_to-append a st (fresh ∷ []),
                      ap owners e,
                    ) in
                  ap (λ (x : MemoryNode). x.reference_pointing_to_me) now
                  ∙ fresh-count number_of_leaks
                  ∙ ap pos (sym total)
              | inr apart ↦
                  let now : node_at (st ++ fresh ∷ []) a ≡ node_at st a =
                    ground (arith, get_or-append st fresh a (fresh_node 0)) in
                  let total : owners a + edges_to a (st ++ fresh ∷ []) + hit (some (length st)) a
                      ≡ owners a + edges_to a st + 0 =
                    ground (arith, edges_to-append a st (fresh ∷ [])) in
                  ap (λ (x : MemoryNode). x.reference_pointing_to_me) now
                  ∙ c.counted a (ground arith)
                  ∙ ap pos (sym total)
            ];
        closed = λ a le.
            ground
              (arith, c.closed a, edges_to-append a st (fresh ∷ []), length-append st (fresh ∷ []));
      }

-- A list of owners takes over the reference that was pending.
pub IsCounted-owned :
    {owners owners' : ℕ → ℕ} {st : Store} (p : ℕ)
    → IsCounted owners st (some p)
    → ((a : ℕ) → owners' a ≡ owners a + hit (some p) a)
    → IsCounted owners' st none
unfolding hit
IsCounted-owned p c same = record {
  counted = λ a lt. c.counted a lt ∙ ap pos (omega (arith, same a));
  closed = λ a le. omega (arith, c.closed a le);
}
