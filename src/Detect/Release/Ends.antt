-- ===== src/Detect/Release/Ends.antt =====
-- src/cpp/leak_detect.c, untagAllClasses: the release when class nodes may have references.
use jleaker.Common.{
  ltb, ltb→lt, ◌∙◌, ℕ, ◌+◌, ◌<◌, ◌≤◌, ◌≡◌, refl, ◌⊎◌, inl, inr, ap, true, false, Bool-cases, some,
  none, List, [], ◌∷◌, length, arith,
}
use jleaker.Node.Defs.{Store, node_at}
use jleaker.Node.Counts.{IsCounted}
use jleaker.Node.Update.{unvisited, unvisited-le}
use jleaker.Node.Free.{Memory, Freed, free_memory_node}
use jleaker.Node.Free.Held.{refs_at, IsHeld}
use jleaker.Node.Free.Frame.{Frame-trans, stays_empty}
use jleaker.Node.Free.Loop.{Called, IsHeld-same, fewer_unvisited}
use jleaker.Node.Free.Total.{free_memory_node-Called}
use jleaker.Node.Free.Owners.{
  owners_of, Dropped, Dropped-nil, Dropped-cons, next-IsHeld, Leads, fresh_memory, fresh-IsHeld,
  all_freed,
}
use jleaker.Detect.Search.{LeakingNode}
use jleaker.Detect.Release.{
  Released, misread, released, free_class_nodes, release_nodes, leak_nodes, owners,
  leak_list-Dropped, after_leaks, next_class,
}

-- The loop stops at a node that is not freed, or drops the whole list.
abbrev Ends : (ℕ → ℕ) → Memory → List ℕ → Released → Type 0
Ends held m nodes r =
    (r ≡ misread) ⊎ ((last : Memory) × (r ≡ released last) × Dropped held m nodes last)

stuck :
    (fuel node : ℕ) (nodes : List ℕ) (m m' : Memory)
    → free_memory_node fuel (some node) m ≡ Freed.done false m'
    → free_class_nodes fuel (node ∷ nodes) m ≡ misread
unfolding free_class_nodes
stuck fuel node nodes m m' e = rw (e, free_class_nodes)

class_nodes_end :
    (fuel : ℕ) (nodes : List ℕ) (held : ℕ → ℕ) (m : Memory)
    → IsHeld (λ b. held b + owners_of nodes b) m
    → unvisited m.nodes < fuel
    → Ends held m nodes (free_class_nodes fuel nodes m)
unfolding free_class_nodes
class_nodes_end fuel [] held m h enough = inr (m, refl, Dropped-nil held m h)
class_nodes_end fuel (node ∷ nodes) held m h enough =
    let one : Called (λ b. held b + owners_of nodes b) m (some node)
        (free_memory_node fuel (some node) m) =
      free_memory_node-Called fuel _ m (some node) (next-IsHeld held m node nodes h) enough in
    elim (Bool-cases one.answer) [
      | inr kept ↦
          inl
            (stuck fuel node nodes m one.last (one.returns ∙ ap (λ b. Freed.done b one.last) kept))
      | inl gone ↦
          let step =
            next_class fuel node nodes m one.last
              (one.returns ∙ ap (λ b. Freed.done b one.last) gone) in
          elim (class_nodes_end fuel nodes held one.last one.still_held
            (omega (arith, fewer_unvisited one.frame))) [
              | inl e ↦ inl (step ∙ e)
              | inr (last, e, more) ↦ inr (last, step ∙ e, Dropped-cons held m node nodes one more)
            ]
    ]

-- Each owned node has lost its references behind the two loops.
both_emptied :
    (st : Store) (leaks : List LeakingNode) (class_nodes : List ℕ) (held held' : ℕ → ℕ)
    (m1 m2 : Memory)
    → ((a : ℕ) → (node_at st a).visited ≡ false)
    → Dropped held (fresh_memory st) (leak_nodes leaks) m1
    → Dropped held' m1 class_nodes m2
    → (a : ℕ) → 0 < owners leaks class_nodes a
    → refs_at m2 a ≡ []
both_emptied st leaks class_nodes held held' m1 m2 clear d1 d2 a lt =
    elim (Bool-cases (ltb 0 (owners_of (leak_nodes leaks) a))) [
      | inl leaks_it ↦ elim (d1.emptied a (ltb→lt 0 _ leaks_it)) [
        | inl marked ↦ absurd (cc (clear a))
        | inr none_left ↦ stays_empty d2.frame a none_left
      ]
      | inr not_a_leak ↦ elim (d2.emptied a (ground arith)) [
        | inr none_left ↦ none_left
        | inl marked ↦ elim (d1.frame.new a marked) [
          | inl old ↦ absurd (cc (clear a))
          | inr (gone, none_left) ↦ stays_empty d2.frame a none_left
        ]
      ]
    ]

-- Without a condition on the class nodes, either one of them is not freed at its turn, or every node
-- is freed.
pub release_nodes_end :
    (st : Store) (leaks : List LeakingNode) (class_nodes : List ℕ) (fuel : ℕ)
    → IsCounted (owners leaks class_nodes) st none
    → ((a : ℕ) → (node_at st a).visited ≡ false)
    → ((a : ℕ) → length st ≤ a → owners leaks class_nodes a ≡ 0)
    → ((a : ℕ) → a < length st → Leads (owners leaks class_nodes) st a)
    → length st < fuel
    → (release_nodes fuel leaks class_nodes (fresh_memory st) ≡ misread)
      ⊎ ((last : Memory) × (release_nodes fuel leaks class_nodes (fresh_memory st) ≡ released last)
          × ((a : ℕ) → a < length st → last.freed a ≡ true)
          × (last.nodes_freed ≡ length st))
release_nodes_end st leaks class_nodes fuel counts clear in_store led enough =
    let (m1, e1, d1) =
      leak_list-Dropped fuel leaks (owners_of class_nodes) (fresh_memory st)
        (IsHeld-same _ _ (fresh_memory st) (λ b. omega arith)
          (fresh-IsHeld (owners leaks class_nodes) st counts clear in_store led))
        (omega (arith, unvisited-le st)) in
    let step = after_leaks fuel leaks class_nodes (fresh_memory st) m1 e1 in
    elim (class_nodes_end fuel class_nodes (λ b. 0) m1
      (IsHeld-same _ _ m1 (λ b. omega arith) d1.still_held)
      (omega (arith, unvisited-le st, fewer_unvisited d1.frame))) [
        | inl e ↦ inl (step ∙ e)
        | inr (m2, e, d2) ↦
            let (each, count) =
              all_freed (owners leaks class_nodes) st counts clear in_store led m2
                (Frame-trans d1.frame d2.frame)
                (both_emptied st leaks class_nodes (owners_of class_nodes) (λ b. 0) m1 m2 clear d1
                  d2)
                d2.still_held in
            inr (m2, step ∙ e, each, count)
      ]
