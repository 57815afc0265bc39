-- ===== src/Detect/Release.antt =====
-- src/cpp/data_struct.c, freeMemoryForLeakList, and src/cpp/leak_detect.c, untagAllClasses: the end of a
-- dump drops what the list of leaks and the class nodes hold.
pub mod Ends
mod Tests
use jleaker.Common.{
  ==_refl, ltb, ltb→lt, ap, sym, subst, ◌∙◌, ℕ, zero, suc, ◌+◌, ◌≤◌, ◌<◌, ◌≡◌, refl, ◌⊎◌, inl, inr,
  Bool, true, false, Bool-cases, Option, none, some, List, [], ◌∷◌, map, length, arith,
}
use jleaker.Node.Defs.{MemoryReferer, MemoryNode, Store, node_at}
use jleaker.Node.Counts.{hit, IsCounted}
use jleaker.Node.Update.{unvisited, unvisited-le}
use jleaker.Node.Free.{Memory, Freed, free_memory_node}
use jleaker.Node.Free.Held.{live_edges_empty, visited_at, refs_at, IsHeld}
use jleaker.Node.Free.Frame.{Frame, Frame-refl, Frame-trans, stays_empty}
use jleaker.Node.Free.Loop.{Called, IsHeld-same, fewer_unvisited}
use jleaker.Node.Free.Total.{free_memory_node-Called}
use jleaker.Node.Free.Owners.{
  owners_of, Dropped, Dropped-nil, Dropped-cons, next-IsHeld, Leads, fresh_memory, fresh-IsHeld,
  all_emptied, all_freed,
}
use jleaker.Detect.Search.{LeakingNode}

-- freeMemoryForLeakList. The result of freeMemoryNode is not looked at.
unfoldable pub free_memory_for_leak_list : (fuel : ℕ) → List LeakingNode → Memory → Freed
unfolding free_memory_node
free_memory_for_leak_list fuel [] m = Freed.done true m
free_memory_for_leak_list fuel (leak ∷ leaks) m = elim (free_memory_node fuel (some leak.node) m) [
  | Freed.exhausted ↦ Freed.exhausted
  | Freed.faulted ↦ Freed.faulted
  | Freed.done answer m' ↦ free_memory_for_leak_list fuel leaks m'
]

-- What the release of the class nodes does. `misread` means that a node was not freed: to warn of it the
-- code reads the class from the array that it has deallocated, and what follows is not determined.
pub data Released : Type 0 where
  exhausted faulted misread : Released
  released : Memory → Released

-- The loop at the end of untagAllClasses.
unfoldable pub free_class_nodes : (fuel : ℕ) → (class_nodes : List ℕ) → Memory → Released
unfolding free_memory_node
free_class_nodes fuel [] m = released m
free_class_nodes fuel (node ∷ nodes) m = elim (free_memory_node fuel (some node) m) [
  | Freed.exhausted ↦ exhausted
  | Freed.faulted ↦ faulted
  | Freed.done freed m' ↦ elim freed [ true ↦ free_class_nodes fuel nodes m' | false ↦ misread ]
]

-- The end of findLeaksInTaggedObjects: freeMemoryForLeakList, then untagAllClasses.
unfoldable pub release_nodes :
    (fuel : ℕ) → List LeakingNode → (class_nodes : List ℕ) → Memory → Released
unfolding free_memory_for_leak_list free_class_nodes
release_nodes fuel leaks class_nodes m = elim (free_memory_for_leak_list fuel leaks m) [
  | Freed.exhausted ↦ exhausted
  | Freed.faulted ↦ faulted
  | Freed.done answer m' ↦ free_class_nodes fuel class_nodes m'
]

-- The nodes in the list of leaks.
abbrev pub leak_nodes : List LeakingNode → List ℕ
leak_nodes leaks = map (λ (l : LeakingNode). l.node) leaks

next_leak :
    (fuel : ℕ) (leak : LeakingNode) (leaks : List LeakingNode) (m m' : Memory) (answer : Bool)
    → free_memory_node fuel (some leak.node) m ≡ Freed.done answer m'
    → free_memory_for_leak_list fuel (leak ∷ leaks) m ≡ free_memory_for_leak_list fuel leaks m'
unfolding free_memory_for_leak_list
next_leak fuel leak leaks m m' answer e = rw (e, free_memory_for_leak_list)

pub leak_list-Dropped :
    (fuel : ℕ) (leaks : List LeakingNode) (held : ℕ → ℕ) (m : Memory)
    → IsHeld (λ b. held b + owners_of (leak_nodes leaks) b) m
    → unvisited m.nodes < fuel
    → (last : Memory) × (free_memory_for_leak_list fuel leaks m ≡ Freed.done true last)
      × Dropped held m (leak_nodes leaks) last
unfolding free_memory_for_leak_list
leak_list-Dropped fuel [] held m h enough = (m, refl, Dropped-nil held m h)
leak_list-Dropped fuel (leak ∷ leaks) held m h enough =
    let one : Called (λ b. held b + owners_of (leak_nodes leaks) b) m (some leak.node)
        (free_memory_node fuel (some leak.node) m) =
      free_memory_node-Called fuel _ m (some leak.node)
        (next-IsHeld held m leak.node (leak_nodes leaks) h) enough in
    let (last, e, more) =
      leak_list-Dropped fuel leaks held one.last one.still_held
        (omega (arith, fewer_unvisited one.frame)) in
    (
      last,
      next_leak fuel leak leaks m one.last one.answer one.returns ∙ e,
      Dropped-cons held m leak.node (leak_nodes leaks) one more,
    )

pub next_class :
    (fuel node : ℕ) (nodes : List ℕ) (m m' : Memory)
    → free_memory_node fuel (some node) m ≡ Freed.done true m'
    → free_class_nodes fuel (node ∷ nodes) m ≡ free_class_nodes fuel nodes m'
unfolding free_class_nodes
next_class fuel node nodes m m' e = rw (e, free_class_nodes)

-- Between the calls no node has references, and those that are marked are freed.
record IsBare (m : Memory) : Type 0 where
  bare : (a : ℕ) → refs_at m a ≡ []
  settled : (a : ℕ) → visited_at m a ≡ true → m.freed a ≡ true

IsBare-after : {m m' : Memory} → Frame m m' → IsBare m → IsBare m'
IsBare-after {m} {m'} frame b = record {
  bare = λ a. stays_empty frame a (b.bare a);
  settled = λ a marked. elim (frame.new a marked) [
    | inl old ↦ frame.alive a old ∙ b.settled a old
    | inr (gone, none_left) ↦ gone
  ];
}

-- The owner that drops the last reference frees the node.
last_owner :
    (x : ℕ) (xs : List ℕ) (m : Memory) {r : Freed}
    → (one : Called (owners_of xs) m (some x) r) → IsBare m
    → IsHeld (owners_of (x ∷ xs)) m
    → owners_of (x ∷ xs) x ≤ 1
    → one.answer ≡ true
unfolding owners_of hit
last_owner x xs m one b h once =
    let here : 0 < owners_of (x ∷ xs) x = ground (arith, ==_refl x) in
    let new : visited_at m x ≡ false = elim (Bool-cases (visited_at m x)) [
      | inr out ↦ out
      | inl marked ↦ absurd (omega (arith, h.dropped x (b.settled x marked), here))
    ] in
    let answer : one.answer ≡ one.last.freed x = one.answered x refl new in
    elim (Bool-cases (one.last.freed x)) [
      | inl gone ↦ answer ∙ gone
      | inr left ↦ absurd (held_still x xs m one b h once here new left)
    ]
  where
    held_still :
        (x : ℕ) (xs : List ℕ) (m : Memory) {r : Freed} (one : Called (owners_of xs) m (some x) r)
        → IsBare m
        → IsHeld (owners_of (x ∷ xs)) m
        → owners_of (x ∷ xs) x ≤ 1
        → 0 < owners_of (x ∷ xs) x
        → visited_at m x ≡ false
        → one.last.freed x ≡ false
        → ⊥
    held_still x xs m one b h once here new left =
        let after = IsBare-after one.frame b in
        let out : visited_at one.last x ≡ false = elim (Bool-cases (visited_at one.last x)) [
          | inr out ↦ out
          | inl marked ↦ let gone : one.last.freed x ≡ true = after.settled x marked in absurd (cc)
        ] in
        let within : x < length one.last.nodes = elim (Bool-cases (ltb x (length one.last.nodes))) [
          | inl lt ↦ ltb→lt x (length one.last.nodes) lt
          | inr past ↦
              absurd (omega (arith, h.closed x (ground (arith, one.frame.same_length)), here))
        ] in
        ground (
          arith,
          one.still_held.positive x within out,
          live_edges_empty x one.last.nodes after.bare,
          ==_refl x,
        )

class_nodes_freed :
    (fuel : ℕ) (nodes : List ℕ) (m : Memory)
    → IsHeld (owners_of nodes) m
    → IsBare m
    → ((a : ℕ) → owners_of nodes a ≤ 1)
    → unvisited m.nodes < fuel
    → (last : Memory) × (free_class_nodes fuel nodes m ≡ released last)
      × IsHeld (λ b. 0) last
      × Frame m last
unfolding free_class_nodes owners_of
class_nodes_freed fuel [] m h bare once enough =
    (m, refl, IsHeld-same _ _ m (λ b. omega arith) h, Frame-refl m)
class_nodes_freed fuel (x ∷ xs) m h bare once enough =
    let one : Called (owners_of xs) m (some x) (free_memory_node fuel (some x) m) =
      free_memory_node-Called fuel (owners_of xs) m (some x)
        (IsHeld-same _ _ m (λ b. omega arith) h) enough in
    let answer = last_owner x xs m one bare h (once x) in
    let (last, e, held, frame) =
      class_nodes_freed fuel xs one.last one.still_held (IsBare-after one.frame bare)
        (λ a. omega (arith, once a)) (omega (arith, fewer_unvisited one.frame)) in
    (
      last,
      next_class fuel x xs m one.last (one.returns ∙ ap (λ b. Freed.done b one.last) answer) ∙ e,
      held,
      Frame-trans one.frame frame,
    )

-- How often the two lists hold a node.
abbrev pub owners : List LeakingNode → List ℕ → ℕ → ℕ
owners leaks class_nodes a = owners_of (leak_nodes leaks) a + owners_of class_nodes a

pub after_leaks :
    (fuel : ℕ) (leaks : List LeakingNode) (class_nodes : List ℕ) (m m' : Memory)
    → free_memory_for_leak_list fuel leaks m ≡ Freed.done true m'
    → release_nodes fuel leaks class_nodes m ≡ free_class_nodes fuel class_nodes m'
unfolding release_nodes
after_leaks fuel leaks class_nodes m m' e = rw (e, release_nodes)

-- Behind the first loop no owned node has references, if those in the list of classes never had.
owned_emptied :
    (st : Store) (leaks : List LeakingNode) (class_nodes : List ℕ) (held : ℕ → ℕ) (m : Memory)
    → ((a : ℕ) → (node_at st a).visited ≡ false)
    → ((a : ℕ) → 0 < owners_of class_nodes a → (node_at st a).referers ≡ [])
    → Dropped held (fresh_memory st) (leak_nodes leaks) m
    → (a : ℕ) → 0 < owners leaks class_nodes a
    → refs_at m a ≡ []
owned_emptied st leaks class_nodes held m clear no_refs d a lt =
    elim (Bool-cases (ltb 0 (owners_of (leak_nodes leaks) a))) [
      | inl leaks_it ↦ elim (d.emptied a (ltb→lt 0 _ leaks_it)) [
        | inl marked ↦ absurd (cc (clear a))
        | inr none_left ↦ none_left
      ]
      | inr not_a_leak ↦ stays_empty d.frame a (no_refs a (ground arith))
    ]

-- At the end of a dump, let each node's count be the number of its referers and of its places in the list of
-- leaks and among the class nodes, as the heap walk keeps it; let no node be marked as visited, these two
-- lists point into the store, and every node be reached from one of them along recorded
-- references, which may run in cycles; let no node stand twice among the class nodes, and these have
-- no referers: FollowReferences is told to leave objects out whose class has no tag, as
-- java.lang.Class has none unless it is tagged as a referrer. Then
-- freeMemoryForLeakList and untagAllClasses return, with fuel for one call more than there are nodes; they
-- follow no pointer to a node that is freed; each class node is freed at its turn, so that there
-- is no warning and the deallocated array of classes is not read; and they free every node, so that
-- nodes_freed is the number of nodes that were allocated.
pub release_nodes_lem :
    (st : Store) (leaks : List LeakingNode) (class_nodes : List ℕ) (fuel : ℕ)
    → IsCounted (owners leaks class_nodes) st none
    → ((a : ℕ) → (node_at st a).visited ≡ false)
    → ((a : ℕ) → length st ≤ a → owners leaks class_nodes a ≡ 0)
    → ((a : ℕ) → a < length st → Leads (owners leaks class_nodes) st a)
    → ((a : ℕ) → owners_of class_nodes a ≤ 1)
    → ((a : ℕ) → 0 < owners_of class_nodes a → (node_at st a).referers ≡ [])
    → length st < fuel
    → (last : Memory) × (release_nodes fuel leaks class_nodes (fresh_memory st) ≡ released last)
      × ((a : ℕ) → a < length st → last.freed a ≡ true)
      × (last.nodes_freed ≡ length st)
release_nodes_lem st leaks class_nodes fuel counts clear in_store led once no_refs enough =
    let (m1, e1, d1) =
      leak_list-Dropped fuel leaks (owners_of class_nodes) (fresh_memory st)
        (IsHeld-same _ _ (fresh_memory st) (λ b. omega arith)
          (fresh-IsHeld (owners leaks class_nodes) st counts clear in_store led))
        (omega (arith, unvisited-le st)) in
    let emptied = owned_emptied st leaks class_nodes (owners_of class_nodes) m1 clear no_refs d1 in
    let bare : IsBare m1 = record {
      bare =
          all_emptied (owners leaks class_nodes) st counts clear in_store led m1 d1.frame emptied;
      settled = λ a marked. elim (d1.frame.new a marked) [
        | inl old ↦ absurd (cc (clear a))
        | inr (gone, none_left) ↦ gone
      ];
    } in
    let (m2, e2, held, frame) =
      class_nodes_freed fuel class_nodes m1 d1.still_held bare once
        (omega (arith, unvisited-le st, fewer_unvisited d1.frame)) in
    let (each, count) =
      all_freed (owners leaks class_nodes) st counts clear in_store led m2
        (Frame-trans d1.frame frame) (λ a lt. stays_empty frame a (emptied a lt)) held in
    (m2, after_leaks fuel leaks class_nodes (fresh_memory st) m1 e1 ∙ e2, each, count)
