-- ===== src/Node/Free/Total.antt =====
-- freeMemoryNode returns, uses no freed node, and frees a node when the last reference to it goes.
use jleaker.Common.{
  ap, ◌∙◌, ℕ, zero, suc, ◌+◌, ◌<◌, ◌≡◌, refl, inl, inr, Bool, true, false, Bool-cases, Option, none,
  some, length, arith,
}
use jleaker.Node.Defs.{node_at}
use jleaker.Node.Counts.{hit, refs_to}
use jleaker.Node.Update.{unvisited, unvisited-set}
use jleaker.Node.Free.Defs.{
  Memory, done, decrement, strip, without_lists, free_or_keep, after_references, free_references,
  free_memory_node,
}
use jleaker.Node.Free.Held.{visited_at, refs_at, IsHeld}
use jleaker.Node.Free.Frame.{Frame-refl}
use jleaker.Node.Free.Steps.{held_lt, IsHeld-decrement, IsHeld-strip, free_or_keep-Ended}
use jleaker.Node.Free.Loop.{Called, Looped, IsHeld-same, free_references-Looped}
use jleaker.Node.Free.Call.{
  begun, less_one, begun_freed, length-begun, begun_self, call_Called, less_one-Called,
}

-- The two ways on, once the node is known not to be freed.
call_marked :
    (fuel a : ℕ) (m : Memory)
    → m.freed a ≡ false
    → visited_at m a ≡ true
    → free_memory_node (suc fuel) (some a) m ≡ done false (less_one m a)
unfolding free_memory_node less_one decrement
call_marked fuel a m new marked = ground (arith, new, marked)

call_clear :
    (fuel a : ℕ) (m : Memory)
    → m.freed a ≡ false
    → visited_at m a ≡ false
    → free_memory_node (suc fuel) (some a) m
      ≡ after_references a (free_references (free_memory_node fuel) (refs_at m a) (begun m a))
unfolding free_memory_node begun decrement
call_clear fuel a m new clear = ground (arith, new, clear)

null_Called :
    (fuel : ℕ) (held : ℕ → ℕ) (m : Memory)
    → IsHeld (λ b. held b + hit none b) m
    → Called held m none (free_memory_node (suc fuel) none m)
unfolding free_memory_node hit
null_Called fuel held m h = record {
  answer = false;
  last = m;
  returns = refl;
  still_held = IsHeld-same _ held m (λ b. omega arith) h;
  frame = Frame-refl m;
  target = λ a e. absurd (cc);
  answered = λ a e. absurd (cc);
}

at_less_one :
    (held : ℕ → ℕ) (m : Memory) (a : ℕ)
    → IsHeld (λ b. held b + hit (some a) b) m
    → visited_at m a ≡ true
    → IsHeld held (less_one m a)
unfolding less_one
at_less_one held m a h marked = IsHeld-decrement held m a h marked

at_begun :
    (held : ℕ → ℕ) (m : Memory) (a : ℕ)
    → IsHeld (λ b. held b + hit (some a) b) m
    → visited_at m a ≡ false
    → IsHeld (λ b. held b + refs_to b (refs_at m a)) (begun m a)
unfolding begun
at_begun held m a h clear = IsHeld-strip held m a h clear

unvisited-begun :
    (m : Memory) (a : ℕ)
    → a < length m.nodes
    → visited_at m a ≡ false
    → unvisited (begun m a).nodes + 1 ≡ unvisited m.nodes
unfolding begun strip
unvisited-begun m a lt clear =
    ground (arith, unvisited-set m.nodes a (strip (decrement (node_at m.nodes a))) lt)

after_loop :
    (a : ℕ) (answer : Bool) (loop : Memory)
    → after_references a (done answer loop)
      ≡ free_or_keep a (without_lists (node_at loop.nodes a)) loop
unfolding after_references
after_loop a answer loop = refl

ended :
    (held : ℕ → ℕ) (m : Memory) (a : ℕ) (lt : a < length m.nodes) (new : m.freed a ≡ false)
    (clear : visited_at m a ≡ false) (fuel : ℕ)
    → Looped held
        (begun m a)
        (refs_at m a)
        (free_references (free_memory_node fuel) (refs_at m a) (begun m a))
    → Called held m (some a) (free_memory_node (suc fuel) (some a) m)
ended held m a lt new clear fuel loop =
    let marked = (begun_self held m a lt new clear).0 in
    let e =
      free_or_keep-Ended held loop.last a loop.still_held
        (omega (arith, loop.frame.same_length, length-begun held m a lt new clear))
        (loop.frame.alive a marked ∙ begun_freed held m a lt new clear a ∙ new)
        (loop.frame.kept a marked) in
    call_Called held m a lt new clear loop.last loop.frame loop.targets _ e _ (
      call_clear fuel a m new clear
      ∙ ap (after_references a) loop.returns
      ∙ after_loop a false loop.last
      ∙ e.returns)

-- Let each node's count be the number of references to it: those in the lists of nodes that are not being
-- freed, `held` ones from elsewhere, and for the node `p` the one that the call drops; let there be
-- no reference to a freed node, and none but freed nodes without a reference. Then freeMemoryNode,
-- with fuel for one call more than there are unmarked nodes, returns without using a freed node, and the same
-- holds behind it with the reference dropped. Nodes that are marked before stay so and are not freed; all
-- others are unmarked again, or freed and empty; each node keeps its references, or has lost
-- them all and the nodes it referred to have too. If the node was not marked, the result says whether it was
-- freed.
pub free_memory_node-Called :
    (fuel : ℕ) (held : ℕ → ℕ) (m : Memory) (p : Option ℕ)
    → IsHeld (λ b. held b + hit p b) m
    → unvisited m.nodes < fuel
    → Called held m p (free_memory_node fuel p m)
free_memory_node-Called zero held m p h enough = absurd (omega arith)
free_memory_node-Called (suc fuel) held m none h enough = null_Called fuel held m h
free_memory_node-Called (suc fuel) held m (some a) h enough =
    let (lt, new) = held_lt held m a h in
    elim (Bool-cases (visited_at m a)) [
      | inl marked ↦
          less_one-Called held m a lt _ (call_marked fuel a m new marked) marked
            (at_less_one held m a h marked)
      | inr clear ↦
          let few = unvisited-begun m a lt clear in
          let loop : Looped held (begun m a) (refs_at m a)
              (free_references (free_memory_node fuel) (refs_at m a) (begun m a)) =
            free_references-Looped (free_memory_node fuel) (unvisited (begun m a).nodes)
              (λ k n q g le. free_memory_node-Called fuel k n q g (omega arith)) (refs_at m a) held
              (begun m a) (at_begun held m a h clear) (omega arith) in
          ended held m a lt new clear fuel loop
    ]
