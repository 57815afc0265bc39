-- ===== src/Node/Free/Call.antt =====
-- One call of freeMemoryNode, from the state before it to the one behind it.
use jleaker.Common.{
  ap, sym, subst, ◌∙◌, ℕ, ◌<◌, ◌≡◌, refl, ◌⊎◌, inl, inr, ◌==◌, ==_iff, true, false, Bool-cases,
  some, List, [], length, length-set, arith,
}
use jleaker.Node.Defs.{MemoryReferer, MemoryNode, node_at}
use jleaker.Node.Update.{part-set, node_at-set_self, node_at-set_other}
use jleaker.Node.Free.Defs.{Memory, Freed, done, write_node, decrement, strip}
use jleaker.Node.Free.Held.{visited_at, refs_at, IsHeld}
use jleaker.Node.Free.Frame.{AreEmptied, Frame}
use jleaker.Node.Free.Steps.{Ended}
use jleaker.Node.Free.Loop.{Called}

-- The memory in the call for `a` as it begins, and where it returns at once.
unfoldable pub begun : Memory → ℕ → Memory
begun m a = write_node a (strip (decrement (node_at m.nodes a))) m

unfoldable pub less_one : Memory → ℕ → Memory
less_one m a = write_node a (decrement (node_at m.nodes a)) m

-- The memory in the call for `a`: as it begins, behind the loop over the references, and at the end.
module _ (held : ℕ → ℕ) (m : Memory) (a : ℕ) (lt : a < length m.nodes) (new : m.freed a ≡ false)
    (clear : visited_at m a ≡ false) where
  pub begun_freed : (b : ℕ) → (begun m a).freed b ≡ m.freed b
  unfolding begun
  begun_freed b = refl

  pub length-begun : length (begun m a).nodes ≡ length m.nodes
  unfolding begun
  length-begun = length-set m.nodes a (strip (decrement (node_at m.nodes a)))

  pub begun_self : (visited_at (begun m a) a ≡ true) × (refs_at (begun m a) a ≡ refs_at m a)
  unfolding begun strip decrement
  begun_self =
      let e = node_at-set_self m.nodes a (strip (decrement (node_at m.nodes a))) lt in
      (ap (λ (n : MemoryNode). n.visited) e, ap (λ (n : MemoryNode). n.referers) e)

  begun_other : (b : ℕ) → (a == b) ≡ false → node_at (begun m a).nodes b ≡ node_at m.nodes b
  unfolding begun
  begun_other b apart =
      node_at-set_other m.nodes a b (strip (decrement (node_at m.nodes a))) lt apart

  -- A node that is marked in `(begun m a)` was so, or it is the one.
  was_marked : (b : ℕ) → visited_at (begun m a) b ≡ true → (a ≡ b) ⊎ (visited_at m b ≡ true)
  was_marked b h = elim (Bool-cases (a == b)) [
    | inl same ↦ inl ((==_iff a b).0 same)
    | inr apart ↦ inr (sym (ap (λ (n : MemoryNode). n.visited) (begun_other b apart)) ∙ h)
  ]

  marked_apart : (b : ℕ) → visited_at m b ≡ true → (a == b) ≡ false
  marked_apart b h = elim (Bool-cases (a == b)) [
    | inl same ↦ absurd (cc (ap (visited_at m) ((==_iff a b).0 same)))
    | inr apart ↦ apart
  ]

  module _ (loop : Memory) (f : Frame (begun m a) loop)
      (targets : AreEmptied (begun m a) loop (refs_at m a)) (r : Freed)
      (e : Ended held loop a r) where
    lt_loop : a < length loop.nodes
    lt_loop = omega (arith, f.same_length, length-begun)

    end_self : node_at e.last.nodes a ≡ e.node
    end_self = ap (λ ns. node_at ns a) e.written ∙ node_at-set_self loop.nodes a e.node lt_loop

    end_other : (b : ℕ) → (a == b) ≡ false → node_at e.last.nodes b ≡ node_at loop.nodes b
    end_other b apart =
        ap (λ ns. node_at ns b) e.written ∙ node_at-set_other loop.nodes a b e.node lt_loop apart

    freed_other : (b : ℕ) → (a == b) ≡ false → e.last.freed b ≡ loop.freed b
    freed_other b apart = elim (Bool-cases e.answer) [
      | inl yes' ↦ ap (λ g. g b) (e.freed_here yes') ∙ ground arith
      | inr no' ↦ ap (λ g. g b) (e.kept_here no')
    ]

    refs_self : refs_at e.last a ≡ []
    refs_self = ap (λ (n : MemoryNode). n.referers) end_self ∙ e.emptied

    refs_other : (b : ℕ) → (a == b) ≡ false → refs_at e.last b ≡ refs_at loop b
    refs_other b apart = ap (λ (n : MemoryNode). n.referers) (end_other b apart)

    visited_other : (b : ℕ) → (a == b) ≡ false → visited_at e.last b ≡ visited_at loop b
    visited_other b apart = ap (λ (n : MemoryNode). n.visited) (end_other b apart)

    -- What the loop emptied, seen from before the call.
    seen_before :
        (refs : List MemoryReferer) → AreEmptied (begun m a) loop refs → AreEmptied m e.last refs
    seen_before refs all c h = elim (Bool-cases (a == c)) [
      | inl same ↦ inr (subst (λ b. refs_at e.last b ≡ []) ((==_iff a c).0 same) refs_self)
      | inr apart ↦ elim (all c h) [
        | inr none_left ↦ inr (refs_other c apart ∙ none_left)
        | inl marked ↦ inl (sym (ap (λ (n : MemoryNode). n.visited) (begun_other c apart)) ∙ marked)
      ]
    ]

    -- A node that stays marked was freed.
    freed_self : visited_at e.last a ≡ true → e.last.freed a ≡ true
    freed_self h = elim (Bool-cases e.answer) [
      | inl yes' ↦ ap (λ g. g a) (e.freed_here yes') ∙ rw ((==_iff a a).1 refl)
      | inr no' ↦ absurd (cc (ap (λ (n : MemoryNode). n.visited) end_self, e.unmarked no', h))
    ]

    call_new :
        (b : ℕ)
        → visited_at e.last b ≡ true
        → (visited_at m b ≡ true) ⊎ ((e.last.freed b ≡ true) × (refs_at e.last b ≡ []))
    call_new b h = elim (Bool-cases (a == b)) [
      | inl same ↦ inr (
          subst (λ c. (e.last.freed c ≡ true) × (refs_at e.last c ≡ [])) ((==_iff a b).0 same)
            (freed_self (ap (visited_at e.last) ((==_iff a b).0 same) ∙ h), refs_self))
      | inr apart ↦ elim (f.new b (sym (visited_other b apart) ∙ h)) [
        | inl marked ↦ inl (sym (ap (λ (n : MemoryNode). n.visited) (begun_other b apart)) ∙ marked)
        | inr (gone, none_left) ↦ inr (freed_other b apart ∙ gone, refs_other b apart ∙ none_left)
      ]
    ]

    call-Frame : Frame m e.last
    call-Frame = record {
      same_length =
          ap length e.written ∙ length-set loop.nodes a e.node ∙ f.same_length ∙ length-begun;
      kept = λ b h.
          let apart = marked_apart b h in
          visited_other b apart
          ∙ f.kept b (ap (λ (n : MemoryNode). n.visited) (begun_other b apart) ∙ h);
      new = call_new;
      alive = λ b h.
          let apart = marked_apart b h in
          freed_other b apart
          ∙ f.alive b (ap (λ (n : MemoryNode). n.visited) (begun_other b apart) ∙ h)
          ∙ begun_freed b;
      emptied = λ b. elim (Bool-cases (a == b)) [
        | inl same ↦
            subst
              (λ c.
                (refs_at e.last c ≡ refs_at m c)
                ⊎ ((refs_at e.last c ≡ []) × AreEmptied m e.last (refs_at m c)))
              ((==_iff a b).0 same) (inr (refs_self, seen_before (refs_at m a) targets))
        | inr apart ↦
            let old : refs_at (begun m a) b ≡ refs_at m b =
              ap (λ (n : MemoryNode). n.referers) (begun_other b apart) in
            elim (f.emptied b) [
              | inl kept ↦ inl (refs_other b apart ∙ kept ∙ old)
              | inr (none_left, all) ↦ inr (
                refs_other b apart ∙ none_left,
                seen_before (refs_at m b) (subst (AreEmptied (begun m a) loop) old all),
              )
            ]
      ];
    }

    -- The answer says whether the node was freed.
    answer_self : e.answer ≡ e.last.freed a
    answer_self = elim (Bool-cases e.answer) [
      | inl yes' ↦ yes' ∙ sym (ap (λ g. g a) (e.freed_here yes') ∙ rw ((==_iff a a).1 refl))
      | inr no' ↦
          no' ∙ sym (ap (λ g. g a) (e.kept_here no') ∙ f.alive a begun_self.0 ∙ begun_freed a ∙ new)
    ]

    pub call_Called : (call : Freed) → call ≡ done e.answer e.last → Called held m (some a) call
    call_Called call returns = record {
      answer = e.answer;
      last = e.last;
      returns = returns;
      still_held = e.still_held;
      frame = call-Frame;
      target = λ c same. inr (subst (λ b. refs_at e.last b ≡ []) (same_address same) refs_self);
      answered =
          λ c same out. subst (λ b. e.answer ≡ e.last.freed b) (same_address same) answer_self;
    }
      where
        same_address : {b c : ℕ} → some b ≡ some c → b ≡ c
        same_address q = cc

-- The first return: the node is being freed already.
module _ (held : ℕ → ℕ) (m : Memory) (a : ℕ) (lt : a < length m.nodes) where
  less_one_parts :
      (b : ℕ)
      → (visited_at (less_one m a) b ≡ visited_at m b) × (refs_at (less_one m a) b ≡ refs_at m b)
  unfolding less_one decrement
  less_one_parts b = (
    part-set (λ n. n.visited) m.nodes a b (decrement (node_at m.nodes a)) lt refl,
    part-set (λ n. n.referers) m.nodes a b (decrement (node_at m.nodes a)) lt refl,
  )

  pub less_one-Called :
      (r : Freed)
      → r ≡ done false (less_one m a)
      → visited_at m a ≡ true
      → IsHeld held (less_one m a)
      → Called held m (some a) r
  unfolding less_one
  less_one-Called r returns marked h = record {
    answer = false;
    last = (less_one m a);
    returns = returns;
    still_held = h;
    frame = record {
      same_length = length-set m.nodes a (decrement (node_at m.nodes a));
      kept = λ b old. (less_one_parts b).0 ∙ old;
      new = λ b now. inl (sym (less_one_parts b).0 ∙ now);
      alive = λ b old. refl;
      emptied = λ b. inl (less_one_parts b).1;
    };
    target = λ c same. inl (subst (λ b. visited_at m b ≡ true) (same_address same) marked);
    answered =
        λ c same out. absurd (cc (subst (λ b. visited_at m b ≡ true) (same_address same) marked));
  }
    where
      same_address : {b c : ℕ} → some b ≡ some c → b ≡ c
      same_address q = cc
