-- ===== src/Node/Free/Steps.antt =====
-- The writes of freeMemoryNode keep the count of each node equal to the references to it.
use jleaker.Common.{
  ltb, ltb→lt, ap, sym, subst, ◌∙◌, ℕ, zero, suc, ◌+◌, ◌<◌, ◌≡◌, refl, ◌==◌, ==_iff, Bool, true,
  false, if◌then◌else◌, Bool-cases, inl, inr, some, [], length, set, length-set, arith,
}
use jleaker.Common.Int.{ℤ, pos, ◌-ℤ◌, -ℤ_parts, eq_of_parts, ltb_ℤ}
use jleaker.Node.Defs.{MemoryNode, Store, node_at}
use jleaker.Node.Counts.{hit, refs_to}
use jleaker.Node.Update.{node_at-set_self, node_at-set_other}
use jleaker.Node.Free.Defs.{
  Memory, Freed, done, write_node, decrement, strip, without_lists, free_or_keep,
}
use jleaker.Node.Free.Held.{
  given_by, live_edges, live_edges-set, visited_at, refs_at, freed_total, IsHeld,
}

abbrev all_refs : (ℕ → ℕ) → Store → ℕ → ℕ
all_refs held nodes b = held b + live_edges b nodes

-- A write of a node that is not freed, whose count falls by `d` as `d` of its references go.
module _ (held held' : ℕ → ℕ) (m : Memory) (h : IsHeld held m) (a d : ℕ) (n : MemoryNode)
    (lt : a < length m.nodes) (here : m.freed a ≡ false)
    (count : (x : ℕ)
      → (node_at m.nodes a).reference_pointing_to_me ≡ pos (x + d)
      → n.reference_pointing_to_me ≡ pos x)
    (moved : (b : ℕ)
      → held' b + given_by b n + (if a == b then d else 0)
        ≡ held b + given_by b (node_at m.nodes a))
    (stays : n.visited ≡ false → 0 < held' a + live_edges a (set m.nodes a n)) where
  refs_after_lem :
      (b : ℕ)
      → all_refs held' (set m.nodes a n) b + (if a == b then d else 0)
        ≡ held b + live_edges b m.nodes
  refs_after_lem b = omega (arith, moved b, live_edges-set b m.nodes a n lt)

  counted_after :
      (b : ℕ)
      → b < length m.nodes
      → m.freed b ≡ false
      → (node_at (set m.nodes a n) b).reference_pointing_to_me
        ≡ pos (all_refs held' (set m.nodes a n) b)
  counted_after b within new = elim (Bool-cases (a == b)) [
    | inl same ↦
        let e : a ≡ b = (==_iff a b).0 same in
        subst
          (λ c.
            (node_at (set m.nodes a n) c).reference_pointing_to_me
            ≡ pos (all_refs held' (set m.nodes a n) c))
          e
          (ap (λ (x : MemoryNode). x.reference_pointing_to_me) (node_at-set_self m.nodes a n lt)
            ∙ count (all_refs held' (set m.nodes a n) a)
                (h.counted a lt here ∙ ap pos (sym (refs_after_lem a) ∙ rw ((==_iff a a).1 refl))))
    | inr apart ↦
        ap (λ (x : MemoryNode). x.reference_pointing_to_me)
          (node_at-set_other m.nodes a b n lt apart)
        ∙ h.counted b within new
        ∙ ap pos (ground (arith, refs_after_lem b))
  ]

  pub IsHeld-write : IsHeld held' (write_node a n m)
  IsHeld-write = record {
    counted = λ b within new. counted_after b (omega (arith, length-set m.nodes a n)) new;
    dropped = λ b gone. omega (arith, h.dropped b gone, refs_after_lem b);
    closed = λ b past.
        omega (arith, h.closed b (omega (arith, length-set m.nodes a n)), refs_after_lem b);
    marked = λ b gone. elim (Bool-cases (a == b)) [
      | inl same ↦ absurd (ground (arith, ap m.freed ((==_iff a b).0 same)))
      | inr apart ↦
          ap (λ (x : MemoryNode). x.visited) (node_at-set_other m.nodes a b n lt apart)
          ∙ h.marked b gone
    ];
    positive = λ b within out. elim (Bool-cases (a == b)) [
      | inl same ↦
          let e : a ≡ b = (==_iff a b).0 same in
          subst (λ c. 0 < held' c + live_edges c (set m.nodes a n)) e
            (stays (
              sym (ap (λ (x : MemoryNode). x.visited) (node_at-set_self m.nodes a n lt))
              ∙ ap (λ c. (node_at (set m.nodes a n) c).visited) e
              ∙ out))
      | inr apart ↦
          let old : visited_at m b ≡ false =
            sym (ap (λ (x : MemoryNode). x.visited) (node_at-set_other m.nodes a b n lt apart))
            ∙ out in
          ground (arith, h.positive b (omega (arith, length-set m.nodes a n)) old, refs_after_lem b)
    ];
    total = h.total ∙ ap (λ k. freed_total k m.freed) (sym (length-set m.nodes a n));
  }

one_less : (x : ℕ) (i : ℤ) → i ≡ pos (x + 1) → i -ℤ pos 1 ≡ pos x
one_less x i e =
    ap (λ j. j -ℤ pos 1) e ∙ eq_of_parts _ _ (omega (arith, -ℤ_parts (pos (x + 1)) (pos 1)))

-- The node at `a` is not freed where a reference to it is held.
pub held_lt :
    (held : ℕ → ℕ) (m : Memory) (a : ℕ)
    → IsHeld (λ b. held b + hit (some a) b) m
    → (a < length m.nodes) × (m.freed a ≡ false)
unfolding hit
held_lt held m a h = (
  elim (Bool-cases (ltb a (length m.nodes))) [
    | inl within ↦ ltb→lt a (length m.nodes) within
    | inr past ↦ absurd (ground (arith, h.closed a))
  ],
  elim (Bool-cases (m.freed a)) [
    | inl gone ↦ absurd (ground (arith, h.dropped a gone))
    | inr new ↦ new
  ],
)

module _ (held : ℕ → ℕ) (m : Memory) (a : ℕ) where
  -- The decrement, where the node is visited already.
  pub IsHeld-decrement :
      IsHeld (λ b. held b + hit (some a) b) m
      → visited_at m a ≡ true
      → IsHeld held (write_node a (decrement (node_at m.nodes a)) m)
  unfolding decrement hit given_by
  IsHeld-decrement h seen =
      let (lt, new) = held_lt held m a h in
      IsHeld-write (λ b. held b + hit (some a) b) held m h a 1 (decrement (node_at m.nodes a)) lt
        new (λ x e. one_less x (node_at m.nodes a).reference_pointing_to_me e) (λ b. ground arith)
        (λ out. absurd (ground arith))

  -- The start of the release of a node: its references are now held by the call.
  pub IsHeld-strip :
      IsHeld (λ b. held b + hit (some a) b) m
      → visited_at m a ≡ false
      → IsHeld
          (λ b. held b + refs_to b (refs_at m a))
          (write_node a (strip (decrement (node_at m.nodes a))) m)
  unfolding strip decrement hit given_by
  IsHeld-strip h seen =
      let (lt, new) = held_lt held m a h in
      IsHeld-write (λ b. held b + hit (some a) b) (λ b. held b + refs_to b (refs_at m a)) m h a 1
        (strip (decrement (node_at m.nodes a))) lt new
        (λ x e. one_less x (node_at m.nodes a).reference_pointing_to_me e) (λ b. ground arith)
        (λ out. absurd (cc))

freed_total-write :
    (n : ℕ) (f : ℕ → Bool) (a : ℕ)
    → f a ≡ false
    → freed_total n (λ b. if b == a then true else f b)
      ≡ freed_total n f + (if ltb a n then 1 else 0)
unfolding freed_total
freed_total-write zero f a new = ground arith
freed_total-write (suc n) f a new = elim (Bool-cases (n == a)) [
  | inl same ↦
      let e : n ≡ a = (==_iff n a).0 same in
      let g : f n ≡ false = ap f e ∙ new in ground (arith, freed_total-write n f a new)
  | inr apart ↦ elim (Bool-cases (f n)) [
    | inl on ↦ ground (arith, freed_total-write n f a new)
    | inr off ↦ ground (arith, freed_total-write n f a new)
  ]
]

-- What the end of the function gives: whether the node was freed, and the memory.
pub record Ended (held : ℕ → ℕ) (m : Memory) (a : ℕ) (r : Freed) : Type 0 where
  pub answer : Bool
  pub last : Memory
  pub returns : r ≡ done answer last
  pub still_held : IsHeld held last
  pub node : MemoryNode
  pub written : last.nodes ≡ set m.nodes a node
  pub emptied : node.referers ≡ []
  pub unmarked : answer ≡ false → node.visited ≡ false
  pub freed_here : answer ≡ true → last.freed ≡ (λ b. if b == a then true else m.freed b)
  pub kept_here : answer ≡ false → last.freed ≡ m.freed

module _ (held : ℕ → ℕ) (m : Memory) (a : ℕ) (h : IsHeld held m) (lt : a < length m.nodes)
    (new : m.freed a ≡ false) (seen : visited_at m a ≡ true) where
  n' : MemoryNode
  n' = without_lists (node_at m.nodes a)

  -- What is left of the count.
  left_over : n'.reference_pointing_to_me ≡ pos (held a + live_edges a m.nodes)
  unfolding n' without_lists
  left_over = h.counted a lt new

  kept_write :
      (n : MemoryNode)
      → n.referers ≡ []
      → n.reference_pointing_to_me ≡ (node_at m.nodes a).reference_pointing_to_me
      → (n.visited ≡ false → 0 < held a + live_edges a m.nodes)
      → IsHeld held (write_node a n m)
  unfolding given_by refs_to
  kept_write n none_left same more =
      IsHeld-write held held m h a 0 n lt new (λ x e. same ∙ e ∙ ap pos (omega arith))
        (λ b. ground (arith, ap (refs_to b) none_left))
        (λ out. ground (arith, more out, live_edges-set a m.nodes a n lt, ap (refs_to a) none_left))

  -- The count is 0, so the node goes.
  freed_write :
      held a + live_edges a m.nodes ≡ 0
      → IsHeld held (record {
        nodes = set m.nodes a n';
        freed = λ b. if b == a then true else m.freed b;
        nodes_freed = m.nodes_freed + 1;
      })
  unfolding n' without_lists given_by refs_to
  freed_write none_left =
      let w = kept_write n' refl refl (λ out. absurd (ground arith)) in
      record {
        counted = λ b within new'. w.counted b within (ground arith);
        dropped = λ b gone. elim (Bool-cases (b == a)) [
          | inl same ↦
              let e : b ≡ a = (==_iff b a).0 same in
              ap (λ c. held c + live_edges c (set m.nodes a n')) e
              ∙ ground (arith, live_edges-set a m.nodes a n' lt)
          | inr apart ↦ w.dropped b (ground arith)
        ];
        closed = w.closed;
        marked = λ b gone. elim (Bool-cases (b == a)) [
          | inl same ↦
              let e : b ≡ a = (==_iff b a).0 same in
              ap (λ c. (node_at (set m.nodes a n') c).visited) e
              ∙ ap (λ (x : MemoryNode). x.visited) (node_at-set_self m.nodes a n' lt)
              ∙ seen
          | inr apart ↦ w.marked b (ground arith)
        ];
        positive = w.positive;
        total = ground (
          arith,
          w.total,
          freed_total-write (length (set m.nodes a n')) m.freed a new,
          length-set m.nodes a n',
        );
      }

  pub free_or_keep-Ended : Ended held m a (free_or_keep a (without_lists (node_at m.nodes a)) m)
  unfolding free_or_keep n' without_lists
  free_or_keep-Ended =
      elim (Bool-cases (ltb_ℤ (pos 0) (node_at m.nodes a).reference_pointing_to_me)) [
        | inl more ↦ record {
          answer = false;
          last = _;
          returns = rw more;
          still_held =
              kept_write (record n' { visited = false }) refl refl
                (λ _. ground (arith, left_over, more));
          node = record n' { visited = false };
          written = refl;
          emptied = refl;
          unmarked = λ _. refl;
          freed_here = λ e. absurd (cc);
          kept_here = λ _. refl;
        }
        | inr none_left ↦ record {
          answer = true;
          last = _;
          returns = rw none_left;
          still_held = freed_write (ground (arith, left_over, none_left));
          node = n';
          written = refl;
          emptied = refl;
          unmarked = λ e. absurd (cc);
          freed_here = λ _. refl;
          kept_here = λ e. absurd (cc);
        }
      ]
