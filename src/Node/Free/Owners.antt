-- ===== src/Node/Free/Owners.antt =====
-- Dropping the references of the owners one after the other frees all that they lead to.
use jleaker.Common.{
  ltb, ltb→lt, get_or-beyond, ap, sym, ◌∙◌, ℕ, zero, suc, ◌+◌, ◌≤◌, ◌<◌, ◌≡◌, refl, ◌⊎◌, inl, inr,
  Bool, true, false, Bool-cases, none, some, List, [], ◌∷◌, length, arith,
}
use jleaker.Common.Int.{pos}
use jleaker.Node.Defs.{MemoryNode, Store, node_at, fresh_node}
use jleaker.Node.Counts.{hit, refs_to, edges_to, IsCounted, fresh-referers}
use jleaker.Node.Free.Defs.{Memory, Freed}
use jleaker.Node.Free.Held.{
  live_edges-eq-edges_to, live_edges, live_edges_empty, visited_at, refs_at, freed_total, IsHeld,
}
use jleaker.Node.Free.Frame.{Frame, Frame-refl, Frame-trans, stays_empty}
use jleaker.Node.Free.Loop.{Called, IsHeld-same, hit_cases}

-- How often the address stands in a list of pointers.
unfoldable pub owners_of : List ℕ → ℕ → ℕ
owners_of [] a = 0
owners_of (x ∷ xs) a = hit (some x) a + owners_of xs a

-- The references of the list `xs` have been dropped.
pub record Dropped (held : ℕ → ℕ) (m : Memory) (xs : List ℕ) (last : Memory) : Type 0 where
  pub still_held : IsHeld held last
  pub frame : Frame m last
  pub emptied : (c : ℕ) → 0 < owners_of xs c → (visited_at m c ≡ true) ⊎ (refs_at last c ≡ [])

pub Dropped-nil :
    (held : ℕ → ℕ) (m : Memory) → IsHeld (λ b. held b + owners_of [] b) m → Dropped held m [] m
unfolding owners_of
Dropped-nil held m h = record {
  still_held = IsHeld-same _ held m (λ b. omega arith) h;
  frame = Frame-refl m;
  emptied = λ c lt. absurd (omega arith);
}

pub Dropped-cons :
    (held : ℕ → ℕ) (m : Memory) (x : ℕ) (xs : List ℕ) {r : Freed} {last : Memory}
    → (one : Called (λ b. held b + owners_of xs b) m (some x) r) → Dropped held one.last xs last
    → Dropped held m (x ∷ xs) last
unfolding owners_of
Dropped-cons held m x xs one more = record {
  still_held = more.still_held;
  frame = Frame-trans one.frame more.frame;
  emptied = λ c lt. elim (hit_cases (some x) c) [
    | inl this ↦ elim (one.target c this) [
      | inl old ↦ inl old
      | inr none_left ↦ inr (stays_empty more.frame c none_left)
    ]
    | inr other ↦ elim (more.emptied c (omega (arith, other))) [
      | inr none_left ↦ inr none_left
      | inl marked ↦ elim (one.frame.new c marked) [
        | inl old ↦ inl old
        | inr (gone, none_left) ↦ inr (stays_empty more.frame c none_left)
      ]
    ]
  ];
}

-- What is held before the first of a list is dropped.
pub next-IsHeld :
    (held : ℕ → ℕ) (m : Memory) (x : ℕ) (xs : List ℕ)
    → IsHeld (λ b. held b + owners_of (x ∷ xs) b) m
    → IsHeld (λ b. (held b + owners_of xs b) + hit (some x) b) m
unfolding owners_of
next-IsHeld held m x xs h = IsHeld-same _ _ m (λ b. omega arith) h

refs_to-le-edges_to :
    (a : ℕ) (st : Store) (b : ℕ) → refs_to a (node_at st b).referers ≤ edges_to a st
unfolding edges_to refs_to
refs_to-le-edges_to a [] b = omega (arith, ap (refs_to a) (fresh-referers 0))
refs_to-le-edges_to a (n ∷ st) zero = omega arith
refs_to-le-edges_to a (n ∷ st) (suc b) = omega (arith, refs_to-le-edges_to a st b)

-- The nodes that an owner leads to.
pub data Leads (owners : ℕ → ℕ) (st : Store) : ℕ → Type 0 where
  owned : (a : ℕ) → 0 < owners a → Leads owners st a
  referred :
      (a b : ℕ) → Leads owners st a → 0 < refs_to b (node_at st a).referers → Leads owners st b

-- The memory before anything is freed.
abbrev pub fresh_memory : Store → Memory
fresh_memory st = record { nodes = st; freed = λ a. false; nodes_freed = 0 }

freed_total-none : (n : ℕ) → freed_total n (λ a. false) ≡ 0
unfolding freed_total
freed_total-none zero = refl
freed_total-none (suc n) = omega (arith, freed_total-none n)

pub freed_total-all : (n : ℕ) (f : ℕ → Bool) → ((a : ℕ) → a < n → f a ≡ true) → freed_total n f ≡ n
unfolding freed_total
freed_total-all zero f all = refl
freed_total-all (suc n) f all =
    ground (arith, all n, freed_total-all n f (λ a lt. all a (omega arith)))

module _ (owners : ℕ → ℕ) (st : Store) (counts : IsCounted owners st none)
    (clear : (a : ℕ) → (node_at st a).visited ≡ false)
    (in_store : (a : ℕ) → length st ≤ a → owners a ≡ 0)
    (all_led : (a : ℕ) → a < length st → Leads owners st a) where
  -- Every node that an owner leads to has a reference.
  referenced : (a : ℕ) → Leads owners st a → 0 < owners a + edges_to a st
  referenced a (owned b lt) = omega arith
  referenced a (referred b c led lt) = omega (arith, refs_to-le-edges_to a st b)

  same_edges : (a : ℕ) → live_edges a (fresh_memory st).nodes ≡ edges_to a st
  same_edges a = live_edges-eq-edges_to a st clear

  pub fresh-IsHeld : IsHeld owners (fresh_memory st)
  unfolding hit
  fresh-IsHeld = record {
    counted = λ a lt new. counts.counted a lt ∙ ap pos (omega (arith, same_edges a));
    dropped = λ a gone. absurd (cc);
    closed = λ a past. omega (arith, counts.closed a past, in_store a past, same_edges a);
    marked = λ a gone. absurd (cc);
    positive = λ a lt out. omega (arith, referenced a (all_led a lt), same_edges a);
    total = sym (freed_total-none (length st));
  }

  -- The end, when the nodes that an owner holds have no references any more.
  module _ (last : Memory) (frame : Frame (fresh_memory st) last)
      (emptied : (a : ℕ) → 0 < owners a → refs_at last a ≡ []) where
    led_emptied : (a : ℕ) → Leads owners st a → refs_at last a ≡ []
    unfolding refs_to
    led_emptied a (owned b lt) = emptied a lt
    led_emptied a (referred b c led lt) = elim (frame.emptied b) [
      | inl same ↦ absurd (omega (arith, ap (refs_to a) (sym same ∙ led_emptied b led), lt))
      | inr (none_left, all) ↦ elim (all a lt) [
        | inl marked ↦ absurd (cc (clear a))
        | inr gone ↦ gone
      ]
    ]

    pub all_emptied : (a : ℕ) → refs_at last a ≡ []
    all_emptied a = elim (Bool-cases (ltb a (length st))) [
      | inl within ↦ led_emptied a (all_led a (ltb→lt a (length st) within))
      | inr past ↦
          ap (λ (n : MemoryNode). n.referers)
            (get_or-beyond last.nodes a (fresh_node 0) (ground (arith, frame.same_length)))
          ∙ fresh-referers 0
    ]

    -- No owner holds a reference any more.
    pub all_freed :
        (held : IsHeld (λ a. 0) last)
        → ((a : ℕ) → a < length st → last.freed a ≡ true) × (last.nodes_freed ≡ length st)
    all_freed held =
        let each : (a : ℕ) → a < length st → last.freed a ≡ true = λ a lt. freed_one a lt in
        (
          each,
          held.total
              ∙ ap (λ n. freed_total n last.freed) frame.same_length
              ∙ freed_total-all (length st) last.freed each,
        )
      where
        marked_then : (a : ℕ) → a < length st → visited_at last a ≡ true
        marked_then a lt = elim (Bool-cases (visited_at last a)) [
          | inl marked ↦ marked
          | inr out ↦ absurd (
              omega (
                arith,
                held.positive a (omega (arith, frame.same_length)) out,
                live_edges_empty a last.nodes all_emptied,
              ))
        ]

        freed_one : (a : ℕ) → a < length st → last.freed a ≡ true
        freed_one a lt = elim (frame.new a (marked_then a lt)) [
          | inl old ↦ absurd (cc (clear a))
          | inr (gone, none_left) ↦ gone
        ]
