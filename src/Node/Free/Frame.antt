-- ===== src/Node/Free/Frame.antt =====
-- What a call of freeMemoryNode does to the nodes beside the counts.
use jleaker.Common.{subst, ◌∙◌, ℕ, ◌<◌, ◌≡◌, refl, ◌⊎◌, inl, inr, true, List, [], length}
use jleaker.Node.Defs.{MemoryReferer}
use jleaker.Node.Counts.{refs_to}
use jleaker.Node.Free.Defs.{Memory}
use jleaker.Node.Free.Held.{visited_at, refs_at}

-- Each node that the list names was being freed before, or has no references afterwards.
abbrev pub AreEmptied : Memory → Memory → List MemoryReferer → Type 0
AreEmptied m m' refs = (c : ℕ) → 0 < refs_to c refs → (visited_at m c ≡ true) ⊎ (refs_at m' c ≡ [])

pub record Frame (m m' : Memory) : Type 0 where
  pub same_length : length m'.nodes ≡ length m.nodes
  pub kept : (b : ℕ) → visited_at m b ≡ true → visited_at m' b ≡ true
  pub new :
      (b : ℕ)
      → visited_at m' b ≡ true
      → (visited_at m b ≡ true) ⊎ ((m'.freed b ≡ true) × (refs_at m' b ≡ []))
  pub alive : (b : ℕ) → visited_at m b ≡ true → m'.freed b ≡ m.freed b
  -- A node has its references still, or none and so do those that it referred to.
  pub emptied :
      (b : ℕ) → (refs_at m' b ≡ refs_at m b) ⊎ ((refs_at m' b ≡ []) × AreEmptied m m' (refs_at m b))

pub Frame-refl : (m : Memory) → Frame m m
Frame-refl m = record {
  same_length = refl;
  kept = λ b h. h;
  new = λ b h. inl h;
  alive = λ b h. refl;
  emptied = λ b. inl refl;
}

-- A node without references stays so.
pub stays_empty : {m m' : Memory} → Frame m m' → (b : ℕ) → refs_at m b ≡ [] → refs_at m' b ≡ []
stays_empty f b e = elim (f.emptied b) [ inl same ↦ same ∙ e | inr (none_left, all) ↦ none_left ]

-- What was emptied up to `m'` is so afterwards, and what is emptied from then on too.
pub AreEmptied-before :
    (m : Memory) {m' m'' : Memory} (refs : List MemoryReferer)
    → Frame m' m''
    → AreEmptied m m' refs
    → AreEmptied m m'' refs
AreEmptied-before m refs g all c h = elim (all c h) [
  | inl old ↦ inl old
  | inr none_left ↦ inr (stays_empty g c none_left)
]

pub AreEmptied-after :
    {m m' m'' : Memory} (refs : List MemoryReferer)
    → Frame m m'
    → Frame m' m''
    → AreEmptied m' m'' refs
    → AreEmptied m m'' refs
AreEmptied-after refs f g all c h = elim (all c h) [
  | inl marked ↦ elim (f.new c marked) [
    | inl old ↦ inl old
    | inr (gone, none_left) ↦ inr (stays_empty g c none_left)
  ]
  | inr none_left ↦ inr none_left
]

pub Frame-trans : {m m' m'' : Memory} → Frame m m' → Frame m' m'' → Frame m m''
Frame-trans {m} {m'} {m''} f g = record {
  same_length = g.same_length ∙ f.same_length;
  kept = λ b h. g.kept b (f.kept b h);
  new = λ b h. elim (g.new b h) [
    | inr late ↦ inr late
    | inl marked ↦ elim (f.new b marked) [
      | inl old ↦ inl old
      | inr (gone, none_left) ↦ inr (g.alive b marked ∙ gone, stays_empty g b none_left)
    ]
  ];
  alive = λ b h. g.alive b (f.kept b h) ∙ f.alive b h;
  emptied = λ b. elim (f.emptied b) [
    | inr (none_left, all) ↦
        inr (stays_empty g b none_left, AreEmptied-before m (refs_at m b) g all)
    | inl same ↦ elim (g.emptied b) [
      | inl again ↦ inl (again ∙ same)
      | inr (none_left, all) ↦
          inr (none_left, AreEmptied-after (refs_at m b) f g (subst (AreEmptied m' m'') same all))
    ]
  ];
}
