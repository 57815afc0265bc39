-- ===== src/Node/Free/Loop.antt =====
-- The loop of freeMemoryNode over the references of a node, for any function that frees one.
use mathlib.Core.Path.{fun_ext}
use jleaker.Common.{
  ap, subst, ◌∙◌, ℕ, ◌+◌, ◌≤◌, ◌≡◌, refl, ◌⊎◌, inl, inr, ◌==◌, ==_iff, Bool, true, false,
  Bool-cases, Option, none, some, List, [], ◌∷◌, arith,
}
use jleaker.Node.Defs.{MemoryReferer}
use jleaker.Node.Counts.{hit, refs_to}
use jleaker.Node.Update.{unvisited, unvisited_mono}
use jleaker.Node.Free.Defs.{Memory, Freed, done, free_references}
use jleaker.Node.Free.Held.{visited_at, refs_at, IsHeld}
use jleaker.Node.Free.Frame.{
  AreEmptied, Frame, Frame-refl, Frame-trans, stays_empty, AreEmptied-after,
}

-- A call that returns: `answer` is its result.
pub record Called (held : ℕ → ℕ) (m : Memory) (p : Option ℕ) (r : Freed) : Type 0 where
  pub answer : Bool
  pub last : Memory
  pub returns : r ≡ done answer last
  pub still_held : IsHeld held last
  pub frame : Frame m last
  pub target : (a : ℕ) → p ≡ some a → (visited_at m a ≡ true) ⊎ (refs_at last a ≡ [])
  pub answered : (a : ℕ) → p ≡ some a → visited_at m a ≡ false → answer ≡ last.freed a

pub record Looped (held : ℕ → ℕ) (m : Memory) (refs : List MemoryReferer) (r : Freed) : Type 0 where
  pub last : Memory
  pub returns : r ≡ done false last
  pub still_held : IsHeld held last
  pub frame : Frame m last
  pub targets : AreEmptied m last refs

pub IsHeld-same :
    (held held' : ℕ → ℕ) (m : Memory)
    → ((b : ℕ) → held b ≡ held' b)
    → IsHeld held m
    → IsHeld held' m
IsHeld-same held held' m same h = subst (λ k. IsHeld k m) (fun_ext same) h

-- Calls that start with at most `k` unmarked nodes return.
abbrev pub AreCalled : (Option ℕ → Memory → Freed) → ℕ → Type 0
AreCalled free k =
    (held : ℕ → ℕ) (m : Memory) (p : Option ℕ)
    → IsHeld (λ b. held b + hit p b) m
    → unvisited m.nodes ≤ k
    → Called held m p (free p m)

pub fewer_unvisited : {m m' : Memory} → Frame m m' → unvisited m'.nodes ≤ unvisited m.nodes
fewer_unvisited {m} {m'} f = unvisited_mono m.nodes m'.nodes f.same_length f.kept

-- One round of the loop.
next_reference :
    (free : Option ℕ → Memory → Freed) (r : MemoryReferer) (refs : List MemoryReferer)
    (m m' : Memory) (answer : Bool)
    → free r.node m ≡ done answer m'
    → free_references free (r ∷ refs) m ≡ free_references free refs m'
unfolding free_references
next_reference free r refs m m' answer e = rw (e, free_references)

pub hit_cases : (p : Option ℕ) (c : ℕ) → (p ≡ some c) ⊎ (hit p c ≡ 0)
unfolding hit
hit_cases none c = inr refl
hit_cases (some a) c = elim (Bool-cases (a == c)) [
  | inl same ↦ inl (ap some ((==_iff a c).0 same))
  | inr apart ↦ inr (ground arith)
]

followed :
    (free : Option ℕ → Memory → Freed) (r : MemoryReferer) (refs : List MemoryReferer)
    (held : ℕ → ℕ) (m : Memory)
    → (one : Called (λ b. held b + refs_to b refs) m r.node (free r.node m))
    → Looped held one.last refs (free_references free refs one.last)
    → Looped held m (r ∷ refs) (free_references free (r ∷ refs) m)
unfolding refs_to
followed free r refs held m one more = record {
  last = more.last;
  returns = next_reference free r refs m one.last one.answer one.returns ∙ more.returns;
  still_held = more.still_held;
  frame = Frame-trans one.frame more.frame;
  targets = λ c lt. elim (hit_cases r.node c) [
    | inl this ↦ elim (one.target c this) [
      | inl old ↦ inl old
      | inr none_left ↦ inr (stays_empty more.frame c none_left)
    ]
    | inr other ↦ AreEmptied-after refs one.frame more.frame more.targets c (omega (arith, other))
  ];
}

pub free_references-Looped :
    (free : Option ℕ → Memory → Freed) (k : ℕ)
    → AreCalled free k
    → (refs : List MemoryReferer) (held : ℕ → ℕ) (m : Memory)
    → IsHeld (λ b. held b + refs_to b refs) m
    → unvisited m.nodes ≤ k
    → Looped held m refs (free_references free refs m)
unfolding refs_to free_references
free_references-Looped free k called [] held m h few = record {
  last = m;
  returns = refl;
  still_held = IsHeld-same _ held m (λ b. omega arith) h;
  frame = Frame-refl m;
  targets = λ c lt. absurd (omega arith);
}
free_references-Looped free k called (r ∷ refs) held m h few =
    let one : Called (λ b. held b + refs_to b refs) m r.node (free r.node m) =
      called (λ b. held b + refs_to b refs) m r.node (IsHeld-same _ _ m (λ b. omega arith) h) few in
    followed free r refs held m one (
      free_references-Looped free k called refs held one.last one.still_held
        (omega (arith, fewer_unvisited one.frame)))
