-- ===== src/Detect/Rounds.antt =====
-- src/cpp/leak_detect.c, the loop of tagReferencesChain: the heap is walked until no leak makes
-- progress, at most `reference_chain_length` times. FollowReferences, with the callback of
-- Detect/Walk, is the parameter `follow`.
use jleaker.Common.{
  ℕ, zero, suc, ◌+◌, ◌<◌, ◌≤◌, ◌≡◌, ◌↔◌, ==_iff, subst, refl, Bool, true, false, not, ◌||◌, ◌==◌,
  if◌then◌else◌, get_or, replicate, ◌⊎◌, inl, inr, Bool-cases, arith,
}
use jleaker.Bitmask
use jleaker.Detect.Walk.{Walk}

-- `contains || (0 == nodes_found[j])`
unfoldable pub is_settled : Walk → ℕ → Bool
is_settled w j = Bitmask.contains w.leaks_finished j || get_or w.nodes_found j 0 == 0

-- The loop over the leaks, with the ones left: `hasUnfinished`.
unfoldable pub has_unfinished : Walk → (left j : ℕ) → Bool
unfolding is_settled
has_unfinished w zero j = false
has_unfinished w (suc left) j =
    let later = has_unfinished w left (j + 1) in if not (is_settled w j) then true else later

-- The memset of `nodes_found`.
unfoldable pub reset_found : (number_of_leaks : ℕ) → Walk → Walk
reset_found number_of_leaks w = record w { nodes_found = replicate number_of_leaks 0 }

-- hasUnfinished is false exactly when each leak of the range is finished or without progress.
has_unfinished_iff :
    (w : Walk) (left i : ℕ)
    → (has_unfinished w left i ≡ false) ↔ ((j : ℕ) → i ≤ j → j < i + left → is_settled w j ≡ true)
unfolding has_unfinished
has_unfinished_iff w zero i = (λ e j low high. absurd (omega arith), λ all. refl)
has_unfinished_iff w (suc left) i =
    let (to, from) = has_unfinished_iff w left (i + 1) in
    (
      λ e j low high. elim (Bool-cases (i == j)) [
        | inl same ↦
            let i≡j = (==_iff i j).0 same in subst (λ k. is_settled w k ≡ true) i≡j (ground arith)
        | inr apart ↦ to (ground arith) j (ground arith) (omega arith)
      ],
      λ all.
          let here = all i (omega arith) (omega arith) in
          let later = from (λ j low high. all j (omega arith) (omega arith)) in
          rw (here, later) refl,
    )

module _ (follow : Walk → Walk) (number_of_leaks : ℕ) where
  -- One walk.
  unfoldable pub walk_round : Walk → Walk
  unfolding reset_found
  walk_round w = follow (reset_found number_of_leaks w)

  -- The loop over the walks, with those left, and how many were made.
  unfoldable pub walk_rounds : (left : ℕ) → Walk → ℕ × Walk
  unfolding walk_round has_unfinished
  walk_rounds zero w = (0, w)
  walk_rounds (suc left) w =
      let next = walk_round w in
      let rest = walk_rounds left next in
      if not (has_unfinished next number_of_leaks 0) then (1, next) else (suc rest.0, rest.1)

  -- A number of walks, one after the other.
  unfoldable pub walks : ℕ → Walk → Walk
  walks zero w = w
  walks (suc n) w = walks n (walk_round w)

  -- The loop of tagReferencesChain makes no more walks than it is allowed, and its result is that
  -- of as many walks as it made. If it made fewer than it is allowed then every leak was finished
  -- or had no new reference in the last walk, and after each walk before the last some leak was
  -- neither.
  pub walk_rounds_lem :
      (left : ℕ) (w : Walk)
      → let (used, last) = walk_rounds left w in
        (used ≤ left)
        × (last ≡ walks used w)
        × ((used ≡ left) ⊎ ((j : ℕ) → j < number_of_leaks → is_settled last j ≡ true))
        × ((n : ℕ) → 0 < n → n < used → has_unfinished (walks n w) number_of_leaks 0 ≡ true)
  unfolding walk_rounds walks
  walk_rounds_lem zero w = (omega arith, refl, inl refl, λ n low high. absurd (omega arith))
  walk_rounds_lem (suc left) w =
      let next = walk_round w in
      let (few, same, why, busy) = walk_rounds_lem left next in
      elim (Bool-cases (has_unfinished next number_of_leaks 0)) [
        | inr settled ↦ rw settled (
          omega arith,
          refl,
          inr (λ j h.
              (has_unfinished_iff next number_of_leaks 0).0 settled j (omega arith) (omega arith)),
          λ n low high. absurd (omega arith),
        )
        | inl unfinished ↦ rw unfinished (
          omega arith,
          same,
          elim why [ inl all_made ↦ inl (omega arith) | inr settled ↦ inr settled ],
          still_busy w next (walk_rounds left next).0 unfinished busy refl,
        )
      ]
    where
      still_busy :
          (w next : Walk) (used : ℕ)
          → has_unfinished next number_of_leaks 0 ≡ true
          → ((n : ℕ) → 0 < n → n < used → has_unfinished (walks n next) number_of_leaks 0 ≡ true)
          → next ≡ walk_round w
          → (n : ℕ) → 0 < n
          → n < suc used
          → has_unfinished (walks n w) number_of_leaks 0 ≡ true
      still_busy w next used u busy e zero low high = absurd (omega arith)
      still_busy w next used u busy e (suc zero) low high = rw⁻¹ e u
      still_busy w next used u busy e (suc (suc n)) low high =
          rw⁻¹ e (busy (suc n) (omega arith) (omega arith))
