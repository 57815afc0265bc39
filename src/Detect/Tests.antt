-- ===== src/Detect/Tests.antt =====
-- Heap walks of which the second one reaches a root.
use jleaker.Common.{ℕ, ◌<◌, ◌≤◌, ◌≡◌, refl, true, ◌==◌, if◌then◌else◌, [], ◌∷◌, length, ◌⊎◌}
use jleaker.Bitmask.{new, add, contains}
use jleaker.Node.Defs.{fresh_node}
use jleaker.Detect.Walk.{Walk}
use jleaker.Detect.Rounds.{is_settled, has_unfinished, walk_rounds, walks, walk_rounds_lem}

abbrev follow : Walk → Walk
follow w = record w {
  nodes = fresh_node 1 ∷ w.nodes;
  nodes_found = 1 ∷ [];
  leaks_finished = if length w.nodes == 0 then w.leaks_finished else add w.leaks_finished 0;
}

abbrev start : Walk
start = record { nodes = []; leaks_finished = new 1; nodes_found = [] }

runs : ((walk_rounds follow 1 5 start).0 ≡ 2) × ((walk_rounds follow 1 1 start).0 ≡ 1)
unfolding walk_rounds new add contains
runs = (refl, refl)

walk_rounds_lem_example :
    ((walk_rounds follow 1 5 start).0 ≤ 5)
    × ((walk_rounds follow 1 5 start).1 ≡ walks follow 1 (walk_rounds follow 1 5 start).0 start)
    × (((walk_rounds follow 1 5 start).0 ≡ 5)
        ⊎ ((j : ℕ) → j < 1 → is_settled (walk_rounds follow 1 5 start).1 j ≡ true))
    × ((n : ℕ)
        → 0 < n
        → n < (walk_rounds follow 1 5 start).0
        → has_unfinished (walks follow 1 n start) 1 0 ≡ true)
walk_rounds_lem_example = walk_rounds_lem follow 1 5 start
