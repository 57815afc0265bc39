-- ===== src/Detect/Walk/Tests.antt =====
-- A heap walk with two leaked objects, their referrer and a class, and the theorems at it.
use jleaker.Common.{
  ℕ, zero, suc, ◌+◌, ◌<◌, ◌≡◌, refl, true, not, ◌&&◌, ◌||◌, ltb, if◌then◌else◌, Option, none, some,
  [], ◌∷◌, get_or, arith,
}
use jleaker.Common.Int.{pos, ◌+ℤ◌}
use jleaker.Reference.Kind.{Kind, ReferenceInfo, is_root_reference}
use jleaker.Bitmask.{new, add, contains, add_all_with_exclusion}
use jleaker.Bitmask.Bounds.{IsValid, new-IsValid, add-IsValid}
use jleaker.Bitmask.Members.{IsClean, IsClean-new, IsClean-add}
use jleaker.Node.Defs.{Store, node_at, fresh_node}
use jleaker.Node.Counts.{IsCounted, edges_to, refs_to, hit}
use jleaker.Detect.Walk.{
  Config, Walk, Referrer, Outcome, record_reference, resolve_referrer, cb_object_tag_referrer,
}
use jleaker.Detect.Walk.Repeats.{resolve_referrer-repeated}
use jleaker.Detect.Walk.References.{Visits, Keeps, callback-Keeps}
use jleaker.Detect.Walk.Leaks.{larger, record-spreads, record-progress}

abbrev cfg : Config
cfg = record { thread_id = 7; max_fan_in = pos 5; number_of_leaks = 2 }

abbrev info : Option ReferenceInfo
info = some (ReferenceInfo.field_info (pos 3))

-- Leak 0, leak 1, an object that was not seen, and a class.
abbrev store : Store
store =
    record (fresh_node 2) { leaks_related = add (new 2) 0; leak_size = pos 40 }
    ∷ record (fresh_node 2) { leaks_related = add (new 2) 1; leak_size = pos 90 }
    ∷ fresh_node 1
    ∷ record (fresh_node 2) { class_node = true; obj = some 4 }
    ∷ []

abbrev walk : Walk
walk = record { nodes = store; leaks_finished = new 2; nodes_found = 0 ∷ 0 ∷ [] }

-- The lists of leaks and of class nodes hold each node but the third, whose count stands for a
-- reference from outside.
abbrev owners : ℕ → ℕ
owners a = if ltb a 4 then 1 else 0

counted : IsCounted owners store none
unfolding edges_to refs_to hit fresh_node ◌+ℤ◌
counted = record { counted = each; closed = λ a le. refl }
  where
    each : (a : ℕ) → a < 4 → (node_at store a).reference_pointing_to_me ≡ pos (owners a + 0 + 0)
    each zero lt = refl
    each (suc zero) lt = refl
    each (suc (suc zero)) lt = refl
    each (suc (suc (suc zero))) lt = refl
    each (suc (suc (suc (suc a)))) lt = absurd (omega arith)

callback-Keeps_example :
    Visits
      (Keeps cfg Kind.field info 0 owners walk)
      (cb_object_tag_referrer cfg Kind.field info 0 (some 3) (Referrer.tag none) walk)
callback-Keeps_example =
    callback-Keeps cfg Kind.field info 0 owners walk (some 3) (Referrer.tag none) counted
      (omega arith) tt refl

leak_0-IsValid : IsValid (node_at store 0).leaks_related
leak_0-IsValid = add-IsValid (new 2) (new-IsValid 2) 0

leak_0-IsClean : IsClean (node_at store 0).leaks_related
leak_0-IsClean = IsClean-add (new 2) 0 (new-IsValid 2) (IsClean-new 2)

leak_1-IsValid : IsValid (node_at store 1).leaks_related
leak_1-IsValid = add-IsValid (new 2) (new-IsValid 2) 1

leak_1-IsClean : IsClean (node_at store 1).leaks_related
leak_1-IsClean = IsClean-add (new 2) 1 (new-IsValid 2) (IsClean-new 2)

abbrev after : Walk
after = record_reference cfg Kind.field info 0 walk (some 2)

runs :
    (contains (node_at after.nodes 2).leaks_related 0 ≡ true) × (get_or after.nodes_found 0 0 ≡ 1)
unfolding record_reference fresh_node contains new add add_all_with_exclusion
runs = (refl, refl)

record-spreads_example :
    (contains (node_at after.nodes 2).leaks_related 0 ≡ (
      contains (node_at store 2).leaks_related 0
      || (ltb 0 (node_at store 2).leaks_related.size
          && (contains (node_at store 0).leaks_related 0 && not (contains (new 2) 0)))))
    × ((node_at after.nodes 2).leak_size ≡ larger (node_at store 2).leak_size (pos 40))
unfolding fresh_node new
record-spreads_example =
    record-spreads cfg Kind.field info 0 2 walk 0 (omega arith) (omega arith) (new-IsValid 1)
      leak_0-IsValid (new-IsValid 2) leak_0-IsClean (IsClean-new 2)

abbrev rooted : Walk
rooted = record_reference cfg Kind.thread none 0 walk none

record-progress_example :
    (contains rooted.leaks_finished 0 ≡ (
      contains (new 2) 0
      || (is_root_reference Kind.thread
          && (ltb 0 (new 2).size && contains (node_at rooted.nodes 0).leaks_related 0))))
    × (get_or rooted.nodes_found 0 0
        ≡ 0
          + (if ltb 0 2
                && (contains (node_at rooted.nodes 0).leaks_related 0 && not (contains (new 2) 0))
              then 1
              else 0))
unfolding record_reference add
record-progress_example =
    record-progress cfg Kind.thread none 0 none walk 0 leak_0-IsValid (new-IsValid 2) leak_0-IsClean
      (omega arith)

resolve_referrer-repeated_example :
    resolve_referrer cfg Kind.field info 0 after (Referrer.tag (some 2))
    ≡ Outcome.visit after (Referrer.tag (some 2))
resolve_referrer-repeated_example =
    resolve_referrer-repeated cfg Kind.field info 0 walk 2 (omega arith)
