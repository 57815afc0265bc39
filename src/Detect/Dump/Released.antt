-- ===== src/Detect/Dump/Released.antt =====
-- A dump frees every node that it allocates.
use jleaker.Common.{
  ℕ, suc, ◌<◌, ◌≤◌, ◌≡◌, Bool, true, ltb, if◌then◌else◌, Option, some, List, [], ◌∷◌, length,
  replicate, Bytes, str_eq, Option-cases, inl, inr, arith,
}
use jleaker.Common.Int.{ℤ}
use jleaker.Bitmask
use jleaker.Reference.Fields.Total.{IsRanked}
use jleaker.Reference.Printing.{Facts, Printed}
use jleaker.Reference.Printing.Untouched.{IsUntouched, goes_on, print_leaks-IsUntouched}
use jleaker.Output.{Output}
use jleaker.Configuration.{StrMap}
use jleaker.Node.Defs.{IgnoreField, Store}
use jleaker.Node.Free.{Freed}
use jleaker.Node.Free.Owners.{owners_of, fresh_memory}
use jleaker.Detect.Search.{SearchConfig, LeakingNode, SearchState, search_objects_for_leaks}
use jleaker.Detect.Walk.{Config}
use jleaker.Detect.Release.Ends.{release_nodes_end}
use jleaker.Detect.Release.{
  Released, leak_nodes, owners, release_nodes, release_nodes_lem, free_memory_for_leak_list,
  free_class_nodes,
}
use jleaker.Detect.Classes.Defs.{Loaded, State}
use jleaker.Detect.Classes.Loop.{List-cases, is_listed, AreInRange}
use jleaker.Detect.Dump.Defs.{
  Marks, clear_marks, marks_after, Heap, HeapReference, heap_iterations, untag_all_classes,
  tags_after, stopped, dumped, empty_search, release, report, walk_and_report,
  find_leaks_in_tagged_objects,
}
use jleaker.Detect.Dump.Rooted.{IsRooted}
use jleaker.Detect.Dump.Listed.{IsListed, search-IsListed, tag_all_classes-IsRooted}
use jleaker.Detect.Dump.Tagged.{
  AreSearched, search-AreSearched, search-marks, empty-IsListed, empty-AreSearched,
}
use jleaker.Detect.Dump.Freed.{
  IsRooted-Untouched, IsReleased, references-cases, AllFreed, stops, frees, misreads,
  untag_classes-none, clear_marks-none, nothing_found,
}
use jleaker.Detect.Dump.Walked.{heap_iterations-IsSound}

-- The release either meets a class node that is not freed, one of which has references, or frees all.
release_nodes-IsReleased :
    (leaks : List LeakingNode) (class_nodes : List ℕ) (st : Store)
    → IsRooted (owners leaks class_nodes) st
    → ((a : ℕ) → owners_of class_nodes a ≤ 1)
    → IsReleased class_nodes st
        (release_nodes (suc (length st)) leaks class_nodes (fresh_memory st))
release_nodes-IsReleased leaks class_nodes st r once = elim (references-cases class_nodes st) [
  | inr no_refs ↦ inr (
      release_nodes_lem st leaks class_nodes (suc (length st)) r.counts r.clear r.within r.led once
        no_refs (omega arith))
  | inl some_refs ↦
      elim (release_nodes_end st leaks class_nodes (suc (length st)) r.counts r.clear r.within r.led
        (omega arith)) [ inl stuck ↦ inl (stuck, some_refs) | inr all ↦ inr all ]
]

module _ (strmap : StrMap) (loaded : Loaded) (facts : Facts)
    (print_fn : ℕ → ℕ → Output → Option Output) (show_unreachables consider_local_references : Bool)
    (objects : List (ℕ × ℤ)) (marks : Marks) (found : LeakingNode) (others : List LeakingNode) where
  after_list :
      (fuel : ℕ) (class_nodes classes : List ℕ) (tags : ℕ → Option ℕ) (left : Marks) (st : Store)
      (o : Output) (out : Freed)
      → IsReleased class_nodes st (elim out [
        | Freed.exhausted ↦ Released.exhausted
        | Freed.faulted ↦ Released.faulted
        | Freed.done answer m ↦ free_class_nodes fuel class_nodes m
      ])
      → AllFreed objects classes marks (found ∷ others) (elim out [
        | Freed.exhausted ↦ dumped st class_nodes Released.exhausted tags left o
        | Freed.faulted ↦ dumped st class_nodes Released.faulted tags left o
        | Freed.done answer m ↦
            let untagged = untag_all_classes fuel classes (some class_nodes) tags left m in
            dumped st class_nodes untagged.0 untagged.1 untagged.2 o
      ])
  unfolding untag_all_classes
  after_list fuel class_nodes classes tags left st o Freed.exhausted (inl (e, refs)) = absurd (cc)
  after_list fuel class_nodes classes tags left st o Freed.exhausted (inr (last, e, each, count)) =
      absurd (cc)
  after_list fuel class_nodes classes tags left st o Freed.faulted (inl (e, refs)) = absurd (cc)
  after_list fuel class_nodes classes tags left st o Freed.faulted (inr (last, e, each, count)) =
      absurd (cc)
  after_list fuel class_nodes classes tags left st o (Freed.done answer m) (inl (e, refs)) =
      misreads e refs (λ c there.
        (untag_classes-none classes tags c there, clear_marks-none classes left c there))
  after_list fuel class_nodes classes tags left st o (Freed.done answer m)
        (inr (last, e, each, count)) =
      frees last e each count (λ c there.
        (untag_classes-none classes tags c there, clear_marks-none classes left c there))

  release-AllFreed :
      (leaks : List LeakingNode) (class_nodes classes : List ℕ) (tags : ℕ → Option ℕ) (left : Marks)
      (st : Store) (o : Output)
      → IsRooted (owners leaks class_nodes) st
      → ((a : ℕ) → owners_of class_nodes a ≤ 1)
      → AllFreed objects classes marks (found ∷ others) (
          release strmap loaded facts print_fn show_unreachables consider_local_references leaks
            class_nodes classes tags left st o)
  unfolding release release_nodes
  release-AllFreed leaks class_nodes classes tags left st o r once =
      after_list (suc (length st)) class_nodes classes tags left st o
        (free_memory_for_leak_list (suc (length st)) leaks (fresh_memory st))
        (release_nodes-IsReleased leaks class_nodes st r once)

  report-AllFreed :
      (is_need_references : Bool) (leaks : List LeakingNode) (class_nodes classes : List ℕ)
      (left : Marks) (h : Heap) (o : Output)
      → IsRooted (owners leaks class_nodes) h.walk.nodes
      → ((a : ℕ) → owners_of class_nodes a ≤ 1)
      → AllFreed objects classes marks (found ∷ others) (
          report strmap loaded facts print_fn show_unreachables consider_local_references
            is_need_references leaks class_nodes classes left h o)
  unfolding report
  report-AllFreed is_need_references leaks class_nodes classes left h o r once = then_released _ (
      print_leaks-IsUntouched facts show_unreachables consider_local_references is_need_references
        print_fn leaks h.walk.nodes o)
    where
      then_released :
          (p : Printed)
          → IsUntouched h.walk.nodes p
          → AllFreed objects classes marks (found ∷ others) (elim p [
            | Printed.exhausted ↦ stopped
            | Printed.crashed ↦ stopped
            | Printed.printed st o' ↦
                release strmap loaded facts print_fn show_unreachables consider_local_references
                  leaks class_nodes classes h.tag left st o'
          ])
      then_released Printed.exhausted u = stops
      then_released Printed.crashed u = stops
      then_released (Printed.printed st o') (goes_on u) =
          release-AllFreed leaks class_nodes classes h.tag left st o'
            (IsRooted-Untouched (owners leaks class_nodes) h.walk.nodes st u r) once

  walk_and_report-AllFreed :
      (thread_id : ℕ) (max_fan_in : ℤ) (s : SearchState) (classes : List ℕ)
      (rounds : List (List HeapReference)) (left : Marks) (c : State strmap) (o : Output)
      → IsRooted (owners s.leaks c.class_nodes) c.nodes
      → AreInRange c.nodes c.tag
      → ((a : ℕ) → owners_of c.class_nodes a ≤ 1)
      → AllFreed objects classes marks (found ∷ others) (
          walk_and_report strmap loaded facts print_fn show_unreachables consider_local_references
            thread_id max_fan_in s classes rounds left c o)
  unfolding walk_and_report
  walk_and_report-AllFreed thread_id max_fan_in s classes rounds left c o r in_range once =
      let cfg : Config = record {
        thread_id = thread_id;
        max_fan_in = max_fan_in;
        number_of_leaks = s.number_of_leaks;
      } in
      let start : Heap = record {
        walk = record {
          nodes = c.nodes;
          leaks_finished = Bitmask.new s.number_of_leaks;
          nodes_found = replicate s.number_of_leaks 0;
        };
        tag = c.tag;
      } in
      elim (Option-cases (heap_iterations cfg left rounds start)) [
        | inl died ↦ rw (died, walk_and_report) stops
        | inr (h, e) ↦
            rw (e, walk_and_report)
              (report-AllFreed (ltb 0 (length rounds)) s.leaks c.class_nodes classes left h o
                (heap_iterations-IsSound (owners s.leaks c.class_nodes) cfg left rounds start h
                  (record { rooted = r; in_range = in_range }) e).rooted
                once)
      ]

module _ (strmap : StrMap) (loaded : Loaded) (facts : Facts)
    (print_fn : ℕ → ℕ → Output → Option Output)
    (show_unreachables consider_local_references : Bool) where
  -- Let the string map find what was put last, let the class hierarchy have no cycle, and let the fuel
  -- be above the rank of each class that is loaded. Take a whole dump: whatever tags the first walk has
  -- left, whatever objects the search finds, whatever references the later walks over the heap come
  -- upon and whatever is printed. If the search finds a leak, then the dump stops before the release
  -- (by a fatal error, where a tag of the first walk is met in place of an address, or in printing,
  -- where it crashes or its fuel is used up); or the classes that are then loaded have no tag, and the
  -- release uses no node that is freed, frees every node that was allocated and counts as many in
  -- nodes_freed, except that, when a class node has a recorded reference, untagAllClasses can
  -- instead meet a class node that is not freed and read the array of classes that it has deallocated.
  -- If the search finds no leak, no node is allocated, no object has an address as its tag, the objects
  -- that were searched have no tag, and all others, java.lang.Class among them, keep the tag of the
  -- first walk.
  pub find_leaks-AllFreed :
      (rank : ℕ → ℕ) (search : SearchConfig) (objects : List (ℕ × ℤ)) (fuel thread_id : ℕ)
      (max_fan_in : ℤ) (classes classes_later : List ℕ) (rounds : List (List HeapReference))
      (marks : Marks) (limits : strmap.Map) (o : Output)
      → IsRanked loaded.jvm rank
      → ((m : strmap.Map) (k k' : Bytes) (v : List IgnoreField)
          → strmap.get (strmap.put m k v) k' ≡ (if str_eq k k' then some v else strmap.get m k'))
      → ((c : ℕ) → is_listed c classes ≡ true → rank c < fuel)
      → AllFreed objects classes_later marks
          (search_objects_for_leaks search objects empty_search).leaks
          (find_leaks_in_tagged_objects strmap loaded facts print_fn show_unreachables
            consider_local_references search objects fuel thread_id max_fan_in classes classes_later
            rounds marks limits o)
  unfolding find_leaks_in_tagged_objects marks_after
  find_leaks-AllFreed rank search objects fuel thread_id max_fan_in classes classes_later rounds
        marks limits o ranked found_last enough =
      let s = search_objects_for_leaks search objects empty_search in
      let left = marks_after s.tags marks in
      let listed : IsListed s = search-IsListed search objects empty_search empty-IsListed in
      let tagged : AreSearched s =
        search-AreSearched search objects empty_search empty-AreSearched in
      elim (List-cases s.leaks) [
        | inl no_leak ↦
            rw (no_leak, find_leaks_in_tagged_objects)
              (nothing_found s objects classes_later marks left o no_leak listed tagged
                (search-marks search objects empty_search marks))
        | inr (leak, leaks, some_leaks) ↦
            let start : State strmap = record {
              nodes = s.nodes;
              ignore_referenced_by = limits;
              tag = tags_after s.tags;
              class_nodes = [];
            } in
            let (c, e, r, in_range, once) =
              tag_all_classes-IsRooted strmap loaded rank ranked found_last fuel s.number_of_leaks
                (owners_of (leak_nodes s.leaks)) classes start enough listed in
            rw (some_leaks, find_leaks_in_tagged_objects)
              (rw (e, find_leaks_in_tagged_objects)
                (walk_and_report-AllFreed strmap loaded facts print_fn show_unreachables
                  consider_local_references objects marks leak leaks thread_id max_fan_in s
                  classes_later rounds (clear_marks classes left) c o r (in_range tagged) once))
      ]
