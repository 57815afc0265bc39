-- ===== src/Detect/Search/Tests.antt =====
-- Three tagged objects, two of them above the threshold.
use jleaker.Common.{
  ℕ, ◌≡◌, refl, false, ◌==◌, if◌then◌else◌, Option, none, some, List, [], ◌∷◌, arith,
}
use jleaker.Common.Int.{ℤ, pos, ◌+ℤ◌, ◌-ℤ◌}
use jleaker.Node.Defs.{fresh_node, new_memory_node}
use jleaker.Detect.Search.{
  ClassFacts, SearchConfig, LeakingNode, SearchState, initial_class_tag, generate_tag_for_class,
  cb_heap_object, tag_index, search_objects_for_leaks,
}
use jleaker.Detect.Search.Tags.{first_assignable, is_eligible, tag_index-cb_heap_object}
use jleaker.Detect.Search.Leaks.{Reports, search_objects_for_leaks-Reports}

-- The table: Collection, Map, and a Multimap that is not loaded.
abbrev table : List (Option ℕ)
table = some 11 ∷ some 12 ∷ none ∷ []

abbrev hash_map : ClassFacts
hash_map = record {
  is_class_class = false;
  is_interface = some false;
  is_array_class = some false;
  has_enclosing_class = false;
  is_ignored = false;
  is_assignable_to = λ k. k == 12;
}

tag_index-cb_heap_object_example :
    tag_index 3 (cb_heap_object 3 (generate_tag_for_class table hash_map) (pos 0))
    ≡ (if is_eligible hash_map then first_assignable (λ k. k == 12) table 0 else none)
tag_index-cb_heap_object_example = tag_index-cb_heap_object table hash_map (pos 0) (omega arith)

abbrev cfg : SearchConfig
cfg = record {
  size_threshold = pos 500;
  print_fns = 1 ∷ 2 ∷ 3 ∷ [];
  call_size = λ o i. if o == 21 then pos 20 else pos 600;
}

abbrev start : SearchState
start = record { nodes = fresh_node 0 ∷ []; number_of_leaks = 0; leaks = []; tags = [] }

abbrev objects : List (ℕ × ℤ)
objects = (20, initial_class_tag +ℤ pos 1) ∷ (21, initial_class_tag) ∷ (22, initial_class_tag) ∷ []

numbers : List LeakingNode → List (ℕ × ℕ)
numbers [] = []
numbers (l ∷ ls) = (l.leak_number, l.node) ∷ numbers ls

runs : numbers (search_objects_for_leaks cfg objects start).leaks ≡ (0, 1) ∷ (1, 2) ∷ []
unfolding numbers search_objects_for_leaks ◌+ℤ◌ ◌-ℤ◌ new_memory_node
runs = refl

search_objects_for_leaks-Reports_example :
    Reports cfg start (search_objects_for_leaks cfg objects start) objects
search_objects_for_leaks-Reports_example =
    search_objects_for_leaks-Reports cfg objects start ((refl, (refl, tt)), ((refl, tt), (tt, tt)))
