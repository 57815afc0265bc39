-- ===== src/Detect/Dump/Defs.antt =====
-- The walks of tagReferencesChain over a heap whose objects have tags, and the tags at the end.
use jleaker.Common.{
  ℕ, suc, Bool, true, false, not, ◌==◌, ◌||◌, ltb, if◌then◌else◌, Option, none, some, ◌>>=◌, List,
  [], ◌∷◌, length, replicate,
}
use jleaker.Common.Int.{ℤ}
use jleaker.Bitmask
use jleaker.Reference.Kind.{Kind, ReferenceInfo, local_reference_of_this_thread}
use jleaker.Reference.Printing.{Facts, Printed, print_references_chain_for_leaking_nodes}
use jleaker.Output.{Output}
use jleaker.Configuration.{StrMap}
use jleaker.Node.Defs.{Store}
use jleaker.Node.Free.{Memory, Freed}
use jleaker.Detect.Search.{SearchConfig, LeakingNode, SearchState, search_objects_for_leaks}
use jleaker.Detect.Walk.{Config, Walk, Referrer, Outcome, cb_object_tag_referrer}
use jleaker.Detect.Rounds.{has_unfinished, reset_found}
use jleaker.Detect.Release.{Released, released, free_memory_for_leak_list, free_class_nodes}
use jleaker.Detect.Classes.Defs.{Loaded, State, set_tag, tag_all_classes}

-- The tags that the first walk of the heap left and that are not addresses of nodes: those of classes,
-- among them java.lang.Class, and of the collections. `none` is for an object without such a tag.
abbrev pub Marks : Type 0
Marks = ℕ → Option ℤ

abbrev pub is_marked : Marks → ℕ → Bool
is_marked marks o = elim (marks o) [ none ↦ false | some t ↦ true ]

abbrev pub is_marked_one : Marks → Option ℕ → Bool
is_marked_one marks none = false
is_marked_one marks (some o) = is_marked marks o

-- What SetTag does to them.
abbrev pub clear_mark : ℕ → Marks → Marks
clear_mark object marks o = if o == object then none else marks o

unfoldable pub clear_marks : List ℕ → Marks → Marks
clear_marks [] marks = marks
clear_marks (c ∷ cs) marks = clear_marks cs (clear_mark c marks)

-- The nodes and the data of the walk, and the tag of each object, `none` for 0.
pub record Heap : Type 0 where
  pub walk : Walk
  pub tag : ℕ → Option ℕ

-- A reference in the heap that FollowReferences comes upon: the objects that it leads to and from, and the
-- class of each.
pub record HeapReference : Type 0 where
  pub kind : Kind
  pub info : Option ReferenceInfo
  pub referee_class : ℕ
  pub referee : ℕ
  pub referrer_class : Option ℕ
  pub referrer : Option ℕ

-- `referrer_tag_ptr` and `referrer_class_tag`
abbrev pub referrer_of : Heap → Option ℕ → Referrer
referrer_of h none = Referrer.no_object
referrer_of h (some o) = Referrer.tag (h.tag o)

abbrev pub class_tag : Heap → Option ℕ → Option ℕ
class_tag h none = none
class_tag h (some c) = h.tag c

-- `*referrer_tag_ptr` after the callback.
abbrev pub write_back : Option ℕ → Referrer → (ℕ → Option ℕ) → ℕ → Option ℕ
write_back (some o) (Referrer.tag t) tags = set_tag o t tags
write_back _ _ tags = tags

-- The callback takes a tag of the first walk for the address of a node, unless it returns before; what
-- follows is not determined, and the model stops.
abbrev pub stray : Config → HeapReference → Heap → Option Heap
stray cfg r h = if local_reference_of_this_thread cfg.thread_id r.kind r.info then some h else none

-- `class_tag` is not 0.
abbrev pub has_tag : Marks → Heap → ℕ → Bool
has_tag marks h o = elim (h.tag o) [ none ↦ is_marked marks o | some a ↦ true ]

-- The callback is not called for an untagged referee, by JVMTI_HEAP_FILTER_UNTAGGED, or when the class of
-- the referee is untagged, by JVMTI_HEAP_FILTER_CLASS_UNTAGGED; `none` is fatal_error. The model also stops where a tag of the first walk is met on the referrer or its class,
-- which the callback may leave alone.
unfoldable pub visit_reference : Config → Marks → HeapReference → Heap → Option Heap
unfolding cb_object_tag_referrer local_reference_of_this_thread
visit_reference cfg marks r h =
    if not (has_tag marks h r.referee_class) then some h else elim (is_marked marks r.referee) [
      | true ↦ stray cfg r h
      | false ↦ elim (h.tag r.referee) [
        | none ↦ some h
        | some this ↦
            elim (is_marked_one marks r.referrer_class || is_marked_one marks r.referrer) [
              | true ↦ stray cfg r h
              | false ↦
                  elim (cb_object_tag_referrer cfg r.kind r.info this (class_tag h r.referrer_class)
                    (referrer_of h r.referrer) h.walk) [
                      | Outcome.fatal ↦ none
                      | Outcome.visit w t ↦
                          some (record { walk = w; tag = write_back r.referrer t h.tag })
                    ]
            ]
      ]
    ]

-- FollowReferences, for the references that it reports in one walk.
unfoldable pub follow_references : Config → Marks → List HeapReference → Heap → Option Heap
unfolding visit_reference
follow_references cfg marks [] h = some h
follow_references cfg marks (r ∷ rs) h = do
  h' ← visit_reference cfg marks r h
  follow_references cfg marks rs h'

-- The loop of tagReferencesChain, for what each walk reports; there are as many as
-- `reference_chain_length` says.
unfoldable pub heap_iterations : Config → Marks → List (List HeapReference) → Heap → Option Heap
unfolding follow_references has_unfinished reset_found
heap_iterations cfg marks [] h = some h
heap_iterations cfg marks (rs ∷ rounds) h = do
  h' ← follow_references cfg marks rs (record h { walk = reset_found cfg.number_of_leaks h.walk })
  let rest = heap_iterations cfg marks rounds h' in
      if has_unfinished h'.walk cfg.number_of_leaks 0 then rest else some h'

-- The loop of untagAllClasses over the loaded classes.
unfoldable pub untag_classes : List ℕ → (ℕ → Option ℕ) → ℕ → Option ℕ
untag_classes [] tags = tags
untag_classes (c ∷ cs) tags = untag_classes cs (set_tag c none tags)

-- untagAllClasses; `class_nodes` is `none` for NULL.
unfoldable pub untag_all_classes :
    (fuel : ℕ) (loaded : List ℕ)
    → Option (List ℕ)
    → (ℕ → Option ℕ)
    → Marks
    → Memory
    → Released × (ℕ → Option ℕ) × Marks
unfolding free_class_nodes untag_classes clear_marks
untag_all_classes fuel loaded none tags marks m = (released m, tags, marks)
untag_all_classes fuel loaded (some nodes) tags marks m =
    (free_class_nodes fuel nodes m, untag_classes loaded tags, clear_marks loaded marks)

-- The addresses that the calls of SetTag leave as tags, the last of which stands first; before the search
-- there is no node.
unfoldable pub tags_after : List (ℕ × Option ℕ) → ℕ → Option ℕ
tags_after [] = λ o. none
tags_after (t ∷ ts) = set_tag t.0 t.1 (tags_after ts)

-- What these calls leave of the tags of the first walk.
unfoldable pub marks_after : List (ℕ × Option ℕ) → Marks → Marks
marks_after [] marks = marks
marks_after (t ∷ ts) marks = clear_mark t.0 (marks_after ts marks)

-- `stopped` is the end of the process, or of the fuel for the class hierarchy or for printing; else
-- the nodes that were allocated, the list of the class nodes, what is released, the tags and the text.
pub data Dump : Type 0 where
  stopped : Dump
  dumped :
      (nodes : Store) (class_nodes : List ℕ)
      → Released
      → (tags : ℕ → Option ℕ) (marks : Marks) → Output
      → Dump

-- No node, no leak and no tag.
abbrev pub empty_search : SearchState
empty_search = record { nodes = []; number_of_leaks = 0; leaks = []; tags = [] }

module _ (strmap : StrMap) (loaded : Loaded) (facts : Facts)
    (print_fn : ℕ → ℕ → Output → Option Output)
    (show_unreachables consider_local_references : Bool) where
  -- freeMemoryForLeakList and untagAllClasses, with fuel for one call more than there are nodes.
  unfoldable pub release :
      List LeakingNode
      → (class_nodes classes : List ℕ) → (ℕ → Option ℕ)
      → Marks
      → Store
      → Output
      → Dump
  unfolding free_memory_for_leak_list untag_all_classes
  release leaks class_nodes classes tags marks st o =
      let fuel = suc (length st) in
      elim (free_memory_for_leak_list fuel leaks
        (record { nodes = st; freed = λ a. false; nodes_freed = 0 })) [
          | Freed.exhausted ↦ dumped st class_nodes Released.exhausted tags marks o
          | Freed.faulted ↦ dumped st class_nodes Released.faulted tags marks o
          | Freed.done answer m ↦
              let untagged = untag_all_classes fuel classes (some class_nodes) tags marks m in
              dumped st class_nodes untagged.0 untagged.1 untagged.2 o
        ]

  -- What follows the walks.
  unfoldable pub report :
      (is_need_references : Bool)
      → List LeakingNode
      → (class_nodes classes : List ℕ) → Marks
      → Heap
      → Output
      → Dump
  unfolding release print_references_chain_for_leaking_nodes
  report is_need_references leaks class_nodes classes marks h o =
      elim (print_references_chain_for_leaking_nodes facts show_unreachables
        consider_local_references is_need_references print_fn leaks h.walk.nodes o) [
          | Printed.exhausted ↦ stopped
          | Printed.crashed ↦ stopped
          | Printed.printed st o' ↦ release leaks class_nodes classes h.tag marks st o'
        ]

  -- What follows tagAllClasses.
  unfoldable pub walk_and_report :
      (thread_id : ℕ) (max_fan_in : ℤ)
      → SearchState
      → (classes : List ℕ) → (rounds : List (List HeapReference)) → Marks
      → State strmap
      → Output
      → Dump
  unfolding report heap_iterations Bitmask.new
  walk_and_report thread_id max_fan_in s classes rounds marks c o =
      let cfg : Config = record {
        thread_id = thread_id;
        max_fan_in = max_fan_in;
        number_of_leaks = s.number_of_leaks;
      } in
      elim (heap_iterations cfg marks rounds (record {
        walk = record {
          nodes = c.nodes;
          leaks_finished = Bitmask.new s.number_of_leaks;
          nodes_found = replicate s.number_of_leaks 0;
        };
        tag = c.tag;
      })) [
        | none ↦ stopped
        | some h ↦ report (ltb 0 (length rounds)) s.leaks c.class_nodes classes marks h o
      ]

  -- findLeaksInTaggedObjects for the objects that GetObjectsWithTags returns and the tags `marks` of the
  -- first walk. The classes that are loaded at the end are `classes_later`. Without a leak, only the
  -- search is made, and untagAllClasses returns at once.
  unfoldable pub find_leaks_in_tagged_objects :
      SearchConfig
      → (objects : List (ℕ × ℤ)) → (fuel thread_id : ℕ) (max_fan_in : ℤ)
      → (classes classes_later : List ℕ) → (rounds : List (List HeapReference)) → Marks
      → strmap.Map
      → Output
      → Dump
  unfolding search_objects_for_leaks tag_all_classes walk_and_report tags_after marks_after
      untag_all_classes clear_marks
  find_leaks_in_tagged_objects search objects fuel thread_id max_fan_in classes classes_later rounds
        marks limits o =
      let s = search_objects_for_leaks search objects empty_search in
      let tags = tags_after s.tags in
      let left = marks_after s.tags marks in
      elim s.leaks [
        | [] ↦
            let end =
              untag_all_classes (suc (length s.nodes)) classes_later none tags left
                (record { nodes = s.nodes; freed = λ a. false; nodes_freed = 0 }) in
            dumped s.nodes [] end.0 end.1 end.2 o
        | leak ∷ leaks ↦
            elim (tag_all_classes strmap loaded fuel s.number_of_leaks classes (record {
              nodes = s.nodes;
              ignore_referenced_by = limits;
              tag = tags;
              class_nodes = [];
            })) [
              | none ↦ stopped
              | some c ↦
                  walk_and_report thread_id max_fan_in s classes_later rounds
                    (clear_marks classes left) c o
            ]
      ]
