-- ===== src/Detect/Dump/Tests.antt =====
-- A collection (5) in a field of an object (6) of class 1, which a system class holds; the loaded classes
-- are 1 and java.lang.Class (3).
use jleaker.Common.{
  ℕ, ◌<◌, ◌≡◌, refl, true, false, ◌==◌, ◌||◌, length, if◌then◌else◌, Option, none, some, List, [],
  ◌∷◌, Bytes, bytes, str_eq, arith,
}
use jleaker.Common.Int.{ℤ, pos, ◌+ℤ◌, ◌-ℤ◌}
use jleaker.Bitmask
use jleaker.Reference.Kind.{
  Kind, ReferenceInfo, kind_eq, field_index, is_root_reference, should_consider_this_reference,
  local_reference_of_this_thread,
}
use jleaker.Reference.Chain.{generate_references_chain_for_node}
use jleaker.Detect.Walk.{is_field_ignored}
use jleaker.Reference.Fields.Jvm.{Jvm}
use jleaker.Reference.Printing.{Facts, reference_message}
use jleaker.Output.{Output}
use jleaker.Configuration.{StrMap}
use jleaker.Node.Defs.{IgnoreField, add_reference_class}
use jleaker.Detect.Search.{
  SearchConfig, initial_class_tag, class_class_initial_tag, search_objects_for_leaks,
}
use jleaker.Detect.Release.{released}
use jleaker.Detect.Classes.Defs.{Loaded}
use jleaker.Detect.Classes.Loop.{is_listed}
use jleaker.Detect.Dump.Defs.{
  Marks, empty_search, HeapReference, Dump, dumped, find_leaks_in_tagged_objects,
}
use jleaker.Detect.Dump.Freed.{AllFreed}
use jleaker.Detect.Dump.Released.{find_leaks-AllFreed}

abbrev fields : Jvm
fields = record {
  superclass = λ k. none;
  interfaces = λ k. [];
  class_fields = λ k. 7 ∷ [];
  field_name = λ k f. bytes "f";
}

abbrev loaded : Loaded
loaded = record { jvm = fields; status = λ k. 7; name = λ k. k ∷ []; is_class_class = λ k. k == 3 }

abbrev facts : Facts
facts = record {
  jvm = record {
    objects_with_tag = λ a. 6 ∷ [];
    object_class = λ o. 1;
    class_name = λ k. bytes "A";
  };
  fields = fields;
  depth = 3;
  declaring_class = λ m. 0;
  is_static = λ m. false;
  method_name = λ m. bytes "m";
  method_desc = λ m. bytes "()V";
  arguments_size = λ m. 1;
}

abbrev strmap : StrMap
strmap = record {
  Map = Bytes → Option (List IgnoreField);
  get = λ m k. m k;
  put = λ m k v k'. if str_eq k k' then some v else m k';
  Set = List Bytes;
  put_class = λ ks k. k ∷ ks;
}

abbrev search : SearchConfig
search = record {
  size_threshold = pos 8;
  print_fns = 0 ∷ [];
  call_size = λ object index. if object == 5 then pos 9 else pos 2;
}

abbrev round : List HeapReference
round =
    record {
      kind = Kind.field;
      info = some (ReferenceInfo.field_info (pos 0));
      referee_class = 1;
      referee = 5;
      referrer_class = some 1;
      referrer = some 6;
    }
    ∷ record {
      kind = Kind.system_class;
      info = none;
      referee_class = 1;
      referee = 6;
      referrer_class = none;
      referrer = none;
    }
    ∷ []

abbrev before : Output
before = record { xml_depth = pos 0; text = [] }

-- The tags of java.lang.Class and of the two objects.
abbrev marks : Marks
marks o =
    if o == 3
    then some class_class_initial_tag
    else (if o == 4 || o == 5 then some initial_class_tag else none)

abbrev dump_of : List (ℕ × ℤ) → List HeapReference → Dump
dump_of objects round =
    find_leaks_in_tagged_objects strmap loaded facts (λ fn object o. some o) false false search
      objects 4 1 (pos 4) (1 ∷ 3 ∷ []) (1 ∷ 3 ∷ []) (round ∷ []) marks (λ k. none) before

abbrev objects : List (ℕ × ℤ)
objects = (5, initial_class_tag) ∷ (4, initial_class_tag) ∷ []

-- The numbers of nodes that are allocated and freed, and the tags of some objects.
abbrev counts : Dump → ℕ × ℕ × List (Option ℕ) × List (Option ℤ)
counts (dumped st nodes (released m) tags left o) =
    (length st, m.nodes_freed, tags 5 ∷ tags 6 ∷ tags 1 ∷ [], left 3 ∷ left 4 ∷ [])
counts (dumped st nodes _ tags left o) = (length st, 0, tags 5 ∷ [], left 3 ∷ [])
counts _ = (0, 0, [], [])

runs : counts (dump_of objects round) ≡ (3, 3, some 0 ∷ some 2 ∷ none ∷ [], none ∷ none ∷ [])
unfolding find_leaks_in_tagged_objects ◌+ℤ◌ ◌-ℤ◌ local_reference_of_this_thread Bitmask.contains_all
    Bitmask.add Bitmask.is_empty add_reference_class kind_eq is_field_ignored is_root_reference
    Bitmask.add_all_with_exclusion Bitmask.contains Bitmask.add_all
    generate_references_chain_for_node should_consider_this_reference reference_message field_index
runs = refl

-- Without a leak java.lang.Class keeps its tag.
no_leak :
    counts (dump_of ((4, initial_class_tag) ∷ []) [])
    ≡ (0, 0, none ∷ none ∷ none ∷ [], some class_class_initial_tag ∷ none ∷ [])
unfolding find_leaks_in_tagged_objects ◌+ℤ◌ ◌-ℤ◌
no_leak = refl

small : (c : ℕ) → is_listed c (1 ∷ 3 ∷ []) ≡ true → c < 4
unfolding is_listed
small c listed = ground arith

find_leaks-AllFreed_example :
    AllFreed objects
      (1 ∷ 3 ∷ [])
      marks
      (search_objects_for_leaks search objects empty_search).leaks
      (dump_of objects round)
find_leaks-AllFreed_example =
    find_leaks-AllFreed strmap loaded facts (λ fn object o. some o) false false (λ k. k) search
      objects 4 1 (pos 4) (1 ∷ 3 ∷ []) (1 ∷ 3 ∷ []) (round ∷ []) marks (λ k. none) before
      (record { interfaces_below = λ k. tt; superclass_below = λ k s e. cc }) (λ m k k' v. refl)
      small
