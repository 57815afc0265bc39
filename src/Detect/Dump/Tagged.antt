-- ===== src/Detect/Dump/Tagged.antt =====
-- Every tag that searchObjectsForLeaks sets is the address of a node.
use jleaker.Common.{
  ℕ, ◌≡◌, refl, ◌==◌, if◌then◌else◌, Option, none, some, List, [], ◌∷◌, map, length, Bool-cases,
  inl, inr, arith,
}
use jleaker.Common.Int.{ℤ, ltb_ℤ}
use jleaker.Node.Counts.{edges_to, hit}
use jleaker.Node.Free.Owners.{owners_of}
use jleaker.Node.Defs.{fresh_node, new_memory_node}
use jleaker.Detect.Search.{
  SearchConfig, SearchState, tag_index, object_size, object_printer, add_leak, search_object,
  search_objects_for_leaks,
}
use jleaker.Detect.Search.Leaks.{length-add_leak}
use jleaker.Detect.Classes.Loop.{is_listed, AreInRange, AreInRange-set_tag}
use jleaker.Detect.Dump.Defs.{Marks, tags_after, marks_after, empty_search}
use jleaker.Detect.Dump.Listed.{IsListed}

-- The tags of the state after the search.
abbrev pub AreSearched : SearchState → Type 0
AreSearched s = AreInRange s.nodes (tags_after s.tags)

add_leak-AreSearched :
    (object : ℕ) (size : ℤ) (fn : Option ℕ) (s : SearchState)
    → AreSearched s
    → AreSearched (add_leak object size fn s)
unfolding tags_after add_leak new_memory_node
add_leak-AreSearched object size fn s r =
    let longer = length-add_leak object size fn s in
    AreInRange-set_tag s.nodes (add_leak object size fn s).nodes (tags_after s.tags) object
      (some (length s.nodes)) (omega (arith, longer)) (λ a e. ground (arith, longer)) r

search_object-AreSearched :
    (cfg : SearchConfig) (object : ℕ) (tag : ℤ) (s : SearchState)
    → AreSearched s
    → AreSearched (search_object cfg object tag s)
unfolding search_object tags_after
search_object-AreSearched cfg object tag s r =
    let idx = tag_index (length cfg.print_fns) tag in
    let size = object_size cfg object idx in
    elim (Bool-cases (ltb_ℤ cfg.size_threshold size)) [
      | inl above ↦
          rw (above, search_object) (add_leak-AreSearched object size (object_printer cfg idx) s r)
      | inr below ↦
          rw (below, search_object)
            (AreInRange-set_tag s.nodes s.nodes (tags_after s.tags) object none (omega arith)
              (λ a e. cc) r)
    ]

pub search-AreSearched :
    (cfg : SearchConfig) (os : List (ℕ × ℤ)) (s : SearchState)
    → AreSearched s
    → AreSearched (search_objects_for_leaks cfg os s)
unfolding search_objects_for_leaks
search-AreSearched cfg [] s r = r
search-AreSearched cfg (o ∷ os) s r =
    search-AreSearched cfg os (search_object cfg o.0 o.1 s)
      (search_object-AreSearched cfg o.0 o.1 s r)

-- The search leaves no tag of the first walk on the objects that it looks at, and the others alone.
search_object-marks :
    (cfg : SearchConfig) (object : ℕ) (tag : ℤ) (s : SearchState) (marks : Marks) (o : ℕ)
    → marks_after (search_object cfg object tag s).tags marks o
      ≡ (if o == object then none else marks_after s.tags marks o)
unfolding search_object marks_after add_leak
search_object-marks cfg object tag s marks o =
    let size = object_size cfg object (tag_index (length cfg.print_fns) tag) in
    elim (Bool-cases (ltb_ℤ cfg.size_threshold size)) [
      | inl above ↦ rw above refl
      | inr below ↦ rw below refl
    ]

pub search-marks :
    (cfg : SearchConfig) (os : List (ℕ × ℤ)) (s : SearchState) (marks : Marks) (o : ℕ)
    → marks_after (search_objects_for_leaks cfg os s).tags marks o
      ≡ (if is_listed o (map (λ x. x.0) os) then none else marks_after s.tags marks o)
unfolding search_objects_for_leaks is_listed
search-marks cfg [] s marks o = refl
search-marks cfg (x ∷ os) s marks o =
    let later = search-marks cfg os (search_object cfg x.0 x.1 s) marks o in
    let first = search_object-marks cfg x.0 x.1 s marks o in
    elim (Bool-cases (is_listed o (map (λ x. x.0) os))) [
      | inl again ↦ ground arith
      | inr last ↦ ground arith
    ]

-- Before the search there is no node and no tag.
pub empty-IsListed : IsListed empty_search
unfolding owners_of edges_to hit fresh_node
empty-IsListed = record {
  counts = record { counted = λ a lt. absurd (omega arith); closed = λ a le. omega arith };
  clear = λ a. refl;
  within = λ a le. refl;
  led = λ a lt. absurd (omega arith);
}

pub empty-AreSearched : AreSearched empty_search
unfolding tags_after
empty-AreSearched o a e = cc
