-- ===== src/Detect/Classes/Tests.antt =====
-- The classes 1, java.lang.Class (3) and 2 are loaded, and class 2 has a limit for the field 9.
use jleaker.Common.{
  ℕ, zero, suc, ◌+◌, ◌<◌, ◌≤◌, ◌≡◌, refl, true, false, ◌==◌, if◌then◌else◌, Option, none, some,
  List, [], ◌∷◌, length, Bytes, str_eq, arith,
}
use jleaker.Common.Int.{pos, ◌+ℤ◌, ◌-ℤ◌}
use jleaker.Reference.Fields.Total.{IsRanked}
use jleaker.Node.Defs.{IgnoreField, node_at, fresh_node}
use jleaker.Node.Counts.{IsCounted, edges_to, hit}
use jleaker.Configuration.{StrMap}
use jleaker.Detect.Classes.Defs.{Loaded, State, tag_all_classes}
use jleaker.Detect.Classes.Loop.{ordinary, is_listed, addresses, AreInRange, Owns}
use jleaker.Detect.Classes.Tagged.{IsTagged, tag_all_classes-IsTagged}
use jleaker.Detect.Classes.Owned.{tag_all_classes-Owns}

abbrev loaded : Loaded
loaded = record {
  jvm = record {
    superclass = λ k. if k == 2 then some 1 else none;
    interfaces = λ k. [];
    class_fields = λ k. if k == 1 then 7 ∷ 8 ∷ [] else 9 ∷ [];
    field_name = λ k f. f ∷ [];
  };
  status = λ k. 7;
  name = λ k. k ∷ [];
  is_class_class = λ k. k == 3;
}

unfoldable find : List (Bytes × List IgnoreField) → Bytes → Option (List IgnoreField)
find [] k = none
find (e ∷ es) k = let rest = find es k in if str_eq e.0 k then some e.1 else rest

abbrev strmap : StrMap
strmap = record {
  Map = List (Bytes × List IgnoreField);
  get = find;
  put = λ m k v. (k, v) ∷ m;
  Set = List Bytes;
  put_class = λ ks k. k ∷ ks;
}

found_last :
    (m : strmap.Map) (k k' : Bytes) (v : List IgnoreField)
    → strmap.get (strmap.put m k v) k' ≡ (if str_eq k k' then some v else strmap.get m k')
unfolding find
found_last m k k' v = refl

ranked : IsRanked loaded.jvm (λ k. k)
ranked = record { interfaces_below = λ k. tt; superclass_below = λ k s e. ground arith }

abbrev limit : List IgnoreField
limit = record { field = pos 0; field_name = 9 ∷ []; threshold = pos 70 } ∷ []

abbrev start : State strmap
start = record {
  nodes = fresh_node 1 ∷ [];
  ignore_referenced_by = (2 ∷ [], limit) ∷ [];
  tag = λ o. if o == 8 then some 0 else none;
  class_nodes = [];
}

abbrev classes : List ℕ
classes = 1 ∷ 3 ∷ 2 ∷ []

abbrev seen : Option (State strmap) → List ℕ × (List (Option ℕ)) × (List IgnoreField)
seen none = ([], [], [])
seen (some s) =
    (s.class_nodes, s.tag 1 ∷ s.tag 3 ∷ s.tag 2 ∷ s.tag 8 ∷ [], (node_at s.nodes 2).ignore_fields)

runs : seen (tag_all_classes strmap loaded 4 1 classes start) ≡ (
  1 ∷ 2 ∷ [],
  some 1 ∷ none ∷ some 2 ∷ some 0 ∷ [],
  record { field = pos 2; field_name = 9 ∷ []; threshold = pos 70 } ∷ [],
)
unfolding tag_all_classes find fresh_node str_eq ◌+ℤ◌ ◌-ℤ◌
runs = refl

small : (c : ℕ) → is_listed c classes ≡ true → c < 4
unfolding is_listed
small c listed = ground arith

tag_all_classes-IsTagged_example :
    (last : State strmap) × (tag_all_classes strmap loaded 4 1 classes start ≡ some last)
    × IsTagged strmap loaded
        (λ k. k)
        ranked
        found_last
        4
        1
        1
        start.ignore_referenced_by
        last
        (1 ∷ 3 ∷ [])
        2
unfolding is_listed
tag_all_classes-IsTagged_example =
    tag_all_classes-IsTagged strmap loaded (λ k. k) ranked found_last 4 1 (1 ∷ 3 ∷ []) [] 2 start
      refl small

abbrev held : ℕ → ℕ
held a = if a == 0 then 1 else 0

counts : IsCounted held start.nodes none
unfolding fresh_node edges_to hit ◌+ℤ◌
counts = record { counted = here; closed = λ a le. ground arith }
  where
    here :
        (a : ℕ)
        → a < 1
        → (node_at start.nodes a).reference_pointing_to_me
          ≡ pos (held a + edges_to a start.nodes + hit none a)
    here zero lt = refl
    here (suc a) lt = absurd (omega arith)

tag_all_classes-Owns_example :
    (last : State strmap) × (tag_all_classes strmap loaded 4 1 classes start ≡ some last)
    × Owns strmap loaded held last
    × (last.class_nodes ≡ addresses 1 (ordinary loaded classes))
    × (length last.nodes ≡ 1 + length last.class_nodes)
    × ((k : ℕ)
        → is_listed k classes ≡ true
        → loaded.is_class_class k ≡ true
        → suc (length last.class_nodes) ≤ 3)
    × ((a : ℕ) → a < 1 → node_at last.nodes a ≡ node_at start.nodes a)
    × ((o : ℕ) → is_listed o classes ≡ false → last.tag o ≡ start.tag o)
    × (((a : ℕ) → (node_at start.nodes a).visited ≡ false)
        → (a : ℕ) → (node_at last.nodes a).visited ≡ false)
    × (AreInRange start.nodes start.tag → AreInRange last.nodes last.tag)
tag_all_classes-Owns_example =
    tag_all_classes-Owns strmap loaded (λ k. k) ranked found_last 4 1 held classes start small
      counts (λ a le. ground arith)
