-- ===== src/Detect/Classes/Owned.antt =====
-- The list of class nodes that tagAllClasses makes, and the reference counts of its nodes.
use jleaker.Common.{
  ℕ, suc, ◌+◌, ◌<◌, ◌≤◌, ◌≡◌, ◌∙◌, sym, ap, true, false, if◌then◌else◌, none, some, List, [], ◌∷◌,
  length, Bytes, str_eq, ==_iff, Bool-cases, inl, inr, arith,
}
use jleaker.Common.Int.{pos}
use jleaker.Reference.Fields.Total.{IsRanked}
use jleaker.Node.Defs.{IgnoreField, node_at}
use jleaker.Node.Counts.{IsCounted}
use jleaker.Node.Free.Owners.{owners_of}
use jleaker.Configuration.{StrMap}
use jleaker.Detect.Classes.Defs.{Loaded, State, tag_all_classes}
use jleaker.Detect.Classes.Loop.{ordinary, is_listed, addresses, AreInRange, Owns}
use jleaker.Detect.Classes.Tagged.{all_classes, length-addresses}

ordinary-le : (loaded : Loaded) (classes : List ℕ) → ordinary loaded classes ≤ length classes
unfolding ordinary
ordinary-le loaded [] = omega arith
ordinary-le loaded (k ∷ ks) = ground (arith, ordinary-le loaded ks)

-- java.lang.Class leaves a place free.
ordinary-lt :
    (loaded : Loaded) (classes : List ℕ) (k : ℕ)
    → is_listed k classes ≡ true
    → loaded.is_class_class k ≡ true
    → ordinary loaded classes < length classes
unfolding ordinary is_listed
ordinary-lt loaded [] k listed class = cc
ordinary-lt loaded (x ∷ xs) k listed class = elim (Bool-cases (is_listed k xs)) [
  | inl later ↦ ground (arith, ordinary-lt loaded xs k later class)
  | inr here ↦
      let same : k ≡ x = (==_iff k x).0 (ground arith) in
      let class' : loaded.is_class_class x ≡ true = ap loaded.is_class_class (sym same) ∙ class in
      ground (arith, ordinary-le loaded xs)
]

module _ (strmap : StrMap) (loaded : Loaded) (rank : ℕ → ℕ) (ranked : IsRanked loaded.jvm rank)
    (found_last : (m : strmap.Map) (k k' : Bytes) (v : List IgnoreField)
      → strmap.get (strmap.put m k v) k' ≡ (if str_eq k k' then some v else strmap.get m k'))
    (fuel n : ℕ) where
  -- Let the string map find what was put last, let the class hierarchy have no cycle, and let the fuel
  -- be above the rank of each class that is loaded. Let each node's count be the number of its referers
  -- and of its places in some lists, which do not point past the store. Then tagAllClasses returns,
  -- and so they are with the list of class nodes among the lists. This list has the addresses of the
  -- new nodes in order, which are all that the store grows by, and with java.lang.Class among the loaded classes it has, with the NULL at
  -- its end, at most as many elements as classes are loaded, for which memory is allocated. The nodes
  -- that were there before and the tags of all other objects are what they were, no node is
  -- marked as visited if none was, and all tags are addresses of nodes if all were.
  pub tag_all_classes-Owns :
      (held : ℕ → ℕ) (classes : List ℕ) (s : State strmap)
      → ((c : ℕ) → is_listed c classes ≡ true → rank c < fuel)
      → IsCounted held s.nodes none
      → ((a : ℕ) → length s.nodes ≤ a → held a ≡ 0)
      → (last : State strmap) × (tag_all_classes strmap loaded fuel n classes s ≡ some last)
        × Owns strmap loaded held last
        × (last.class_nodes ≡ addresses (length s.nodes) (ordinary loaded classes))
        × (length last.nodes ≡ length s.nodes + length last.class_nodes)
        × ((k : ℕ)
            → is_listed k classes ≡ true
            → loaded.is_class_class k ≡ true
            → suc (length last.class_nodes) ≤ length classes)
        × ((a : ℕ) → a < length s.nodes → node_at last.nodes a ≡ node_at s.nodes a)
        × ((o : ℕ) → is_listed o classes ≡ false → last.tag o ≡ s.tag o)
        × (((a : ℕ) → (node_at s.nodes a).visited ≡ false)
            → (a : ℕ) → (node_at last.nodes a).visited ≡ false)
        × (AreInRange s.nodes s.tag → AreInRange last.nodes last.tag)
  unfolding tag_all_classes owners_of
  tag_all_classes-Owns held classes s enough counts within =
      let s0 : State strmap = record s { class_nodes = [] } in
      let (last, e, tags) =
        all_classes strmap loaded rank ranked found_last fuel n classes s0 enough in
      let owned : Owns strmap loaded held s0 = record {
        counts = record {
          counted = λ a lt. counts.counted a lt ∙ ap pos (omega arith);
          closed = counts.closed;
        };
        within = λ a le. omega (arith, within a le);
      } in
      (
        last,
        e,
        tags.owns held owned,
        tags.listed,
        omega (
          arith,
          tags.size,
          ap length tags.listed,
          length-addresses (length s.nodes) (ordinary loaded classes),
        ),
        λ k listed class. omega (
          arith,
          ap length tags.listed,
          length-addresses (length s.nodes) (ordinary loaded classes),
          ordinary-lt loaded classes k listed class,
        ),
        tags.same_nodes,
        tags.same_tags,
        tags.clear,
        tags.in_range,
      )
