-- ===== src/Node/FanIn.antt =====
-- src/cpp/data_struct.c, addReferenceClass: one count for each class that refers to a node.
use jleaker.Common.{
  ℕ, ◌+◌, ◌<◌, ◌≡◌, refl, true, ◌==◌, if◌then◌else◌, none, some, List, [], ◌∷◌, length, set,
  length-set, Option-cases, inl, inr, arith,
}
use jleaker.Node.Defs.{ClassReferenceCount, Store, node_at, count_class, add_reference_class}
use jleaker.Node.Counts.{IsCounted, IsCounted-set}

-- How often the class was counted.
unfoldable pub class_count : ℕ → List ClassReferenceCount → ℕ
class_count k [] = 0
class_count k (c ∷ cs) = let rest = class_count k cs in if c.klass == k then c.count else rest

-- addReferenceClass raises the count of the class by one, returns the new count, and leaves the
-- counts of all other classes alone.
pub count_class_lem :
    (the_class k : ℕ) (cs : List ClassReferenceCount)
    → (class_count k (count_class the_class cs).1
        ≡ class_count k cs + (if k == the_class then 1 else 0))
      × ((count_class the_class cs).0 ≡ class_count the_class (count_class the_class cs).1)
unfolding count_class class_count
count_class_lem the_class k [] = ground arith
count_class_lem the_class k (c ∷ cs) = ground (arith, count_class_lem the_class k cs)

-- What addReferenceClass does when it returns: only the node's list of counts changes.
pub add_reference_class-some :
    (st : Store) (node class_node : ℕ) {n : ℕ} {nodes : Store}
    → add_reference_class st node class_node ≡ some (n, nodes)
    → (the_class : ℕ) × ((node_at st class_node).class_node ≡ true)
      × ((node_at st class_node).obj ≡ some the_class)
      × (n ≡ (count_class the_class (node_at st node).fan_in).0)
      × (nodes
          ≡ set st node (record (node_at st node) {
            fan_in = (count_class the_class (node_at st node).fan_in).1;
          }))
unfolding add_reference_class
add_reference_class-some st node class_node e = elim (Option-cases (node_at st class_node).obj) [
  | inl null ↦ ground arith
  | inr (the_class, o) ↦ (the_class, ground arith, o, ground arith, ground arith)
]

pub add_reference_class-IsCounted :
    (owners : ℕ → ℕ) (st : Store) (node class_node : ℕ) {n : ℕ} {nodes : Store}
    → IsCounted owners st none
    → node < length st
    → add_reference_class st node class_node ≡ some (n, nodes)
    → IsCounted owners nodes none × (length nodes ≡ length st)
add_reference_class-IsCounted owners st node class_node c h e =
    let (the_class, _, _, _, same) = add_reference_class-some st node class_node e in
    (rw same (IsCounted-set node _ c h refl refl), rw same (length-set st node _))
