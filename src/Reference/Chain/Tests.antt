-- ===== src/Reference/Chain/Tests.antt =====
-- A leaked object in a cycle with its owner, which a static field of a class holds.
use jleaker.Common.{ℕ, zero, suc, ◌+◌, ◌≡◌, refl, ap, false, some, List, [], ◌∷◌, inl, inr, arith}
use jleaker.Common.Int.{pos}
use jleaker.Bitmask.{new, add, contains, remove}
use jleaker.Bitmask.Bounds.{new-IsValid, add-IsValid}
use jleaker.Reference.Kind.{Kind, ReferenceInfo, is_root_reference, should_consider_this_reference}
use jleaker.Node.Defs.{MemoryReferer, Store, node_at, fresh_node}
use jleaker.Reference.Chain.{Jvm, Search, generate_references_chain_for_node}
use jleaker.Reference.Chain.Frame.{AreValid}
use jleaker.Reference.Chain.Total.{AreLinked}
use jleaker.Reference.Chain.Decided.{IsDecided, generate-IsDecided}

-- The node at address `a` tags the object `100 + a`.
abbrev jvm : Jvm
jvm = record {
  objects_with_tag = λ a. (100 + a) ∷ [];
  object_class = λ o. 7;
  class_name = λ k. 76 ∷ [];
}

abbrev from_owner : MemoryReferer
from_owner = record {
  kind = Kind.field;
  info = some (ReferenceInfo.field_info (pos 0));
  node = some 1;
}

abbrev from_leak : MemoryReferer
from_leak = record {
  kind = Kind.field;
  info = some (ReferenceInfo.field_info (pos 1));
  node = some 0;
}

abbrev from_class : MemoryReferer
from_class = record {
  kind = Kind.static_field;
  info = some (ReferenceInfo.field_info (pos 2));
  node = some 2;
}

abbrev store : Store
store =
    record (fresh_node 1) { leaks_related = add (new 1) 0; referers = from_owner ∷ [] }
    ∷ record (fresh_node 1) {
      leaks_related = add (new 1) 0;
      referers = from_leak ∷ from_class ∷ [];
    }
    ∷ fresh_node 1
    ∷ []

refs_of : Search → List MemoryReferer
refs_of (Search.ends refs st) = refs
refs_of _ = []

runs :
    (refs_of (generate_references_chain_for_node jvm false 0 4 0 store)
      ≡ from_owner ∷ from_class ∷ [])
    × (refs_of (generate_references_chain_for_node jvm false 0 4 2 store) ≡ [])
unfolding refs_of generate_references_chain_for_node contains new add remove fresh_node
    is_root_reference should_consider_this_reference
runs = (refl, refl)

valid : AreValid store
unfolding fresh_node
valid zero = add-IsValid (new 1) (new-IsValid 1) 0
valid (suc zero) = add-IsValid (new 1) (new-IsValid 1) 0
valid (suc (suc zero)) = new-IsValid 1
valid (suc (suc (suc a))) = new-IsValid 0

linked : (a : ℕ) → AreLinked (node_at store a).referers
unfolding fresh_node is_root_reference
linked zero r (inl e) inner = (1, ap (λ (x : MemoryReferer). x.node) e)
linked zero r (inr m) inner = absurd m
linked (suc zero) r (inl e) inner = (0, ap (λ (x : MemoryReferer). x.node) e)
linked (suc zero) r (inr (inl e)) inner = (2, ap (λ (x : MemoryReferer). x.node) e)
linked (suc zero) r (inr (inr m)) inner = absurd m
linked (suc (suc zero)) r m inner = absurd m
linked (suc (suc (suc a))) r m inner = absurd m

clear : (a : ℕ) → (node_at store a).visited ≡ false
unfolding fresh_node
clear zero = refl
clear (suc zero) = refl
clear (suc (suc zero)) = refl
clear (suc (suc (suc a))) = refl

generate-IsDecided_example :
    IsDecided jvm false 0 store 0 (generate_references_chain_for_node jvm false 0 4 0 store)
generate-IsDecided_example =
    generate-IsDecided jvm false 0 store 0 4 (λ a. omega arith)
      (record { valid = valid; linked = linked }) clear (omega arith)
