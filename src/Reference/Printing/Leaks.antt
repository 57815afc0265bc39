-- ===== src/Reference/Printing/Leaks.antt =====
-- The functions that print references, chains and leaks.
use jleaker.Common.{
  ℕ, ◌+◌, Bool, if◌then◌else◌, Option, none, some, List, [], ◌∷◌, length, Bytes, bytes,
}
use jleaker.Reference.Chain.{Search, fill_class_in_memory_node, generate_references_chain_for_node}
use jleaker.Node.Defs.{MemoryReferer, Store, node_at}
use jleaker.Detect.Search.{LeakingNode}
use jleaker.Output.{Output, complete_xml_element, open_xml_element, close_xml_element}
use jleaker.Reference.Printing.Format.{decimal, snprintf}
use jleaker.Reference.Printing.Defs.{Facts, Message, message, reference_message}

-- `exhausted` means that the fuel ran out, `crashed` that the process ends.
pub data Printed : Type 0 where
  exhausted crashed : Printed
  printed : Store → Output → Printed

-- What follows if the process goes on.
unfoldable pub and_then : Printed → (Store → Output → Printed) → Printed
and_then exhausted next = exhausted
and_then crashed next = crashed
and_then (printed st o) next = next st o

-- `close_xml_element(tag)` at the end.
unfoldable pub closing : Bytes → Printed → Printed
unfolding and_then
closing tag p = and_then p (λ st o. printed st (close_xml_element tag o))

module _ (facts : Facts) where
  -- The end of printSingleReference.
  unfoldable pub print_message : Store → Output → Message → Printed
  print_message st o Message.exhausted = exhausted
  print_message st o Message.crashed = crashed
  print_message st o (message none) = printed st o
  print_message st o (message (some msg)) =
      printed st (complete_xml_element (bytes "reference") ((bytes "location", msg) ∷ []) o)

  -- printSingleReference, for the node of the reference.
  unfoldable pub print_filled : MemoryReferer → Option ℕ → Store → Output → Printed
  unfolding print_message
  print_filled ref none st o =
      print_message st o (reference_message snprintf facts ref.kind ref.info none)
  print_filled ref (some a) st o = elim (fill_class_in_memory_node facts.jvm st a) [
    | none ↦ crashed
    | some st' ↦
        print_message st' o
          (reference_message snprintf facts ref.kind ref.info (some (node_at st' a)))
  ]

  unfoldable pub print_single_reference : MemoryReferer → Store → Output → Printed
  unfolding print_filled
  print_single_reference ref st o = print_filled ref ref.node st o

  -- The loops of printAllReferencesToNode and of printReferenceChainToNode.
  unfoldable pub print_references : List MemoryReferer → Store → Output → Printed
  unfolding print_single_reference and_then
  print_references [] st o = printed st o
  print_references (ref ∷ refs) st o =
      and_then (print_single_reference ref st o) (λ st' o'. print_references refs st' o')

  unfoldable pub print_all_references_to_node : (node : ℕ) → Store → Output → Printed
  unfolding print_references closing
  print_all_references_to_node node st o =
      closing (bytes "references") (
        print_references (node_at st node).referers st (open_xml_element (bytes "references") [] o))

  unfoldable pub print_reference_chain_to_node : List MemoryReferer → Store → Output → Printed
  unfolding print_references closing
  print_reference_chain_to_node refs st o =
      closing (bytes "reference-chain-to-root")
        (print_references refs st (open_xml_element (bytes "reference-chain-to-root") [] o))

  module _ (show_unreachables consider_local_references is_need_references : Bool)
      (print_fn : ℕ → ℕ → Output → Option Output) where
    -- `(*leak->print_fn)(n->obj)`
    unfoldable pub call_print_fn : Option ℕ → Option ℕ → Store → Output → Printed
    call_print_fn (some fn) (some obj) st o = elim (print_fn fn obj o) [
      | none ↦ crashed
      | some o' ↦ printed st o'
    ]
    call_print_fn _ _ st o = crashed

    -- What is printed of the references, `[]` for NULL.
    unfoldable pub print_how_reached : (node : ℕ) → List MemoryReferer → Store → Output → Printed
    unfolding print_all_references_to_node print_reference_chain_to_node
    print_how_reached node [] st o =
        if is_need_references then print_all_references_to_node node st o else printed st o
    print_how_reached node (r ∷ rs) st o =
        if is_need_references then print_reference_chain_to_node (r ∷ rs) st o else printed st o

    -- A leak whose node has been filled.
    unfoldable pub print_element :
        LeakingNode → List MemoryReferer → (classname : Option Bytes) → Store → Output → Printed
    unfolding call_print_fn print_how_reached closing and_then
    print_element leak refs none st o = crashed
    print_element leak refs (some classname) st o =
        let leak_size_str = snprintf 32 (decimal leak.leak_size) in
        closing (bytes "leaking-object") (
          and_then
            (call_print_fn leak.print_fn (node_at st leak.node).obj st (
              open_xml_element (bytes "leaking-object")
                ((bytes "class", classname) ∷ (bytes "size", leak_size_str) ∷ []) o))
            (λ st' o'. print_how_reached leak.node refs st' o'))

    unfoldable pub fill_and_print : LeakingNode → List MemoryReferer → Store → Output → Printed
    unfolding print_element
    fill_and_print leak refs st o = elim (fill_class_in_memory_node facts.jvm st leak.node) [
      | none ↦ crashed
      | some st' ↦ print_element leak refs (node_at st' leak.node).classname st' o
    ]

    -- The test of printReferencesChainForLeakingNodes for a leak and its chain.
    unfoldable pub print_found : LeakingNode → Search → Output → Printed
    unfolding fill_and_print
    print_found leak Search.exhausted o = exhausted
    print_found leak Search.fatal o = crashed
    print_found leak (Search.ends [] st) o =
        if show_unreachables then fill_and_print leak [] st o else printed st o
    print_found leak (Search.ends (r ∷ rs) st) o = fill_and_print leak (r ∷ rs) st o

    -- One round of the loop of printReferencesChainForLeakingNodes. The search has fuel for one call
    -- more than there are nodes.
    unfoldable pub print_leak : LeakingNode → Store → Output → Printed
    unfolding print_found
    print_leak leak st o =
        if is_need_references
        then print_found leak
            (generate_references_chain_for_node facts.jvm consider_local_references leak.leak_number
              (length st + 1) leak.node st)
            o
        else print_found leak (Search.ends [] st) o

    unfoldable pub print_references_chain_for_leaking_nodes :
        List LeakingNode → Store → Output → Printed
    unfolding print_leak and_then
    print_references_chain_for_leaking_nodes [] st o = printed st o
    print_references_chain_for_leaking_nodes (leak ∷ leaks) st o =
        and_then (print_leak leak st o)
          (λ st' o'. print_references_chain_for_leaking_nodes leaks st' o')
