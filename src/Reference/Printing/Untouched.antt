-- ===== src/Reference/Printing/Untouched.antt =====
-- Printing the leaks leaves of the nodes all that their release looks at.
use jleaker.Common.{
  ℕ, ◌+◌, Bool, true, false, if◌then◌else◌, Option, none, some, List, [], ◌∷◌, length, Bytes,
  Option-cases, inl, inr,
}
use jleaker.Node.Defs.{MemoryReferer, Store, node_at}
use jleaker.Reference.Chain.{Search, fill_class_in_memory_node}
use jleaker.Reference.Chain.Untouched.{Untouched, Untouched-refl, Untouched-trans, fill-Untouched}
use jleaker.Reference.Chain.Marks.{Leaves, no_fuel, died, left, generate-Untouched}
use jleaker.Detect.Search.{LeakingNode}
use jleaker.Output.{Output}
use jleaker.Reference.Printing.Defs.{Facts, Message, message}
use jleaker.Reference.Printing.Leaks.{
  Printed, and_then, closing, print_message, print_filled, print_single_reference, print_references,
  print_all_references_to_node, print_reference_chain_to_node, call_print_fn, print_how_reached,
  print_element, fill_and_print, print_found, print_leak, print_references_chain_for_leaking_nodes,
}

-- The nodes after printing, if the process goes on.
pub data IsUntouched (st : Store) : Printed → Type 0 where
  stopped : IsUntouched st Printed.exhausted
  ended : IsUntouched st Printed.crashed
  goes_on : {st' : Store} {o : Output} → Untouched st st' → IsUntouched st (Printed.printed st' o)

from_then : {st st' : Store} {p : Printed} → Untouched st st' → IsUntouched st' p → IsUntouched st p
from_then u stopped = stopped
from_then u ended = ended
from_then u (goes_on v) = goes_on (Untouched-trans u v)

and_then-IsUntouched :
    (st : Store) (p : Printed) (next : Store → Output → Printed)
    → IsUntouched st p
    → ((st' : Store) (o : Output) → IsUntouched st' (next st' o))
    → IsUntouched st (and_then p next)
unfolding and_then
and_then-IsUntouched st Printed.exhausted next stopped f = stopped
and_then-IsUntouched st Printed.crashed next ended f = ended
and_then-IsUntouched st (Printed.printed st' o) next (goes_on u) f = from_then u (f st' o)

closing-IsUntouched :
    (st : Store) (tag : Bytes) (p : Printed) → IsUntouched st p → IsUntouched st (closing tag p)
unfolding closing
closing-IsUntouched st tag p u =
    and_then-IsUntouched st p _ u (λ st' o. goes_on (Untouched-refl st'))

same : (st : Store) (o : Output) → IsUntouched st (Printed.printed st o)
same st o = goes_on (Untouched-refl st)

IsUntouched-if :
    (st : Store) (b : Bool) (p q : Printed)
    → IsUntouched st p
    → IsUntouched st q
    → IsUntouched st (if b then p else q)
IsUntouched-if st true p q u v = u
IsUntouched-if st false p q u v = v

module _ (facts : Facts) where
  print_message-IsUntouched :
      (st : Store) (o : Output) (m : Message) → IsUntouched st (print_message facts st o m)
  unfolding print_message
  print_message-IsUntouched st o Message.exhausted = stopped
  print_message-IsUntouched st o Message.crashed = ended
  print_message-IsUntouched st o (message none) = same st o
  print_message-IsUntouched st o (message (some msg)) = same st _

  print_filled-IsUntouched :
      (ref : MemoryReferer) (p : Option ℕ) (st : Store) (o : Output)
      → IsUntouched st (print_filled facts ref p st o)
  unfolding print_filled
  print_filled-IsUntouched ref none st o = print_message-IsUntouched st o _
  print_filled-IsUntouched ref (some a) st o =
      elim (Option-cases (fill_class_in_memory_node facts.jvm st a)) [
        | inl two ↦ rw (two, print_filled) ended
        | inr (st', filled) ↦
            rw (filled, print_filled)
              (from_then (fill-Untouched facts.jvm st st' a filled)
                (print_message-IsUntouched st' o _))
      ]

  print_references-IsUntouched :
      (refs : List MemoryReferer) (st : Store) (o : Output)
      → IsUntouched st (print_references facts refs st o)
  unfolding print_references print_single_reference
  print_references-IsUntouched [] st o = same st o
  print_references-IsUntouched (ref ∷ refs) st o =
      and_then-IsUntouched st _ _ (print_filled-IsUntouched ref ref.node st o)
        (λ st' o'. print_references-IsUntouched refs st' o')

  print_all-IsUntouched :
      (node : ℕ) (st : Store) (o : Output)
      → IsUntouched st (print_all_references_to_node facts node st o)
  unfolding print_all_references_to_node
  print_all-IsUntouched node st o =
      closing-IsUntouched st _ _ (print_references-IsUntouched (node_at st node).referers st _)

  print_chain-IsUntouched :
      (refs : List MemoryReferer) (st : Store) (o : Output)
      → IsUntouched st (print_reference_chain_to_node facts refs st o)
  unfolding print_reference_chain_to_node
  print_chain-IsUntouched refs st o =
      closing-IsUntouched st _ _ (print_references-IsUntouched refs st _)

  module _ (show_unreachables consider is_need_references : Bool)
      (print_fn : ℕ → ℕ → Output → Option Output) where
    call_print_fn-IsUntouched :
        (fn obj : Option ℕ) (st : Store) (o : Output)
        → IsUntouched st
            (call_print_fn facts show_unreachables consider is_need_references print_fn fn obj st o)
    unfolding call_print_fn
    call_print_fn-IsUntouched (some fn) (some obj) st o = elim (Option-cases (print_fn fn obj o)) [
      | inl no_output ↦ rw (no_output, call_print_fn) ended
      | inr (o', e) ↦ rw (e, call_print_fn) (same st o')
    ]
    call_print_fn-IsUntouched (some fn) none st o = ended
    call_print_fn-IsUntouched none obj st o = ended

    print_how_reached-IsUntouched :
        (node : ℕ) (refs : List MemoryReferer) (st : Store) (o : Output)
        → IsUntouched st (
            print_how_reached facts show_unreachables consider is_need_references print_fn node refs
              st o)
    unfolding print_how_reached
    print_how_reached-IsUntouched node [] st o =
        IsUntouched-if st is_need_references _ _ (print_all-IsUntouched node st o) (same st o)
    print_how_reached-IsUntouched node (r ∷ rs) st o =
        IsUntouched-if st is_need_references _ _ (print_chain-IsUntouched (r ∷ rs) st o) (same st o)

    print_element-IsUntouched :
        (leak : LeakingNode) (refs : List MemoryReferer) (classname : Option Bytes) (st : Store)
        (o : Output)
        → IsUntouched st (
            print_element facts show_unreachables consider is_need_references print_fn leak refs
              classname st o)
    unfolding print_element
    print_element-IsUntouched leak refs none st o = ended
    print_element-IsUntouched leak refs (some classname) st o = closing-IsUntouched st _ _ (
        and_then-IsUntouched st _ _ (call_print_fn-IsUntouched _ _ st _)
          (λ st' o'. print_how_reached-IsUntouched leak.node refs st' o'))

    fill_and_print-IsUntouched :
        (leak : LeakingNode) (refs : List MemoryReferer) (st : Store) (o : Output)
        → IsUntouched st (
            fill_and_print facts show_unreachables consider is_need_references print_fn leak refs st
              o)
    unfolding fill_and_print
    fill_and_print-IsUntouched leak refs st o =
        elim (Option-cases (fill_class_in_memory_node facts.jvm st leak.node)) [
          | inl two ↦ rw (two, fill_and_print) ended
          | inr (st', filled) ↦
              rw (filled, fill_and_print)
                (from_then (fill-Untouched facts.jvm st st' leak.node filled)
                  (print_element-IsUntouched leak refs (node_at st' leak.node).classname st' o))
        ]

    print_found-IsUntouched :
        (leak : LeakingNode) (st : Store) (out : Search) (o : Output)
        → Leaves (Untouched st) out
        → IsUntouched st
            (print_found facts show_unreachables consider is_need_references print_fn leak out o)
    unfolding print_found
    print_found-IsUntouched leak st Search.exhausted o no_fuel = stopped
    print_found-IsUntouched leak st Search.fatal o died = ended
    print_found-IsUntouched leak st (Search.ends [] st') o (left u) = from_then u (
        IsUntouched-if st' show_unreachables _ _ (fill_and_print-IsUntouched leak [] st' o)
          (same st' o))
    print_found-IsUntouched leak st (Search.ends (r ∷ rs) st') o (left u) =
        from_then u (fill_and_print-IsUntouched leak (r ∷ rs) st' o)

    print_leak-IsUntouched :
        (leak : LeakingNode) (st : Store) (o : Output)
        → IsUntouched st
            (print_leak facts show_unreachables consider is_need_references print_fn leak st o)
    unfolding print_leak
    print_leak-IsUntouched leak st o =
        IsUntouched-if st is_need_references _ _
          (print_found-IsUntouched leak st _ o
            (generate-Untouched facts.jvm consider leak.leak_number (length st + 1) leak.node st))
          (print_found-IsUntouched leak st (Search.ends [] st) o (left (Untouched-refl st)))

    -- Whatever leaks printReferencesChainForLeakingNodes prints, with their chains, their direct
    -- references or neither: if the process goes on behind it, the store has as many nodes as before,
    -- and the references recorded in each node, its count and its mark are what they were.
    pub print_leaks-IsUntouched :
        (leaks : List LeakingNode) (st : Store) (o : Output)
        → IsUntouched st (
            print_references_chain_for_leaking_nodes facts show_unreachables consider
              is_need_references print_fn leaks st o)
    unfolding print_references_chain_for_leaking_nodes
    print_leaks-IsUntouched [] st o = same st o
    print_leaks-IsUntouched (leak ∷ leaks) st o =
        and_then-IsUntouched st _ _ (print_leak-IsUntouched leak st o)
          (λ st' o'. print_leaks-IsUntouched leaks st' o')
