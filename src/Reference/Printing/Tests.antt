-- ===== src/Reference/Printing/Tests.antt =====
-- A chain from a field of a live object, over a reference of a kind that is not named, to a JNI local.
use jleaker.Common.{
  ◌∙◌, ℕ, zero, suc, inl, ◌≡◌, refl, Bool, true, false, Option, none, some, List, [], ◌∷◌, Bytes,
  bytes, arith,
}
use jleaker.Common.Int.{pos, negsuc, ◌+ℤ◌, ◌-ℤ◌}
use jleaker.Reference.Kind.{
  Kind, ReferenceInfo, field_index, info_thread, is_root_reference, should_consider_this_reference,
}
use jleaker.Reference.Fields.{get_field_name_by_index}
use jleaker.Reference.Chain.{fill_class_in_memory_node, generate_references_chain_for_node}
use jleaker.Reference.Fields.Total.{IsRanked, layout_total}
use jleaker.Reference.Fields.Name.{name_at, get_field_name_by_index_lem}
use jleaker.Reference.Chain.Fill.{live_node}
use jleaker.Node.Defs.{MemoryReferer, Store, node_at, fresh_node}
use jleaker.Bitmask
use jleaker.Detect.Search.{LeakingNode}
use jleaker.Reference.Printing.Untouched.{IsUntouched, print_leaks-IsUntouched}
use jleaker.Output.{Output, open_xml_element, close_xml_element, complete_xml_element}
use jleaker.Reference.Printing.Format.{decimal, hexadecimal, snprintf}
use jleaker.Reference.Printing.Defs.{Facts, message, element_index, info_slot, reference_message}
use jleaker.Reference.Printing.Leaks.{
  Printed, printed, print_reference_chain_to_node, print_references_chain_for_leaking_nodes,
}
use jleaker.Reference.Printing.Whole.{whole, reference_message-whole}
use jleaker.Reference.Printing.Chain.{IsReady, ListsAll, references-ListsAll}

abbrev facts : Facts
facts = record {
  jvm = record {
    objects_with_tag = λ a. 70 ∷ [];
    object_class = λ o. 71;
    class_name = λ k. bytes "A";
  };
  fields = record {
    superclass = λ k. none;
    interfaces = λ k. [];
    class_fields = λ k. 1 ∷ [];
    field_name = λ k f. bytes "f";
  };
  depth = 3;
  declaring_class = λ m. 0;
  is_static = λ m. false;
  method_name = λ m. bytes "m";
  method_desc = λ m. bytes "()V";
  arguments_size = λ m. 1;
}

numbers :
    (decimal (pos 0) ≡ bytes "0")
    × (decimal (negsuc 40) ≡ bytes "-41")
    × (hexadecimal 2748 ≡ bytes "abc")
    × (snprintf 3 (bytes "abcd") ≡ bytes "ab")
unfolding decimal hexadecimal snprintf
numbers = (refl, refl, refl, refl)

abbrev stack_info : Option ReferenceInfo
stack_info = some (ReferenceInfo.stack_local_info 26 3 5 (pos 0) (pos 1) (pos 9))

messages :
    (reference_message snprintf facts Kind.stack_local stack_info none
      ≡ message (some (bytes "Local variable from method A.m()V (thread ID 1a, local arg #2)")))
    × (reference_message snprintf facts Kind.array_element
          (some (ReferenceInfo.array_info (pos 7)))
          (some (record (fresh_node 0) { classname = some (bytes "B[]") }))
        ≡ message (some (bytes "B[] element number 7")))
unfolding reference_message decimal hexadecimal snprintf fresh_node info_thread info_slot
    element_index
messages = (refl, refl)

reference_message-whole_example :
    reference_message snprintf facts Kind.stack_local stack_info none
    ≡ reference_message whole facts Kind.stack_local stack_info none
reference_message-whole_example =
    reference_message-whole facts Kind.stack_local stack_info none (omega arith)

abbrev nodes : Store
nodes = fresh_node 0 ∷ []

abbrev chain : List MemoryReferer
chain =
    record { kind = Kind.field; info = some (ReferenceInfo.field_info (pos 0)); node = some 0 }
    ∷ record { kind = Kind.unlisted 4; info = none; node = some 0 }
    ∷ record {
      kind = Kind.jni_local;
      info = some (ReferenceInfo.jni_local_info 1 0 (pos 0) (pos 1));
      node = none;
    }
    ∷ []

abbrev before : Output
before = record { xml_depth = pos 0; text = [] }

abbrev text_of : Printed → Bytes
text_of (printed st o) = o.text
text_of _ = []

runs :
    text_of (print_reference_chain_to_node facts chain nodes before)
    ≡ bytes
        "<reference-chain-to-root>\n\t<reference location=\"A.f\" />\n\t<reference location=\"JNI global reference\" />\n</reference-chain-to-root>\n"
unfolding print_reference_chain_to_node reference_message decimal snprintf fresh_node
    open_xml_element close_xml_element complete_xml_element fill_class_in_memory_node
    get_field_name_by_index field_index ◌+ℤ◌ ◌-ℤ◌
runs = refl

no_ancestors : IsRanked facts.fields (λ k. 0)
no_ancestors = record { interfaces_below = λ k. tt; superclass_below = λ k super e. absurd (cc) }

IsReady-nodes : IsReady facts nodes
unfolding fresh_node
IsReady-nodes = record {
  named = λ a. inl (is_new a);
  single = λ a. omega arith;
  field_names = λ klass idx.
      let (x, e) = layout_total facts.fields (λ k. 0) no_ancestors 3 klass [] (omega arith) in
      (
        name_at facts.fields idx x.0 x.1,
        get_field_name_by_index_lem facts.fields 3 klass idx ∙ rw e,
      );
}
  where
    is_new : (a : ℕ) → (node_at nodes a).klass ≡ none
    is_new zero = refl
    is_new (suc a) = refl

references-ListsAll_example :
    ListsAll facts 0
      (bytes "reference-chain-to-root")
      chain
      nodes
      before
      (print_reference_chain_to_node facts chain nodes before)
unfolding fresh_node live_node
references-ListsAll_example = (references-ListsAll facts nodes before IsReady-nodes refl).0 chain (
  λ b e. ground arith,
  λ _. (0, refl, refl),
  (λ b e. ground arith, λ h. absurd (cc), (λ b e. absurd (cc), λ h. absurd (cc), tt)),
)

-- One leak, which the virtual machine holds as a system class.
abbrev leaking : Store
leaking =
    record (fresh_node 1) {
      obj = some 70;
      leaks_related = Bitmask.add (Bitmask.new 1) 0;
      referers = record { kind = Kind.system_class; info = none; node = none } ∷ [];
    }
    ∷ []

abbrev leaks : List LeakingNode
leaks = record { node = 0; leak_size = pos 9; print_fn = some 0; leak_number = 0 } ∷ []

abbrev has_printed : Printed → Bool
has_printed (printed st o) = true
has_printed _ = false

prints :
    has_printed (
      print_references_chain_for_leaking_nodes facts false false true
        (λ fn object o. some o)
        leaks
        leaking
        before)
    ≡ true
unfolding print_references_chain_for_leaking_nodes generate_references_chain_for_node fresh_node
    Bitmask.contains Bitmask.add Bitmask.new should_consider_this_reference is_root_reference
    reference_message
prints = refl

print_leaks-IsUntouched_example : IsUntouched leaking (
    print_references_chain_for_leaking_nodes facts false false true
      (λ fn object o. some o)
      leaks
      leaking
      before)
print_leaks-IsUntouched_example =
    print_leaks-IsUntouched facts false false true (λ fn object o. some o) leaks leaking before
