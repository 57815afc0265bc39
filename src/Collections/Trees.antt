-- ===== src/Collections/Trees.antt =====
-- What is printed for an object, as a tree, and that the printing functions write it.
use jleaker.Common.{
  subst, sym, ℕ, zero, suc, ◌≡◌, refl, Option, none, some, ◌>>=◌, List, [], ◌∷◌, Bytes, bytes,
}
use jleaker.Common.Int.{ℤ, pos, pos_part}
use jleaker.Output.{Output, complete_xml_element, open_xml_element}
use jleaker.Output.Tree.{
  Forest, Writes-nil, Writes-leaf, Prints, leaf_before, node_around, Prints-node, Prints-leaf,
  opened,
}
use jleaker.Collections.Defs.{
  Jni, string_of, print_normal_object, print_entry_object, print_elements,
  print_collection_using_method, print_collection, print_entries, print_map, print_multi_map,
  print_object,
}

-- The first `n` elements.
pub first {ℓ} : {A : Type ℓ} → ℕ → List A → List A
first zero xs = []
first (suc n) [] = []
first (suc n) (x ∷ xs) = x ∷ first n xs

-- An empty element for each object, in order; there is no tree if one of them has no text.
pub leaves : Bytes → (Option ℕ → Option (List (Bytes × Bytes))) → List (Option ℕ) → Option Forest
leaves tag attributes [] = some Forest.nil
leaves tag attributes (x ∷ xs) = leaf_before tag (attributes x) (leaves tag attributes xs)

module _ (jni : Jni) where
  pub value_attribute : Option ℕ → Option (List (Bytes × Bytes))
  value_attribute object = do text ← string_of jni object; some ((bytes "value", text) ∷ [])

  pub entry_attributes : Option ℕ → Option (List (Bytes × Bytes))
  entry_attributes object = do
    entry ← object
    key_text ← string_of jni (jni.key entry)
    value_text ← string_of jni (jni.value entry)
    some ((bytes "key", key_text) ∷ (bytes "value", value_text) ∷ [])

  module _ (limit : ℤ) where
    -- A collection has an element for each of the first `limit` objects.
    pub collection_forest : ℕ → Option Forest
    collection_forest c = node_around (bytes "collection") [] (
        leaves (bytes "collection-element") value_attribute
          (first (pos_part limit) (jni.elements c)))

    -- A map has one for each of the first `limit` entries, or says that there are none to be had.
    pub entries_forest : (tag message : Bytes) → Option ℕ → Option Forest
    entries_forest tag message none =
        node_around tag []
          (some (Forest.leaf (bytes "error") ((bytes "message", message) ∷ []) Forest.nil))
    entries_forest tag message (some c) =
        node_around tag []
          (leaves (bytes "map-element") entry_attributes (first (pos_part limit) (jni.elements c)))

    pub object_forest : (print_fn object : ℕ) → Option Forest
    object_forest zero object = collection_forest object
    object_forest (suc zero) object =
        entries_forest (bytes "map") (bytes "Failed to invoke entrySet() on this map")
          (jni.entry_set object)
    object_forest (suc (suc rest)) object =
        entries_forest (bytes "multi-map") (bytes "Failed to invoke entries() on this multi-map")
          (jni.entries object)

-- A function that writes one element with these attributes, or stops.
abbrev IsPrinter :
    (tag : Bytes) (attributes : Option ℕ → Option (List (Bytes × Bytes)))
    (print : Option ℕ → Output → Option Output)
    → Type 0
IsPrinter tag attributes print =
    (x : Option ℕ) (o : Output)
    → print x o ≡ (attributes x >>= λ a. some (complete_xml_element tag a o))

print_elements-Prints :
    (tag : Bytes) (attributes : Option ℕ → Option (List (Bytes × Bytes)))
    (print : Option ℕ → Output → Option Output)
    → IsPrinter tag attributes print
    → {depth : ℕ} (n : ℕ) (xs : List (Option ℕ)) (o : Output) → o.xml_depth ≡ pos depth
    → Prints depth (leaves tag attributes (first n xs)) o (print_elements print n xs o)
unfolding print_elements leaves first leaf_before
print_elements-Prints tag attributes print is zero xs o e = (o, refl, Writes-nil e)
print_elements-Prints tag attributes print is (suc n) [] o e = (o, refl, Writes-nil e)
print_elements-Prints tag attributes print is {depth} (suc n) (x ∷ xs) o e =
    subst
      (λ r.
        Prints depth (leaf_before tag (attributes x) (leaves tag attributes (first n xs))) o
          (r >>= λ p. print_elements print n xs p))
      (sym (is x o))
      (next (attributes x) (λ a.
        print_elements-Prints tag attributes print is n xs (complete_xml_element tag a o)
          (Writes-leaf tag a e).after))
  where
    next :
        (a : Option (List (Bytes × Bytes)))
        → ((b : List (Bytes × Bytes))
            → Prints depth
                (leaves tag attributes (first n xs))
                (complete_xml_element tag b o)
                (print_elements print n xs (complete_xml_element tag b o)))
        → Prints depth
            (leaf_before tag a (leaves tag attributes (first n xs)))
            o
            ((a >>= λ b. some (complete_xml_element tag b o)) >>= λ p. print_elements print n xs p)
    next none later = refl
    next (some a) later = Prints-leaf o tag a (leaves tag attributes (first n xs)) _ e (later a)

module _ (jni : Jni) where
  normal-IsPrinter :
      IsPrinter (bytes "collection-element") (value_attribute jni) (print_normal_object jni)
  unfolding print_normal_object value_attribute
  normal-IsPrinter x o = after (string_of jni x)
    where
      after :
          (t : Option Bytes)
          → (t >>= λ utf.
              some
                (complete_xml_element (bytes "collection-element") ((bytes "value", utf) ∷ []) o))
            ≡ ((t >>= λ utf. some ((bytes "value", utf) ∷ [])) >>= λ a.
                some (complete_xml_element (bytes "collection-element") a o))
      after none = refl
      after (some utf) = refl

  entry-IsPrinter : IsPrinter (bytes "map-element") (entry_attributes jni) (print_entry_object jni)
  unfolding print_entry_object entry_attributes
  entry-IsPrinter none o = refl
  entry-IsPrinter (some entry) o =
      after (string_of jni (jni.key entry)) (string_of jni (jni.value entry))
    where
      after :
          (s t : Option Bytes)
          → (s >>= λ k. t >>= λ v. some (
              complete_xml_element
                (bytes "map-element")
                ((bytes "key", k) ∷ (bytes "value", v) ∷ [])
                o))
            ≡ ((s >>= λ k. t >>= λ v. some ((bytes "key", k) ∷ (bytes "value", v) ∷ [])) >>= λ a.
                some (complete_xml_element (bytes "map-element") a o))
      after none t = refl
      after (some k) none = refl
      after (some k) (some v) = refl

  module _ (limit : ℤ) {depth : ℕ} where
    print_collection-Prints :
        (c : ℕ) (o : Output)
        → o.xml_depth ≡ pos depth
        → Prints depth (collection_forest jni limit c) o (print_collection jni limit c o)
    unfolding print_collection collection_forest print_collection_using_method
    print_collection-Prints c o e = Prints-node _ o _ (bytes "collection") [] e (
        print_elements-Prints (bytes "collection-element") (value_attribute jni)
          (print_normal_object jni) normal-IsPrinter (pos_part limit) (jni.elements c)
          (open_xml_element (bytes "collection") [] o) (opened o (bytes "collection") [] e))

    print_entries-Prints :
        (tag message : Bytes) (entries : Option ℕ) (o : Output)
        → o.xml_depth ≡ pos depth
        → Prints depth
            (entries_forest jni limit tag message entries)
            o
            (print_entries jni limit tag message entries o)
    unfolding print_entries entries_forest print_collection_using_method
    print_entries-Prints tag message none o e =
        Prints-node
          (some (Forest.leaf (bytes "error") ((bytes "message", message) ∷ []) Forest.nil)) o
          (some (
            complete_xml_element (bytes "error") ((bytes "message", message) ∷ [])
              (open_xml_element tag [] o)))
          tag [] e
          (
            _,
            refl,
            Writes-leaf (bytes "error") ((bytes "message", message) ∷ []) (opened o tag [] e),
          )
    print_entries-Prints tag message (some c) o e = Prints-node _ o _ tag [] e (
        print_elements-Prints (bytes "map-element") (entry_attributes jni) (print_entry_object jni)
          entry-IsPrinter (pos_part limit) (jni.elements c) (open_xml_element tag [] o)
          (opened o tag [] e))

    -- What printCollection, printMap and printMultiMap, by their place in the table of classes, do to
    -- the output at a depth that is not negative: they write one element at that depth, in which
    -- there is an empty element for each of the first `limit` objects of the collection or entries of
    -- the map, in their order, with the texts of the object or of key and value, or the error
    -- element if the map gives no entries, and they leave the depth as it was; where one of those
    -- objects, keys or values is NULL or has no text, a NULL pointer is read and the process ends.
    pub print_object-Prints :
        (print_fn object : ℕ) (o : Output)
        → o.xml_depth ≡ pos depth
        → Prints depth
            (object_forest jni limit print_fn object)
            o
            (print_object jni limit print_fn object o)
    unfolding print_object object_forest print_map print_multi_map
    print_object-Prints zero object o e = print_collection-Prints object o e
    print_object-Prints (suc zero) object o e = print_entries-Prints _ _ (jni.entry_set object) o e
    print_object-Prints (suc (suc rest)) object o e =
        print_entries-Prints _ _ (jni.entries object) o e
