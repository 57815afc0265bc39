-- ===== src/Collections/Defs.antt =====
-- The functions that print an object. A `jobject` is a number, and NULL is `none`; as a result, `none`
-- is a NULL pointer that is followed, which ends the process.
use jleaker.Common.{ℕ, zero, suc, Option, none, some, ◌>>=◌, List, [], ◌∷◌, Bytes, bytes}
use jleaker.Common.Int.{ℤ, pos_part}
use jleaker.Output.{Output, complete_xml_element, open_xml_element, close_xml_element}

-- What the methods of the Java objects return. `elements` are those that `iterator()` goes through.
pub record Jni : Type 0 where
  pub elements : ℕ → List (Option ℕ)
  pub entry_set : ℕ → Option ℕ
  pub entries : ℕ → Option ℕ
  pub key : ℕ → Option ℕ
  pub value : ℕ → Option ℕ
  pub to_string : ℕ → Option Bytes

-- The loop of printCollectionUsingMethod.
unfoldable pub print_elements :
    (print_single_object : Option ℕ → Output → Option Output)
    → (limit : ℕ) → List (Option ℕ)
    → Output
    → Option Output
print_elements print_single_object zero rest o = some o
print_elements print_single_object (suc limit) [] o = some o
print_elements print_single_object (suc limit) (object ∷ rest) o = do
  o' ← print_single_object object o
  print_elements print_single_object limit rest o'

module _ (jni : Jni) where
  -- toString() and GetStringUTFChars of an object, if it is not NULL.
  unfoldable pub string_of : Option ℕ → Option Bytes
  string_of none = none
  string_of (some object) = jni.to_string object

  -- escapeString reads the string, which is NULL for a NULL object.
  unfoldable pub print_normal_object : Option ℕ → Output → Option Output
  unfolding string_of
  print_normal_object object o = do
    utf ← string_of object
    some (complete_xml_element (bytes "collection-element") ((bytes "value", utf) ∷ []) o)

  unfoldable pub print_entry_object : Option ℕ → Output → Option Output
  unfolding string_of
  print_entry_object object o = do
    entry ← object
    utf_key ← string_of (jni.key entry)
    utf_value ← string_of (jni.value entry)
    some (
        complete_xml_element (bytes "map-element")
          ((bytes "key", utf_key) ∷ (bytes "value", utf_value) ∷ []) o)

  unfoldable pub print_collection_using_method :
      (num_elements_to_dump : ℤ)
      → (collection : ℕ) → (print_single_object : Option ℕ → Output → Option Output) → Output
      → Option Output
  unfolding print_elements
  print_collection_using_method num_elements_to_dump collection print_single_object o =
      print_elements print_single_object (pos_part num_elements_to_dump) (jni.elements collection) o

  module _ (num_elements_to_dump : ℤ) where
    unfoldable pub print_collection : ℕ → Output → Option Output
    unfolding print_collection_using_method
    print_collection collection o = do
      let opened = open_xml_element (bytes "collection") [] o
      printed ←
          print_collection_using_method num_elements_to_dump collection print_normal_object opened
      some (close_xml_element (bytes "collection") printed)

    -- The part that printMap and printMultiMap share: the entries, or the message that the call failed.
    unfoldable pub print_entries :
        (tag message : Bytes) → (entries : Option ℕ) → Output → Option Output
    unfolding print_collection_using_method
    print_entries tag message none o = some (
        close_xml_element tag (
          complete_xml_element (bytes "error") ((bytes "message", message) ∷ [])
            (open_xml_element tag [] o)))
    print_entries tag message (some entries) o = do
      let opened = open_xml_element tag [] o
      printed ← print_collection_using_method num_elements_to_dump entries print_entry_object opened
      some (close_xml_element tag printed)

    unfoldable pub print_map : ℕ → Output → Option Output
    unfolding print_entries
    print_map map o =
        print_entries (bytes "map") (bytes "Failed to invoke entrySet() on this map")
          (jni.entry_set map) o

    unfoldable pub print_multi_map : ℕ → Output → Option Output
    unfolding print_entries
    print_multi_map map o =
        print_entries (bytes "multi-map") (bytes "Failed to invoke entries() on this multi-map")
          (jni.entries map) o

    -- `print_fn` by its place in classDescriptors, which has three.
    unfoldable pub print_object : ℕ → ℕ → Output → Option Output
    unfolding print_collection print_map print_multi_map
    print_object zero object o = print_collection object o
    print_object (suc zero) object o = print_map object o
    print_object (suc (suc rest)) object o = print_multi_map object o

-- The names in classDescriptors, which initClassesToCheck makes the table of classes.
unfoldable pub classes_to_check : List Bytes
classes_to_check =
    bytes "java/util/Collection"
    ∷ bytes "java/util/Map"
    ∷ bytes "com/google/common/collect/Multimap"
    ∷ []
