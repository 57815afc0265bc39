-- ===== src/Detect/Search/Defs.antt =====
-- generateTagForClass, cbHeapObject and searchObjectsForLeaks.
use jleaker.Common.{
  ℕ, ◌+◌, Bool, true, not, ◌&&◌, if◌then◌else◌, Option, none, some, List, [], ◌∷◌, ◌++◌, length,
  get_elem?, set,
}
use jleaker.Common.Int.{ℤ, pos, pos_part, ◌+ℤ◌, ◌-ℤ◌, ltb_ℤ, ◌==ℤ◌}
use jleaker.Options.{to_int}
use jleaker.Bitmask
use jleaker.Node.Defs.{Store, node_at, new_memory_node}

-- INITIAL_CLASS_TAG, 0xBadCafe
abbrev pub initial_class_tag : ℤ
initial_class_tag = pos 195939070

-- CLASS_CLASS_INITIAL_TAG, 0xFeedDad
abbrev pub class_class_initial_tag : ℤ
class_class_initial_tag = pos 267312557

-- What JNI, JVMTI and the table of ignored classes answer about a class; `none` is an error of
-- IsInterface or IsArrayClass.
pub record ClassFacts : Type 0 where
  pub is_class_class : Bool
  pub is_interface : Option Bool
  pub is_array_class : Option Bool
  pub has_enclosing_class : Bool
  pub is_ignored : Bool
  pub is_assignable_to : ℕ → Bool

-- `(JNI_OK != ...) || (boolResult != JNI_FALSE)`
unfoldable pub rejects : Option Bool → Bool
rejects none = true
rejects (some b) = b

-- The loop of generateTagForClass; a class of the table that is not loaded is `none`.
unfoldable pub assignable_tag : (ℕ → Bool) → List (Option ℕ) → ℕ → ℤ
assignable_tag is_assignable [] j = pos 0
assignable_tag is_assignable (none ∷ ks) j = assignable_tag is_assignable ks (j + 1)
assignable_tag is_assignable (some k ∷ ks) j =
    let later = assignable_tag is_assignable ks (j + 1) in
    if is_assignable k then initial_class_tag +ℤ pos j else later

-- generateTagForClass
unfoldable pub generate_tag_for_class : List (Option ℕ) → ClassFacts → ℤ
unfolding rejects assignable_tag
generate_tag_for_class sizeable c =
    if c.is_class_class
    then class_class_initial_tag
    else (if rejects c.is_interface
        then pos 0
        else (if rejects c.is_array_class
            then pos 0
            else (if c.has_enclosing_class
                then pos 0
                else (if c.is_ignored
                    then pos 0
                    else assignable_tag c.is_assignable_to sizeable 0))))

-- cbHeapObject: the object's tag afterwards.
unfoldable pub cb_heap_object : (sizeable_classes_num : ℕ) → (class_tag tag : ℤ) → ℤ
unfolding ◌-ℤ◌
cb_heap_object num class_tag tag =
    if class_tag ==ℤ class_class_initial_tag
    then tag
    else (if not (ltb_ℤ class_tag initial_class_tag)
          && ltb_ℤ (class_tag -ℤ initial_class_tag) (pos num)
        then class_tag
        else pos 0)

-- What searchObjectsForLeaks reads: the threshold, the printers of the table of classes, and the
-- answer of the object's size method.
pub record SearchConfig : Type 0 where
  pub size_threshold : ℤ
  pub print_fns : List ℕ
  pub call_size : (object index : ℕ) → ℤ

pub record LeakingNode : Type 0 where
  pub node : ℕ
  pub leak_size : ℤ
  pub print_fn : Option ℕ
  pub leak_number : ℕ

-- `tags` are the calls of SetTag, the last one first, `none` for the tag 0.
pub record SearchState : Type 0 where
  pub nodes : Store
  pub number_of_leaks : ℕ
  pub leaks : List LeakingNode
  pub tags : List (ℕ × Option ℕ)

-- The index into the table of classes that an object's tag stands for; the assignment to `idx` makes
-- an `int` of the 64-bit difference.
unfoldable pub tag_index : (sizeable_classes_num : ℕ) → ℤ → Option ℕ
unfolding ◌-ℤ◌ to_int
tag_index num tag =
    let idx = to_int (tag -ℤ initial_class_tag) in
    if not (ltb_ℤ idx (pos 0)) && ltb_ℤ idx (pos num) then some (pos_part idx) else none

unfoldable pub object_size : SearchConfig → ℕ → Option ℕ → ℤ
object_size cfg object none = pos 0
object_size cfg object (some idx) = cfg.call_size object idx

unfoldable pub object_printer : SearchConfig → Option ℕ → Option ℕ
object_printer cfg none = none
object_printer cfg (some idx) = get_elem? cfg.print_fns idx

-- The branch for an object above the threshold.
unfoldable pub add_leak : (object : ℕ) → ℤ → Option ℕ → SearchState → SearchState
add_leak object size fn s =
    let leak_number = s.number_of_leaks in
    let created = new_memory_node (leak_number + 1) s.nodes in
    let n = node_at created.1 created.0 in
    record {
      nodes = set created.1 created.0 (record n {
        leaks_related = Bitmask.add n.leaks_related leak_number;
        obj = some object;
        leak_size = size;
      });
      number_of_leaks = leak_number + 1;
      leaks =
          s.leaks
          ++ record { node = created.0; leak_size = size; print_fn = fn; leak_number = leak_number }
            ∷ [];
      tags = (object, some created.0) ∷ s.tags;
    }

unfoldable pub search_object : SearchConfig → (object : ℕ) → ℤ → SearchState → SearchState
unfolding add_leak tag_index object_size object_printer
search_object cfg object tag s =
    let idx = tag_index (length cfg.print_fns) tag in
    let size = object_size cfg object idx in
    if ltb_ℤ cfg.size_threshold size
    then add_leak object size (object_printer cfg idx) s
    else record s { tags = (object, none) ∷ s.tags }

-- searchObjectsForLeaks over the objects and their tags; the list of leaks is `leaks` at the end.
unfoldable pub search_objects_for_leaks : SearchConfig → List (ℕ × ℤ) → SearchState → SearchState
unfolding search_object
search_objects_for_leaks cfg [] s = s
search_objects_for_leaks cfg (o ∷ os) s =
    search_objects_for_leaks cfg os (search_object cfg o.0 o.1 s)
