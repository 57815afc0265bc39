-- ===== src/Collections/Tests.antt =====
-- A collection of three objects of which two are printed, a map that gives no entries, and a
-- collection that holds NULL.
use jleaker.Common.{ℕ, zero, ◌≡◌, refl, Option, none, some, List, [], ◌∷◌, ◌++◌, bytes}
use jleaker.Common.Int.{pos, ◌+ℤ◌, ◌-ℤ◌}
use jleaker.Output.{Output, complete_xml_element, open_xml_element, close_xml_element}
use jleaker.Output.Tree.{Prints}
use jleaker.Collections.Defs.{Jni, print_normal_object, print_entry_object, print_object}
use jleaker.Collections.Trees.{object_forest, print_object-Prints}

abbrev objects : ℕ → List (Option ℕ)
objects zero = some 5 ∷ some 6 ∷ some 7 ∷ []
objects n = some 5 ∷ none ∷ []

abbrev jni : Jni
jni = record {
  elements = objects;
  entry_set = λ m. none;
  entries = λ m. some m;
  key = λ e. some e;
  value = λ e. none;
  to_string = λ x. some (x ∷ []);
}

abbrev before : Output
before = record { xml_depth = pos 0; text = [] }

runs :
    (print_object jni (pos 2) 0 0 before
      ≡ some (record {
        xml_depth = pos 0;
        text =
            bytes "<collection>\n\t<collection-element value=\""
            ++ 5 ∷ bytes "\" />\n\t<collection-element value=\""
            ++ 6 ∷ bytes "\" />\n</collection>\n";
      }))
    × (print_object jni (pos 2) 0 1 before ≡ none)
    × (print_object jni (pos 1) 2 0 before ≡ none)
unfolding print_object print_normal_object print_entry_object complete_xml_element open_xml_element
    close_xml_element ◌+ℤ◌ ◌-ℤ◌
runs = (refl, refl, refl)

print_object-Prints_example :
    Prints 0 (object_forest jni (pos 2) 1 0) before (print_object jni (pos 2) 1 0 before)
print_object-Prints_example = print_object-Prints jni (pos 2) 1 0 before refl
