-- ===== src/Output/Defs.antt =====
-- escapeString, and the functions that write XML elements.
use jleaker.Common.{ℕ, ◌+◌, ◌*◌, ◌==◌, if◌then◌else◌, List, [], ◌∷◌, ◌++◌, length, replicate, Bytes}
use jleaker.Common.Int.{ℤ, pos, pos_part, ◌+ℤ◌, ◌-ℤ◌}

-- The first loop of escapeString.
unfoldable pub count_quotes : Bytes → ℕ
count_quotes [] = 0
count_quotes (c ∷ cs) = let rest = count_quotes cs in if c == 34 then 1 + rest else rest

-- `&quot;`
abbrev pub quot : Bytes
quot = 38 ∷ 113 ∷ 117 ∷ 111 ∷ 116 ∷ 59 ∷ []

-- The second loop of escapeString: the bytes that it writes to `res`, without the 0 at the end.
unfoldable pub escape_loop : Bytes → Bytes
escape_loop [] = []
escape_loop (c ∷ cs) = let rest = escape_loop cs in if c == 34 then quot ++ rest else c ∷ rest

-- The argument of myAlloc.
unfoldable pub allocated_for : Bytes → ℕ
unfolding count_quotes
allocated_for s = 1 + length s + 5 * count_quotes s

unfoldable pub escape_string : Bytes → Bytes
unfolding count_quotes escape_loop
escape_string s = if count_quotes s == 0 then s else escape_loop s

-- The loop over the pairs of arguments up to NULL: ` %s="%s"` of each.
unfoldable pub attributes_text : List (Bytes × Bytes) → Bytes
unfolding escape_string
attributes_text [] = []
attributes_text (a ∷ rest) =
    32 ∷ (a.0 ++ 61 ∷ 34 ∷ (escape_string a.1 ++ 34 ∷ attributes_text rest))

-- `xml_depth` and the text written.
pub record Output : Type 0 where
  pub xml_depth : ℤ
  pub text : Bytes

-- What echo_xml_element writes behind the tabs.
unfoldable pub element_text : (tag end_tag : Bytes) → List (Bytes × Bytes) → Bytes
unfolding attributes_text
element_text tag end_tag attributes =
    60 ∷ (tag ++ (attributes_text attributes ++ (end_tag ++ 62 ∷ 10 ∷ [])))

-- apply_xml_identation writes no tab where the depth is negative.
unfoldable pub echo_xml_element : (tag end_tag : Bytes) → List (Bytes × Bytes) → Output → Output
unfolding element_text
echo_xml_element tag end_tag attributes o = record o {
  text = o.text ++ (replicate (pos_part o.xml_depth) 9 ++ element_text tag end_tag attributes);
}

unfoldable pub complete_xml_element : Bytes → List (Bytes × Bytes) → Output → Output
unfolding echo_xml_element
complete_xml_element tag attributes o = echo_xml_element tag (32 ∷ 47 ∷ []) attributes o

unfoldable pub open_xml_element : Bytes → List (Bytes × Bytes) → Output → Output
unfolding echo_xml_element
open_xml_element tag attributes o =
    let written = echo_xml_element tag [] attributes o in
    record written { xml_depth = written.xml_depth +ℤ pos 1 }

unfoldable pub close_xml_element : Bytes → Output → Output
close_xml_element tag o =
    let depth = o.xml_depth -ℤ pos 1 in
    record {
      xml_depth = depth;
      text = o.text ++ (replicate (pos_part depth) 9 ++ 60 ∷ 47 ∷ (tag ++ 62 ∷ 10 ∷ []));
    }
