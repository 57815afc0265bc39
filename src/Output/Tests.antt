-- ===== src/Output/Tests.antt =====
-- An element whose attribute has a quote in its value.
use jleaker.Common.{◌+◌, ◌≤◌, ◌≡◌, refl, List, [], ◌∷◌, ◌++◌, length, inr, Bytes, arith}
use jleaker.Common.Int.{pos, ◌+ℤ◌}
use jleaker.Output.{escape_string, allocated_for, attributes_text, open_xml_element}
use jleaker.Output.Escape.{IsWithout, unescape, escape_string_lem}
use jleaker.Output.Attributes.{read_attributes, read_attributes-attributes_text}

-- `a"b`
abbrev value : Bytes
value = 97 ∷ 34 ∷ 98 ∷ []

escape_string_lem_example :
    (length (escape_string value) + 1 ≤ allocated_for value)
    × IsWithout 34 (escape_string value)
    × (IsWithout 38 value → unescape 0 (escape_string value) ≡ value)
escape_string_lem_example = escape_string_lem value

abbrev attributes : List (Bytes × Bytes)
attributes = (107 ∷ [], value) ∷ (118 ∷ [], []) ∷ []

runs :
    (open_xml_element (116 ∷ []) attributes (record { xml_depth = pos 1; text = [] })).text
    ≡ 9 ∷ 60 ∷ 116 ∷ 32 ∷ 107 ∷ 61 ∷ 34 ∷ 97 ∷ 38 ∷ 113 ∷ 117 ∷ 111 ∷ 116 ∷ 59 ∷ 98 ∷ 34 ∷ 32 ∷ 118
      ∷ 61 ∷ 34 ∷ 34 ∷ 62 ∷ 10 ∷ []
unfolding open_xml_element ◌+ℤ◌
runs = refl

read_attributes-attributes_text_example :
    read_attributes 3 (attributes_text attributes ++ 32 ∷ 47 ∷ 62 ∷ 10 ∷ []) ≡ attributes
read_attributes-attributes_text_example =
    read_attributes-attributes_text 3 attributes (32 ∷ 47 ∷ []) (omega arith)
      ((refl, (refl, tt)), (refl, (refl, (refl, tt))), ((refl, (refl, tt)), tt, tt)) (inr refl)
