-- ===== src/Node/Tests.antt =====
-- Counting the classes that refer to a node.
use jleaker.Common.{◌+◌, ◌≡◌, refl, List, [], ◌∷◌}
use jleaker.Node.Defs.{ClassReferenceCount, count_class}
use jleaker.Node.FanIn.{class_count, count_class_lem}

abbrev seen : List ClassReferenceCount
seen = record { klass = 4; count = 2 } ∷ record { klass = 6; count = 1 } ∷ []

runs : ((count_class 6 seen).0 ≡ 2) × ((count_class 5 seen).0 ≡ 1)
unfolding count_class
runs = (refl, refl)

count_class_lem_example :
    (class_count 6 (count_class 6 seen).1 ≡ class_count 6 seen + 1)
    × ((count_class 6 seen).0 ≡ class_count 6 (count_class 6 seen).1)
count_class_lem_example = count_class_lem 6 6 seen
