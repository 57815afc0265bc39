-- ===== src/Configuration/Tests.antt =====
-- A limit for the field `b.C.f` in a string map that is an association list.
use jleaker.Common.{
  ◌≡◌, refl, true, false, if◌then◌else◌, Option, none, some, List, [], ◌∷◌, Bytes, bytes, str_eq,
  arith,
}
use jleaker.Common.Int.{pos}
use jleaker.Node.Defs.{IgnoreField}
use jleaker.Configuration.{StrMap, State, ini_handler}
use jleaker.Configuration.Entry.{ini_handler_lem, ini_handler-refused}

unfoldable find : List (Bytes × List IgnoreField) → Bytes → Option (List IgnoreField)
find [] k = none
find (e ∷ es) k = let rest = find es k in if str_eq e.0 k then some e.1 else rest

abbrev strmap : StrMap
strmap = record {
  Map = List (Bytes × List IgnoreField);
  get = find;
  put = λ m k v. (k, v) ∷ m;
  Set = List Bytes;
  put_class = λ ks k. k ∷ ks;
}

abbrev start : State strmap
start = record { ignore_classes = []; ignore_referenced_by = [] }

abbrev limit : IgnoreField
limit = record { field = pos 0; field_name = bytes "f"; threshold = pos 70 }

runs :
    ((ini_handler strmap
        (bytes "ignore_referenced_by")
        (bytes "b.C.f")
        (bytes "70")
        start).1.ignore_referenced_by
      ≡ (bytes "b.C", limit ∷ []) ∷ [])
    × ((ini_handler strmap (bytes "ignore_referenced_by") (bytes "f") (bytes "70") start).0 ≡ false)
unfolding ini_handler find str_eq
runs = (refl, refl)

ini_handler_lem_example :
    let (accepted, after) =
      ini_handler strmap (bytes "ignore_referenced_by") (bytes "b.C.f") (bytes "70") start in
    (accepted ≡ true)
    × ((k : Bytes)
        → find after.ignore_referenced_by k
          ≡ (if str_eq (bytes "b.C") k then some (limit ∷ []) else none))
    × (after.ignore_classes ≡ [])
unfolding find
ini_handler_lem_example =
    ini_handler_lem strmap (bytes "b.C") (bytes "f") 7 (0 ∷ []) start (λ m k k' v. refl) (refl, tt)
      (omega arith) (omega arith, (omega arith, tt)) (omega arith)

ini_handler-refused_example :
    (ini_handler strmap (bytes "ignore_referenced_by") (bytes "f") (bytes "70") start).1 ≡ start
unfolding ini_handler find str_eq
ini_handler-refused_example =
    ini_handler-refused strmap (bytes "ignore_referenced_by") (bytes "f") (bytes "70") start refl
