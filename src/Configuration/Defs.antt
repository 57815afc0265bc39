-- ===== src/Configuration/Defs.antt =====
-- ini_handler, which the INI parser calls for each entry. The string map of src/cpp/strmap.c is a
-- parameter: sm_get, which finds nothing for a missing key, and sm_put.
use jleaker.Common.{
  ℕ, zero, suc, ◌+◌, ◌-◌, Bool, true, false, ◌==◌, if◌then◌else◌, Option, none, some, List, [], ◌∷◌,
  length, get_or, Bytes, bytes, str_eq,
}
use jleaker.Common.Int.{ℤ, pos}
use jleaker.Node.Defs.{IgnoreField}
use jleaker.Options.{strtol, to_int}

pub record StrMap : Type 1 where
  pub Map : Type 0
  pub get : Map → Bytes → Option (List IgnoreField)
  pub put : Map → Bytes → List IgnoreField → Map
  pub Set : Type 0
  pub put_class : Set → Bytes → Set

pub record State (strmap : StrMap) : Type 0 where
  pub ignore_classes : strmap.Set
  pub ignore_referenced_by : strmap.Map

-- The loop `for (idx = nameLen; idx >= 0 && name[idx] != '.'; idx--)`, `none` for -1; name[nameLen]
-- is 0.
unfoldable pub last_dot : Bytes → ℕ → Option ℕ
last_dot name zero = if get_or name 0 0 == 46 then some 0 else none
last_dot name (suc idx) =
    let before = last_dot name idx in
    if get_or name (suc idx) 0 == 46 then some (suc idx) else before

-- strncpy of the first `n` bytes.
unfoldable pub take : ℕ → Bytes → Bytes
take zero s = []
take (suc n) [] = []
take (suc n) (c ∷ cs) = c ∷ take n cs

-- `name + n`
unfoldable pub drop : ℕ → Bytes → Bytes
drop zero s = s
drop (suc n) [] = []
drop (suc n) (c ∷ cs) = drop n cs

module _ (strmap : StrMap) where
  -- The new element goes in front of those of the class.
  unfoldable pub add_limit : (classname field_name : Bytes) → ℤ → State strmap → State strmap
  add_limit classname field_name threshold s =
      let old : List IgnoreField = elim (strmap.get s.ignore_referenced_by classname) [
        | none ↦ []
        | some fs ↦ fs
      ] in
      record s {
        ignore_referenced_by =
            strmap.put s.ignore_referenced_by classname
              (record { field = pos 0; field_name = field_name; threshold = threshold } ∷ old);
      }

  -- An entry of the section ignore_referenced_by; the result is the value returned.
  unfoldable pub limit_entry : (name value : Bytes) → State strmap → Bool × State strmap
  unfolding last_dot take drop add_limit strtol to_int
  limit_entry name value s = elim (strtol value).1 [
    | c ∷ cs ↦ (false, s)
    | [] ↦ elim (last_dot name (length name)) [
      | none ↦ (false, s)
      | some idx ↦
          if length name - idx == 1
          then (false, s)
          else (true, add_limit (take idx name) (drop (idx + 1) name) (to_int (strtol value).0) s)
    ]
  ]

  unfoldable pub ini_handler : (section name value : Bytes) → State strmap → Bool × State strmap
  unfolding limit_entry
  ini_handler section name value s =
      if str_eq section (bytes "ignore_classes")
      then (true, record s { ignore_classes = strmap.put_class s.ignore_classes name })
      else (if str_eq section (bytes "ignore_referenced_by")
          then limit_entry name value s
          else (true, s))
