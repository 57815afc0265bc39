-- ===== src/Detect/Walk/Repeats.antt =====
-- A reference that was recorded is not recorded again.
use jleaker.Common.{
  ℕ, ◌<◌, ◌≡◌, refl, ◌∙◌, ap, true, ◌&&◌, ==_refl, Option, none, some, List, [], ◌∷◌, ◌++◌, length,
  length-set, Bool-cases, inl, inr, arith,
}
use jleaker.Reference.Kind.{
  Kind, ReferenceInfo, field_info, array_info, constant_pool_info, stack_local_info, jni_local_info,
  kind_eq, kind_eq_iff, info_eq, field_index,
}
use jleaker.Node.Defs.{
  MemoryReferer, MemoryNode, node_at, ptr_eq, info_matches, has_reference_between_objects,
}
use jleaker.Node.Update.{node_at-set_self}
use jleaker.Detect.Walk.Defs.{
  Config, Walk, tag, visit, is_field_ignored, spread_leaks, append_referer, record_reference,
  resolve_referrer,
}

info_eq_refl : (i : ReferenceInfo) → info_eq i i ≡ true
unfolding info_eq
info_eq_refl (field_info i) = ==_refl _
info_eq_refl (array_info i) = ==_refl _
info_eq_refl (constant_pool_info i) = ==_refl _
info_eq_refl (stack_local_info t s m g d l) = ground (arith, ==_refl t, ==_refl s, ==_refl m)
info_eq_refl (jni_local_info t m g d) = ground (arith, ==_refl t, ==_refl m)

info_matches_refl : (info : Option ReferenceInfo) → info_matches info info ≡ true
unfolding info_matches
info_matches_refl none = refl
info_matches_refl (some i) = info_eq_refl i

ptr_eq_refl : (p : Option ℕ) → ptr_eq p p ≡ true
ptr_eq_refl none = refl
ptr_eq_refl (some a) = ==_refl a

-- The last referer of a list is found.
found_last :
    (rs : List MemoryReferer) (kind : Kind) (info : Option ReferenceInfo) (ref : Option ℕ)
    → has_reference_between_objects
        (rs ++ record { kind = kind; info = info; node = ref } ∷ [])
        ref
        kind
        info
      ≡ true
unfolding has_reference_between_objects
found_last [] kind info ref =
    ground (arith, (kind_eq_iff kind kind).1 refl, info_matches_refl info, ptr_eq_refl ref)
found_last (r ∷ rs) kind info ref = ground (arith, found_last rs kind info ref)

module _ (cfg : Config) (kind : Kind) (info : Option ReferenceInfo) (this : ℕ) where
  recorded-found :
      (w : Walk) (r : ℕ)
      → this < length w.nodes
      → has_reference_between_objects
          (node_at (record_reference cfg kind info this w (some r)).nodes this).referers
          (some r)
          kind
          info
        ≡ true
  unfolding record_reference append_referer
  recorded-found w r h =
      let st = spread_leaks this w.leaks_finished w.nodes r in
      let within : this < length st = unfold spread_leaks in rw length-set h in
      ap (λ (n : MemoryNode). has_reference_between_objects n.referers (some r) kind info)
        (node_at-set_self st this _ within)
      ∙ found_last (node_at st this).referers kind info (some r)

  -- When JVMTI reports a reference that was just recorded once more, the callback, once past its tests
  -- of the set of leaks and of the referrer's class, changes neither the graph, nor the finished
  -- leaks, nor the progress.
  pub resolve_referrer-repeated :
      (w : Walk) (r : ℕ)
      → this < length w.nodes
      → let after = record_reference cfg kind info this w (some r) in
        resolve_referrer cfg kind info this after (tag (some r)) ≡ visit after (tag (some r))
  unfolding resolve_referrer
  resolve_referrer-repeated w r h =
      let after = record_reference cfg kind info this w (some r) in
      elim (Bool-cases (
        kind_eq kind Kind.static_field
        && is_field_ignored (node_at after.nodes r).ignore_fields
            (node_at after.nodes this).leak_size (field_index info))) [
              | inl ignored ↦ rw ignored refl
              | inr looked_at ↦ rw (looked_at, recorded-found w r h) refl
            ]
