-- ===== src/Detect/Walk/Defs.antt =====
-- The callback cbObjectTagReferrer, cut at its early returns.
use jleaker.Common.{
  ℕ, zero, suc, ◌+◌, Bool, true, false, not, ◌&&◌, if◌then◌else◌, Option, none, some, List, [], ◌∷◌,
  ◌++◌, get_or, set,
}
use jleaker.Common.Int.{ℤ, pos, ◌+ℤ◌, ltb_ℤ, ◌==ℤ◌}
use jleaker.Bitmask.{BitmaskSet}
use jleaker.Bitmask
use jleaker.Reference.Kind.{
  Kind, ReferenceInfo, kind_eq, field_index, is_root_reference, local_reference_of_this_thread,
}
use jleaker.Node.Defs.{
  IgnoreField, Store, node_at, new_memory_node, has_reference_between_objects, add_reference_class,
}

-- What the callback reads of the globals.
pub record Config : Type 0 where
  pub thread_id : ℕ
  pub max_fan_in : ℤ
  pub number_of_leaks : ℕ

-- The memory nodes and the two fields of FollowReferencesData.
pub record Walk : Type 0 where
  pub nodes : Store
  pub leaks_finished : BitmaskSet
  pub nodes_found : List ℕ

-- `referrer_tag_ptr`: NULL where the referrer is no object, and else where its tag is kept, 0
-- (`tag none`) or the address of its memory node.
pub data Referrer : Type 0 where
  no_object : Referrer
  tag : Option ℕ → Referrer

-- Every return but that of fatal_error lets JVMTI visit on.
pub data Outcome : Type 0 where
  visit : Walk → Referrer → Outcome
  fatal : Outcome

-- The loop of isFieldIgnored.
unfoldable pub is_field_ignored : List IgnoreField → (leak_size field_index : ℤ) → Bool
is_field_ignored [] leak_size index = false
is_field_ignored (f ∷ fs) leak_size index =
    let later = is_field_ignored fs leak_size index in
    if f.field ==ℤ index && ltb_ℤ leak_size f.threshold then true else later

-- The leaks of this node that are not finished go to the referrer, and the larger leak size.
unfoldable pub spread_leaks : (this : ℕ) → BitmaskSet → Store → ℕ → Store
spread_leaks this finished st ref =
    let this_node = node_at st this in
    let ref_node = node_at st ref in
    set st ref (record ref_node {
      leaks_related =
          Bitmask.add_all_with_exclusion ref_node.leaks_related this_node.leaks_related finished;
      leak_size =
          if ltb_ℤ ref_node.leak_size this_node.leak_size
          then this_node.leak_size
          else ref_node.leak_size;
    })

unfoldable pub append_referer : (this : ℕ) → Kind → Option ReferenceInfo → Store → Option ℕ → Store
append_referer this kind info st ref =
    let this_node = node_at st this in
    set st this (record this_node {
      referers = this_node.referers ++ record { kind = kind; info = info; node = ref } ∷ [];
    })

-- The loop `for (i = 0; i < numberOfLeaks; i++)`, with the rounds left.
unfoldable pub count_found : BitmaskSet → BitmaskSet → ℕ → ℕ → List ℕ → List ℕ
count_found related finished zero i found = found
count_found related finished (suc left) i found = count_found related finished left (i + 1) (
    if Bitmask.contains related i && not (Bitmask.contains finished i)
    then set found i (get_or found i 0 + 1)
    else found)

-- `refNode->reference_pointing_to_me++`
unfoldable pub count_reference : Store → ℕ → Store
count_reference st r = set st r (record (node_at st r) {
  reference_pointing_to_me = (node_at st r).reference_pointing_to_me +ℤ pos 1;
})

module _ (cfg : Config) (kind : Kind) (info : Option ReferenceInfo) (this : ℕ) where
  -- The rest of the callback, once the referrer's node is known; `none` is NULL.
  unfoldable pub record_reference : Walk → Option ℕ → Walk
  unfolding spread_leaks append_referer count_found
  record_reference w ref =
      let spread : Store = elim ref [
        | none ↦ w.nodes
        | some r ↦ spread_leaks this w.leaks_finished w.nodes r
      ] in
      let nodes = append_referer this kind info spread ref in
      let related = (node_at nodes this).leaks_related in
      record {
        nodes = nodes;
        nodes_found = count_found related w.leaks_finished cfg.number_of_leaks 0 w.nodes_found;
        leaks_finished =
            if is_root_reference kind
            then Bitmask.add_all w.leaks_finished related
            else w.leaks_finished;
      }

  unfoldable pub resolve_referrer : Walk → Referrer → Outcome
  unfolding record_reference count_reference
  resolve_referrer w no_object = visit (record_reference w none) no_object
  resolve_referrer w (tag (some r)) =
      let ref_node = node_at w.nodes r in
      let this_node = node_at w.nodes this in
      if kind_eq kind Kind.static_field
        && is_field_ignored ref_node.ignore_fields this_node.leak_size (field_index info)
      then visit w (tag (some r))
      else (if has_reference_between_objects this_node.referers (some r) kind info
          then visit w (tag (some r))
          else visit (record_reference (record w { nodes = count_reference w.nodes r }) (some r))
              (tag (some r)))
  resolve_referrer w (tag none) =
      let created = new_memory_node cfg.number_of_leaks w.nodes in
      visit (record_reference (record w { nodes = created.1 }) (some created.0))
        (tag (some created.0))

  -- The tests on the referrer's class; a class tag of 0 is `none`.
  unfoldable pub class_filter : Walk → Option ℕ → Referrer → Outcome
  unfolding resolve_referrer
  class_filter w none referrer = resolve_referrer w referrer
  class_filter w (some class_node) referrer = elim (add_reference_class w.nodes this class_node) [
    | none ↦ fatal
    | some (refs_from_same_class, nodes) ↦
        if not (ltb_ℤ (pos refs_from_same_class) cfg.max_fan_in)
        then visit (record w { nodes = nodes }) referrer
        else (if kind_eq kind Kind.field
              && is_field_ignored (node_at nodes class_node).ignore_fields
                  (node_at nodes this).leak_size (field_index info)
            then visit (record w { nodes = nodes }) referrer
            else resolve_referrer (record w { nodes = nodes }) referrer)
  ]

  -- cbObjectTagReferrer, where `user_data` is not NULL: FollowReferences is always given the data.
  unfoldable pub cb_object_tag_referrer : (referrer_class : Option ℕ) → Referrer → Walk → Outcome
  unfolding class_filter
  cb_object_tag_referrer referrer_class referrer w =
      if local_reference_of_this_thread cfg.thread_id kind info
      then visit w referrer
      else (if Bitmask.contains_all w.leaks_finished (node_at w.nodes this).leaks_related
          then visit w referrer
          else (if Bitmask.is_empty (node_at w.nodes this).leaks_related
              then visit w referrer
              else class_filter w referrer_class referrer))
