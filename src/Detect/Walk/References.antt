-- ===== src/Detect/Walk/References.antt =====
-- The heap walk keeps each node's reference count equal to the references that it has recorded.
use jleaker.Common.{
  ℕ, ◌<◌, ◌≤◌, ◌≡◌, refl, ◌∙◌, Bool, true, false, not, ◌&&◌, if◌then◌else◌, Option, none, some, [],
  ◌∷◌, ◌++◌, length, length-set, length-append, Option-cases, inl, inr, arith,
}
use jleaker.Common.Int.{pos, ltb_ℤ}
use jleaker.Reference.Kind.{
  Kind, ReferenceInfo, kind_eq, field_index, local_reference_of_this_thread,
}
use jleaker.Bitmask
use jleaker.Node.Defs.{Store, node_at, new_memory_node, fresh_node, add_reference_class}
use jleaker.Node.Counts.{
  IsCounted, IsCounted-set, IsCounted-increment, IsCounted-referer, IsCounted-new,
}
use jleaker.Node.FanIn.{add_reference_class-IsCounted}
use jleaker.Detect.Walk.Defs.{
  Config, Walk, Referrer, no_object, tag, Outcome, visit, fatal, is_field_ignored, count_reference,
  record_reference, resolve_referrer, class_filter, cb_object_tag_referrer,
}

-- The walk and the referrer's tag after a callback that does not end the process.
pub data Visits (P : Walk → Referrer → Type 0) : Outcome → Type 0 where
  visits : {w : Walk} {r : Referrer} → P w r → Visits P (visit w r)
  dies : Visits P fatal

-- The address that a tag holds, if any, is that of a node.
abbrev pub TagInRange : Store → Referrer → Type 0
TagInRange st (tag (some r)) = r < length st
TagInRange st _ = Unit {0}

pub TagInRange-length :
    (st st' : Store) (r : Referrer) → length st' ≡ length st → TagInRange st r → TagInRange st' r
TagInRange-length st st' no_object size t = tt
TagInRange-length st st' (tag none) size t = tt
TagInRange-length st st' (tag (some r)) size t = omega arith

pub Visits-if :
    (P : Walk → Referrer → Type 0) (b : Bool) (x y : Outcome)
    → Visits P x
    → Visits P y
    → Visits P (if b then x else y)
Visits-if P true x y p q = p
Visits-if P false x y p q = q

module _ (cfg : Config) (kind : Kind) (info : Option ReferenceInfo) (this : ℕ) where
  pub length-record :
      (w : Walk) (ref : Option ℕ)
      → length (record_reference cfg kind info this w ref).nodes ≡ length w.nodes
  unfolding record_reference
  length-record w none = length-set w.nodes this _
  length-record w (some r) = length-set _ this _ ∙ length-set w.nodes r _

module _ (cfg : Config) (kind : Kind) (info : Option ReferenceInfo) (this : ℕ)
    (owners : ℕ → ℕ) where
  -- The walk is counted, no node went away, and the tag is that of a node.
  abbrev pub Keeps : Walk → Walk → Referrer → Type 0
  Keeps w w' r =
      IsCounted owners w'.nodes none × (length w.nodes ≤ length w'.nodes) × TagInRange w'.nodes r

  record-IsCounted :
      (w : Walk) (ref : Option ℕ)
      → IsCounted owners w.nodes ref
      → this < length w.nodes
      → ((r : ℕ) → ref ≡ some r → r < length w.nodes)
      → IsCounted owners (record_reference cfg kind info this w ref).nodes none
  unfolding record_reference
  record-IsCounted w none c h in_range = IsCounted-referer this _ c h refl
  record-IsCounted w (some r) c h in_range =
      let c' = IsCounted-set r _ c (in_range r refl) refl refl in
      IsCounted-referer this _ c' (rw length-set h) refl

  -- A return before anything changed.
  unchanged :
      (w : Walk) (referrer : Referrer)
      → IsCounted owners w.nodes none
      → TagInRange w.nodes referrer
      → Keeps w w referrer
  unchanged w referrer c t = (c, omega arith, t)

  record-Keeps :
      (w v : Walk) (r : ℕ)
      → IsCounted owners v.nodes (some r)
      → this < length v.nodes
      → r < length v.nodes
      → length w.nodes ≤ length v.nodes
      → Keeps w (record_reference cfg kind info this v (some r)) (tag (some r))
  record-Keeps w v r c h hr grows = (
    record-IsCounted v (some r) c h (λ q e. ground arith),
    omega (arith, length-record cfg kind info this v (some r)),
    omega (arith, length-record cfg kind info this v (some r)),
  )

  resolve-Keeps :
      (w : Walk) (referrer : Referrer)
      → IsCounted owners w.nodes none
      → this < length w.nodes
      → TagInRange w.nodes referrer
      → owners (length w.nodes) ≡ 0
      → Visits (Keeps w) (resolve_referrer cfg kind info this w referrer)
  unfolding resolve_referrer new_memory_node count_reference
  resolve-Keeps w no_object c h t o = visits (
    record-IsCounted w none c h (λ r e. cc),
    omega (arith, length-record cfg kind info this w none),
    tt,
  )
  resolve-Keeps w (tag (some r)) c h t o =
      let same : Visits (Keeps w) (visit w (tag (some r))) =
        visits (unchanged w (tag (some r)) c t) in
      let v : Walk = record w { nodes = count_reference w.nodes r } in
      let size : length v.nodes ≡ length w.nodes = length-set w.nodes r _ in
      Visits-if (Keeps w) _ _ _ same (
        Visits-if (Keeps w) _ _ _ same (
          visits (
            record-Keeps w v r (IsCounted-increment r c t) (omega arith) (omega arith)
              (omega arith))))
  resolve-Keeps w (tag none) c h t o =
      let size = length-append w.nodes (fresh_node cfg.number_of_leaks ∷ []) in
      let v : Walk = record w { nodes = w.nodes ++ fresh_node cfg.number_of_leaks ∷ [] } in
      visits (
        record-Keeps w v (length w.nodes) (IsCounted-new cfg.number_of_leaks c o)
          (omega (arith, size)) (omega (arith, size)) (omega (arith, size)))

  Keeps-from :
      (w v : Walk) {out : Outcome}
      → length v.nodes ≡ length w.nodes
      → Visits (Keeps v) out
      → Visits (Keeps w) out
  Keeps-from w v size (visits (c, grows, t)) = visits (c, omega arith, t)
  Keeps-from w v size dies = dies

  class-Keeps :
      (w : Walk) (referrer_class : Option ℕ) (referrer : Referrer)
      → IsCounted owners w.nodes none
      → this < length w.nodes
      → TagInRange w.nodes referrer
      → owners (length w.nodes) ≡ 0
      → Visits (Keeps w) (class_filter cfg kind info this w referrer_class referrer)
  unfolding class_filter
  class-Keeps w none referrer c h t o = resolve-Keeps w referrer c h t o
  class-Keeps w (some k) referrer c h t o =
      elim (Option-cases (add_reference_class w.nodes this k)) [
        | inl wrong ↦ rw (wrong, class_filter) dies
        | inr ((n, nodes), e) ↦
            let (c', size) = add_reference_class-IsCounted owners w.nodes this k c h e in
            let v : Walk = record w { nodes = nodes } in
            let counted : Visits (Keeps w) (visit v referrer) =
              visits (c', omega arith, TagInRange-length w.nodes nodes referrer size t) in
            rw (e, class_filter)
              (Visits-if (Keeps w) (not (ltb_ℤ (pos n) cfg.max_fan_in)) _ _ counted (
                Visits-if (Keeps w)
                  (kind_eq kind Kind.field
                    && is_field_ignored (node_at nodes k).ignore_fields
                        (node_at nodes this).leak_size (field_index info))
                  _ _ counted
                  (Keeps-from w v size (
                    resolve-Keeps v referrer c' (omega arith)
                      (TagInRange-length w.nodes nodes referrer size t) (rw size o)))))
      ]

  -- A callback whose referee is a node of the store, whose referrer has no tag or that of a node,
  -- and which does not end the process, keeps every node's reference count equal to its owners
  -- and the recorded references that point to it, drops no node, and leaves the referrer untagged
  -- or tagged with a node. A node that it makes has no owner.
  pub callback-Keeps :
      (w : Walk) (referrer_class : Option ℕ) (referrer : Referrer)
      → IsCounted owners w.nodes none
      → this < length w.nodes
      → TagInRange w.nodes referrer
      → owners (length w.nodes) ≡ 0
      → Visits (Keeps w) (cb_object_tag_referrer cfg kind info this referrer_class referrer w)
  unfolding cb_object_tag_referrer
  callback-Keeps w referrer_class referrer c h t o =
      let same : Visits (Keeps w) (visit w referrer) = visits (unchanged w referrer c t) in
      Visits-if (Keeps w) (local_reference_of_this_thread cfg.thread_id kind info) _ _ same (
        Visits-if (Keeps w)
          (Bitmask.contains_all w.leaks_finished (node_at w.nodes this).leaks_related) _ _ same
          (Visits-if (Keeps w) (Bitmask.is_empty (node_at w.nodes this).leaks_related) _ _ same
            (class-Keeps w referrer_class referrer c h t o)))
