-- ===== src/Detect/Dump/Recorded.antt =====
-- The callback of the heap walk reaches each node that it makes by the reference that it records.
use jleaker.Common.{
  ℕ, ◌<◌, ◌≤◌, ◌≡◌, refl, ◌∙◌, ap, not, ◌&&◌, Option, none, some, [], ◌∷◌, ◌++◌, length, length-set,
  length-append, set, subst, ltb, ltb→lt, Bool-cases, Option-cases, inl, inr, arith,
}
use jleaker.Common.Int.{pos, ltb_ℤ}
use jleaker.Bitmask
use jleaker.Reference.Kind.{
  Kind, ReferenceInfo, kind_eq, field_index, local_reference_of_this_thread,
}
use jleaker.Node.Defs.{
  MemoryReferer, MemoryNode, Store, node_at, fresh_node, new_memory_node, add_reference_class,
}
use jleaker.Node.Counts.{hit, refs_to, refs_to-append}
use jleaker.Node.Update.{node_at-set_self}
use jleaker.Node.FanIn.{add_reference_class-some}
use jleaker.Node.Free.Owners.{referred}
use jleaker.Detect.Walk.{
  Config, Walk, Referrer, Outcome, is_field_ignored, spread_leaks, append_referer, count_reference,
  record_reference, resolve_referrer, class_filter, cb_object_tag_referrer,
}
use jleaker.Detect.Walk.References.{
  Visits, visits, dies, Visits-if, TagInRange, TagInRange-length, Keeps, length-record,
  callback-Keeps,
}
use jleaker.Detect.Dump.Rooted.{
  IsRooted, Grows, Grows-refl, Grows-trans, Grows-set, Grows-append, Leads-mono,
}

-- A write that touches neither the referers nor the mark.
Grows-same :
    (st : Store) (i : ℕ) (n : MemoryNode)
    → i < length st
    → n.visited ≡ (node_at st i).visited
    → n.referers ≡ (node_at st i).referers
    → Grows st (set st i n)
Grows-same st i n h marks refs = Grows-set st i n h marks (λ b. omega (arith, ap (refs_to b) refs))

of_visit :
    {P : Walk → Referrer → Type 0} {w : Walk} {r : Referrer} → Visits P (Outcome.visit w r) → P w r
of_visit (visits p) = p

module _ (cfg : Config) (kind : Kind) (info : Option ReferenceInfo) (this : ℕ) where
  append_referer-Grows :
      (st : Store) (ref : Option ℕ)
      → this < length st
      → Grows st (append_referer this kind info st ref)
        × ((r : ℕ)
            → ref ≡ some r
            → 0 < refs_to r (node_at (append_referer this kind info st ref) this).referers)
  unfolding append_referer refs_to hit
  append_referer-Grows st ref h =
      let old = (node_at st this).referers in
      let m : MemoryReferer = record { kind = kind; info = info; node = ref } in
      (
        Grows-set st this _ h refl (λ b. omega (arith, refs_to-append b old (m ∷ []))),
        λ r e.
            let read : (node_at (append_referer this kind info st ref) this).referers
                ≡ old ++ m ∷ [] =
              ap (λ (x : MemoryNode). x.referers) (node_at-set_self st this _ h) in
            ground (arith, refs_to-append r old (m ∷ []), ap (refs_to r) read),
      )

  record-Grows :
      (w : Walk) (ref : Option ℕ)
      → this < length w.nodes
      → ((r : ℕ) → ref ≡ some r → r < length w.nodes)
      → Grows w.nodes (record_reference cfg kind info this w ref).nodes
        × ((r : ℕ)
            → ref ≡ some r
            → 0
              < refs_to r (node_at (record_reference cfg kind info this w ref).nodes this).referers)
  unfolding record_reference spread_leaks
  record-Grows w none h in_range = append_referer-Grows w.nodes none h
  record-Grows w (some r) h in_range =
      let spread = Grows-same w.nodes r _ (in_range r refl) refl refl in
      let (grows, added) =
        append_referer-Grows (spread_leaks this w.leaks_finished w.nodes r) (some r)
          (omega (arith, spread.longer)) in
      (Grows-trans spread grows, added)

  -- What a callback adds is reached from its referee.
  abbrev pub Adds : Walk → Walk → Referrer → Type 0
  Adds w w' r =
      Grows w.nodes w'.nodes
      × ((a : ℕ)
          → length w.nodes ≤ a
          → a < length w'.nodes
          → 0 < refs_to a (node_at w'.nodes this).referers)

  nothing-Adds :
      (w w' : Walk) (r : Referrer)
      → length w'.nodes ≡ length w.nodes
      → Grows w.nodes w'.nodes
      → Adds w w' r
  nothing-Adds w w' r size grows = (grows, λ a le lt. absurd (omega arith))

  resolve-Adds :
      (w : Walk) (referrer : Referrer)
      → this < length w.nodes
      → TagInRange w.nodes referrer
      → Visits (Adds w) (resolve_referrer cfg kind info this w referrer)
  unfolding resolve_referrer new_memory_node count_reference
  resolve-Adds w Referrer.no_object h t = visits (
      nothing-Adds w (record_reference cfg kind info this w none) Referrer.no_object
        (length-record cfg kind info this w none) (record-Grows w none h (λ r e. cc)).0)
  resolve-Adds w (Referrer.tag (some r)) h t =
      let same : Visits (Adds w) (Outcome.visit w (Referrer.tag (some r))) =
        visits (nothing-Adds w w (Referrer.tag (some r)) refl (Grows-refl w.nodes)) in
      let v : Walk = record w { nodes = count_reference w.nodes r } in
      let counted : Grows w.nodes v.nodes = Grows-same w.nodes r _ t refl refl in
      Visits-if (Adds w) _ _ _ same (
        Visits-if (Adds w) _ _ _ same (
          visits (
            nothing-Adds w (record_reference cfg kind info this v (some r)) (Referrer.tag (some r))
              (length-record cfg kind info this v (some r) ∙ length-set w.nodes r _)
              (Grows-trans counted
                (record-Grows v (some r) (omega (arith, counted.longer))
                  (λ q e. ground (arith, counted.longer))).0))))
  resolve-Adds w (Referrer.tag none) h t =
      let size = length-append w.nodes (fresh_node cfg.number_of_leaks ∷ []) in
      let v : Walk = record w { nodes = w.nodes ++ fresh_node cfg.number_of_leaks ∷ [] } in
      let (grows, added) =
        record-Grows v (some (length w.nodes)) (omega (arith, size))
          (λ q e. ground (arith, size)) in
      visits (
        Grows-trans (Grows-append w.nodes cfg.number_of_leaks) grows,
        λ a le lt. added a (
            ap some
              (omega (arith, length-record cfg kind info this v (some (length w.nodes)), size))),
      )

  Adds-from :
      (w v : Walk) {out : Outcome}
      → length v.nodes ≡ length w.nodes
      → Grows w.nodes v.nodes
      → Visits (Adds v) out
      → Visits (Adds w) out
  Adds-from w v size grows (visits (more, added)) =
      visits (Grows-trans grows more, λ a le lt. added a (omega arith) lt)
  Adds-from w v size grows dies = dies

  class-Adds :
      (w : Walk) (referrer_class : Option ℕ) (referrer : Referrer)
      → this < length w.nodes
      → TagInRange w.nodes referrer
      → Visits (Adds w) (class_filter cfg kind info this w referrer_class referrer)
  unfolding class_filter
  class-Adds w none referrer h t = resolve-Adds w referrer h t
  class-Adds w (some k) referrer h t = elim (Option-cases (add_reference_class w.nodes this k)) [
    | inl wrong ↦ rw (wrong, class_filter) dies
    | inr ((n, nodes), e) ↦
        let (the_class, _, _, _, same) = add_reference_class-some w.nodes this k e in
        let size : length nodes ≡ length w.nodes = rw same (length-set w.nodes this _) in
        let grows : Grows w.nodes nodes = rw same (Grows-same w.nodes this _ h refl refl) in
        let v : Walk = record w { nodes = nodes } in
        let counted : Visits (Adds w) (Outcome.visit v referrer) =
          visits (nothing-Adds w v referrer size grows) in
        rw (e, class_filter)
          (Visits-if (Adds w) (not (ltb_ℤ (pos n) cfg.max_fan_in)) _ _ counted (
            Visits-if (Adds w)
              (kind_eq kind Kind.field
                && is_field_ignored (node_at nodes k).ignore_fields (node_at nodes this).leak_size
                    (field_index info))
              _ _ counted
              (Adds-from w v size grows (
                resolve-Adds v referrer (omega arith)
                  (TagInRange-length w.nodes nodes referrer size t)))))
  ]

  callback-Adds :
      (w : Walk) (referrer_class : Option ℕ) (referrer : Referrer)
      → this < length w.nodes
      → TagInRange w.nodes referrer
      → Visits (Adds w) (cb_object_tag_referrer cfg kind info this referrer_class referrer w)
  unfolding cb_object_tag_referrer
  callback-Adds w referrer_class referrer h t =
      let same : Visits (Adds w) (Outcome.visit w referrer) =
        visits (nothing-Adds w w referrer refl (Grows-refl w.nodes)) in
      Visits-if (Adds w) (local_reference_of_this_thread cfg.thread_id kind info) _ _ same (
        Visits-if (Adds w)
          (Bitmask.contains_all w.leaks_finished (node_at w.nodes this).leaks_related) _ _ same
          (Visits-if (Adds w) (Bitmask.is_empty (node_at w.nodes this).leaks_related) _ _ same
            (class-Adds w referrer_class referrer h t)))

  -- The nodes stay rooted, no node goes away, and the referrer's tag is that of a node.
  pub callback-IsRooted :
      (owners : ℕ → ℕ) (w w' : Walk) (referrer_class : Option ℕ) (referrer referrer' : Referrer)
      → IsRooted owners w.nodes
      → this < length w.nodes
      → TagInRange w.nodes referrer
      → cb_object_tag_referrer cfg kind info this referrer_class referrer w
        ≡ Outcome.visit w' referrer'
      → IsRooted owners w'.nodes
        × (length w.nodes ≤ length w'.nodes)
        × TagInRange w'.nodes referrer'
  callback-IsRooted owners w w' referrer_class referrer referrer' r h t e =
      let (counts, grown, in_range) = of_visit (
        subst (Visits (Keeps cfg kind info this owners w)) e (
          callback-Keeps cfg kind info this owners w referrer_class referrer r.counts h t
            (r.within (length w.nodes) (omega arith)))) in
      let (grows, added) =
        of_visit (subst (Visits (Adds w)) e (callback-Adds w referrer_class referrer h t)) in
      (
        record {
          counts = counts;
          clear = λ a. grows.same_marks a ∙ r.clear a;
          within = λ a le. r.within a (omega arith);
          led = λ a lt. elim (Bool-cases (ltb a (length w.nodes))) [
            | inl old ↦
                Leads-mono (λ b. omega arith) grows.more a (r.led a (ltb→lt a (length w.nodes) old))
            | inr new ↦
                referred this a (Leads-mono (λ b. omega arith) grows.more this (r.led this h))
                  (added a (ground arith) lt)
          ];
        },
        grown,
        in_range,
      )
