-- ===== src/Detect/Walk/Leaks.antt =====
-- How the heap walk spreads leaks over the graph, finishes them at the roots and counts its progress.
use jleaker.Common.{
  ℕ, zero, suc, ◌+◌, ◌<◌, ◌≤◌, ◌≡◌, refl, ◌∙◌, ap, not, ◌&&◌, ◌||◌, ltb, leb, if◌then◌else◌, Option,
  some, List, length, get_or, set, length-set, get_or-set, Bool-cases, inl, inr, arith,
}
use jleaker.Common.Int.{ℤ, ltb_ℤ}
use jleaker.Reference.Kind.{Kind, ReferenceInfo, is_root_reference}
use jleaker.Bitmask.{BitmaskSet, contains, add_all_with_exclusion}
use jleaker.Bitmask.Bounds.{IsValid}
use jleaker.Bitmask.Members.{IsClean}
use jleaker.Bitmask.Union.{contains-add_all, contains-add_all_with_exclusion}
use jleaker.Node.Defs.{MemoryNode, Store, node_at}
use jleaker.Node.Update.{part-set, node_at-set_self}
use jleaker.Detect.Walk.Defs.{
  Config, Walk, spread_leaks, append_referer, count_found, record_reference,
}

-- `max` of two sizes, as the callback computes it.
abbrev pub larger : ℤ → ℤ → ℤ
larger a b = if ltb_ℤ a b then b else a

-- One round of the loop for each leak: those that this node has and that are not finished gain one.
pub count_found_lem :
    (related finished : BitmaskSet) (left i j : ℕ) (found : List ℕ)
    → i + left ≤ length found
    → get_or (count_found related finished left i found) j 0
      ≡ get_or found j 0
        + (if leb i j && ltb j (i + left) && (contains related j && not (contains finished j))
            then 1
            else 0)
unfolding count_found
count_found_lem related finished zero i j found h = ground arith
count_found_lem related finished (suc left) i j found h =
    let here = contains related i && not (contains finished i) in
    let more = set found i (get_or found i 0 + 1) in
    elim (Bool-cases here) [
      | inl yes_here ↦ rw yes_here (
          ground (
            arith,
            count_found_lem related finished left (i + 1) j more,
            length-set found i (get_or found i 0 + 1),
            get_or-set found i j (get_or found i 0 + 1) 0,
          ))
      | inr not_here ↦
          rw not_here (ground (arith, count_found_lem related finished left (i + 1) j found))
    ]

-- Recording a referer leaves the sets and sizes of all nodes as they are.
append-leaks :
    (this : ℕ) (kind : Kind) (info : Option ReferenceInfo) (st : Store) (ref : Option ℕ) (a : ℕ)
    → this < length st
    → let after = node_at (append_referer this kind info st ref) a in
      (after.leaks_related ≡ (node_at st a).leaks_related)
      × (after.leak_size ≡ (node_at st a).leak_size)
unfolding append_referer
append-leaks this kind info st ref a h = (
  part-set (λ n. n.leaks_related) st this a _ h refl,
  part-set (λ n. n.leak_size) st this a _ h refl,
)

-- What the referrer's node receives.
spread-leaks :
    (this : ℕ) (finished : BitmaskSet) (st : Store) (r : ℕ)
    → r < length st
    → let after = node_at (spread_leaks this finished st r) r in
      (after.leaks_related
        ≡ add_all_with_exclusion
            (node_at st r).leaks_related
            (node_at st this).leaks_related
            finished)
      × (after.leak_size ≡ larger (node_at st r).leak_size (node_at st this).leak_size)
unfolding spread_leaks
spread-leaks this finished st r h =
    let now = node_at-set_self st r _ h in
    (ap (λ (n : MemoryNode). n.leaks_related) now, ap (λ (n : MemoryNode). n.leak_size) now)

-- Recording a reference between two nodes of the store hands the referrer's node exactly the
-- leaks of this node that are not finished and that fit its set, and the larger of the two leak
-- sizes. The three sets are well formed, and those of this node and of the finished leaks have no
-- bit beyond their size.
pub record-spreads :
    (cfg : Config) (kind : Kind) (info : Option ReferenceInfo) (this r : ℕ) (w : Walk) (m : ℕ)
    → this < length w.nodes
    → r < length w.nodes
    → IsValid (node_at w.nodes r).leaks_related
    → IsValid (node_at w.nodes this).leaks_related
    → IsValid w.leaks_finished
    → IsClean (node_at w.nodes this).leaks_related
    → IsClean w.leaks_finished
    → let before = node_at w.nodes r in
      let source = node_at w.nodes this in
      let after = node_at (record_reference cfg kind info this w (some r)).nodes r in
      (contains after.leaks_related m ≡ (
        contains before.leaks_related m
        || (ltb m before.leaks_related.size
            && (contains source.leaks_related m && not (contains w.leaks_finished m)))))
      × (after.leak_size ≡ larger before.leak_size source.leak_size)
unfolding record_reference
record-spreads cfg kind info this r w m ht hr vr vt vf ct cf =
    let st = spread_leaks this w.leaks_finished w.nodes r in
    let (sets, sizes) =
      append-leaks this kind info st (some r) r (unfold spread_leaks in rw length-set ht) in
    let (spread, size) = spread-leaks this w.leaks_finished w.nodes r hr in
    (
      ap (λ s. contains s m) (sets ∙ spread)
          ∙ contains-add_all_with_exclusion (node_at w.nodes r).leaks_related
              (node_at w.nodes this).leaks_related w.leaks_finished m vr vt vf ct cf,
      sizes ∙ size,
    )

-- Recording a reference finishes the leaks of this node if the reference is a root, keeps what
-- was finished, and adds one to the progress of each leak of this node that was not finished. The
-- two sets are well formed, that of this node has no bit beyond its size, and there is a counter
-- for each leak.
pub record-progress :
    (cfg : Config) (kind : Kind) (info : Option ReferenceInfo) (this : ℕ) (ref : Option ℕ)
    (w : Walk) (m : ℕ)
    → let after = record_reference cfg kind info this w ref in
      let related = (node_at after.nodes this).leaks_related in
      IsValid related
      → IsValid w.leaks_finished
      → IsClean related
      → cfg.number_of_leaks ≤ length w.nodes_found
      → (contains after.leaks_finished m ≡ (
          contains w.leaks_finished m
          || (is_root_reference kind && (ltb m w.leaks_finished.size && contains related m))))
        × (get_or after.nodes_found m 0
            ≡ get_or w.nodes_found m 0
              + (if ltb m cfg.number_of_leaks
                    && (contains related m && not (contains w.leaks_finished m))
                  then 1
                  else 0))
unfolding record_reference
record-progress cfg kind info this ref w m vr vf cr enough =
    let related = (node_at (record_reference cfg kind info this w ref).nodes this).leaks_related in
    (
      elim (Bool-cases (is_root_reference kind)) [
        | inl root ↦ rw root (contains-add_all w.leaks_finished related m vf vr cr)
        | inr inner ↦ rw inner (ground arith)
      ],
      ground (
        arith,
        count_found_lem related w.leaks_finished cfg.number_of_leaks 0 m w.nodes_found
            (omega arith),
      ),
    )
