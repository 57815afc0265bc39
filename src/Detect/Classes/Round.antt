-- ===== src/Detect/Classes/Round.antt =====
-- One round of tagAllClasses, for a class that gets a node.
use jleaker.Common.{
  ℕ, suc, ◌<◌, ◌≤◌, ◌≡◌, refl, ◌∙◌, sym, ap, true, false, ◌&&◌, if◌then◌else◌, Option, some, ◌>>=◌,
  List, [], ◌∷◌, ◌++◌, length, length-append, length-set, get_or-append, set, Bytes, str_eq,
  str_eq_iff, Bool-cases, inl, inr, arith,
}
use jleaker.Reference.Fields.Total.{IsRanked}
use jleaker.Reference.Fields.RoundTrip.{name_by_index-offset}
use jleaker.Node.Defs.{IgnoreField, MemoryNode, node_at, fresh_node, new_memory_node}
use jleaker.Node.Counts.{hit, IsCounted-set, IsCounted-new, IsCounted-owned}
use jleaker.Node.Update.{part-set, node_at-set_self, node_at-set_other}
use jleaker.Node.Free.Owners.{owners_of}
use jleaker.Configuration.{StrMap}
use jleaker.Detect.Classes.Defs.{
  Loaded, is_ready, State, or_null, limits_of, set_tag, fill_offsets, fill_class_ignore_list,
  tag_class,
}
use jleaker.Detect.Classes.Loop.{
  ordinary, taken, is_listed, List-cases, or_false, AreInRange-set_tag, addresses, AreLocated,
  class_node, owners_of-append, Owns, Tags,
}

module _ (strmap : StrMap) (loaded : Loaded) where
  module _ (rank : ℕ → ℕ) (ranked : IsRanked loaded.jvm rank) (fuel k : ℕ)
      (enough : rank k < fuel) where
    fill_offsets-AreLocated :
        (limits : List IgnoreField)
        → (fields : List IgnoreField) × (fill_offsets strmap loaded fuel k limits ≡ some fields)
          × AreLocated loaded.jvm fuel k limits fields
    unfolding fill_offsets
    fill_offsets-AreLocated [] = ([], refl, tt)
    fill_offsets-AreLocated (f ∷ fs) =
        let (idx, e, answers) =
          name_by_index-offset loaded.jvm f.field_name rank fuel k ranked enough in
        let (rest, e', located) = fill_offsets-AreLocated fs in
        (record f { field = idx } ∷ rest, rw (e, e') refl, (refl, refl, answers, located))

    -- The map after the limits of the class, if it is ready, were taken out of it.
    abbrev Gone : (m m' : strmap.Map) → Type 0
    Gone m m' =
        (name : Bytes)
        → limits_of strmap m' name ≡ (
            if is_ready loaded k && str_eq (loaded.name k) name
            then []
            else limits_of strmap m name)

    empty-Gone :
        (m : strmap.Map)
        → is_ready loaded k ≡ true
        → limits_of strmap m (loaded.name k) ≡ []
        → Gone m m
    empty-Gone m ready empty name = elim (Bool-cases (str_eq (loaded.name k) name)) [
      | inl same ↦
          let e : loaded.name k ≡ name = (str_eq_iff (loaded.name k) name).0 same in
          ap (limits_of strmap m) (sym e) ∙ rw (ready, same) empty
      | inr other ↦ rw (ready, other) refl
    ]

    module _ (n : ℕ)
        (found_last : (m : strmap.Map) (k k' : Bytes) (v : List IgnoreField)
          → strmap.get (strmap.put m k v) k'
            ≡ (if str_eq k k' then some v else strmap.get m k')) where
      put-Gone :
          (m : strmap.Map) → is_ready loaded k ≡ true → Gone m (strmap.put m (loaded.name k) [])
      put-Gone m ready name = elim (Bool-cases (str_eq (loaded.name k) name)) [
        | inl same ↦ ap or_null (found_last m (loaded.name k) name []) ∙ rw (ready, same) refl
        | inr other ↦ ap or_null (found_last m (loaded.name k) name []) ∙ rw (ready, other) refl
      ]

      -- A class without limits, or one that is not ready, gets none.
      fill_class_ignore_list-AreLocated :
          (m : strmap.Map)
          → (fields : List IgnoreField) × ((m' : strmap.Map) × (fill_class_ignore_list strmap loaded
                  fuel k
                  (class_node n k [])
                  m
                ≡ some (class_node n k fields, m'))
              × Gone m m')
            × AreLocated loaded.jvm fuel k
                (if is_ready loaded k then limits_of strmap m (loaded.name k) else [])
                fields
      unfolding fill_class_ignore_list
      fill_class_ignore_list-AreLocated m = elim (Bool-cases (is_ready loaded k)) [
        | inr raw ↦ ([], (m, rw (raw, fill_class_ignore_list) refl, λ name. rw raw refl), rw raw tt)
        | inl ready ↦ elim (List-cases (limits_of strmap m (loaded.name k))) [
          | inl empty ↦ (
            [],
            (m, rw (ready, empty, fill_class_ignore_list) refl, empty-Gone m ready empty),
            rw (ready, empty) tt,
          )
          | inr (f, fs, some_limits) ↦
              let (fields, e, located) = fill_offsets-AreLocated (f ∷ fs) in
              (
                fields,
                (
                  strmap.put m (loaded.name k) [],
                  rw (ready, some_limits, fill_class_ignore_list) (rw e refl),
                  put-Gone m ready,
                ),
                rw (ready, some_limits) located,
              )
        ]
      ]

      -- The node that the class gets in the round.
      pub record Made (s s' : State strmap) : Type 0 where
        pub fields : List IgnoreField
        pub node : node_at s'.nodes (length s.nodes) ≡ class_node n k fields
        pub located :
            AreLocated loaded.jvm fuel k
              (if is_ready loaded k
                then limits_of strmap s.ignore_referenced_by (loaded.name k)
                else [])
              fields
        pub tag : s'.tag k ≡ some (length s.nodes)

      -- The state after the round.
      abbrev made_state : State strmap → List IgnoreField → strmap.Map → State strmap
      made_state s fields m' = record {
        nodes = set (s.nodes ++ fresh_node n ∷ []) (length s.nodes) (class_node n k fields);
        ignore_referenced_by = m';
        tag = set_tag k (some (length s.nodes)) s.tag;
        class_nodes = s.class_nodes ++ length s.nodes ∷ [];
      }

      new_at :
          (s : State strmap)
          → node_at (s.nodes ++ fresh_node n ∷ []) (length s.nodes) ≡ fresh_node n
      new_at s =
          ground (arith, get_or-append s.nodes (fresh_node n) (length s.nodes) (fresh_node 0))

      made_returns :
          (s : State strmap) (fields : List IgnoreField) (m' : strmap.Map)
          → loaded.is_class_class k ≡ false
          → fill_class_ignore_list strmap loaded fuel k (class_node n k []) s.ignore_referenced_by
            ≡ some (class_node n k fields, m')
          → tag_class strmap loaded fuel n k s ≡ some (made_state s fields m')
      unfolding tag_class new_memory_node fresh_node
      made_returns s fields m' other filled =
          let continue : Option (MemoryNode × strmap.Map) → Option (State strmap) = λ r. r >>= λ x.
          some (record {
            nodes = set (s.nodes ++ fresh_node n ∷ []) (length s.nodes) x.0;
            ignore_referenced_by = x.1;
            tag = set_tag k (some (length s.nodes)) s.tag;
            class_nodes = s.class_nodes ++ length s.nodes ∷ [];
          }) in
          rw (other, tag_class)
            (ap
                (λ (x : MemoryNode). continue (
                  fill_class_ignore_list strmap loaded fuel k
                    (record x { obj = some k; class_node = true }) s.ignore_referenced_by))
                (new_at s)
              ∙ ap continue filled)

      made-Owns :
          (s : State strmap) (fields : List IgnoreField) (m' : strmap.Map) (held : ℕ → ℕ)
          → Owns strmap loaded held s
          → Owns strmap loaded held (made_state s fields m')
      unfolding new_memory_node owners_of fresh_node hit
      made-Owns s fields m' held o =
          let size = length-append s.nodes (fresh_node n ∷ []) in
          let counted = IsCounted-new n o.counts (o.within (length s.nodes) (omega arith)) in
          let filled =
            IsCounted-set (length s.nodes) (class_node n k fields) counted (omega (arith, size))
              (ap (λ (x : MemoryNode). x.referers) (sym (new_at s)))
              (ap (λ (x : MemoryNode). x.reference_pointing_to_me) (sym (new_at s))) in
          record {
            counts =
                IsCounted-owned (length s.nodes) filled
                  (λ a. omega (arith, owners_of-append s.class_nodes (length s.nodes ∷ []) a));
            within = λ a le.
                let past : suc (length s.nodes) ≤ a = omega (
                  arith,
                  length-set (s.nodes ++ fresh_node n ∷ []) (length s.nodes)
                      (class_node n k fields),
                  size,
                ) in
                let apart : hit (some (length s.nodes)) a ≡ 0 = ground arith in
                omega (
                  arith,
                  apart,
                  o.within a (omega arith),
                  owners_of-append s.class_nodes (length s.nodes ∷ []) a,
                );
          }

      made_clear :
          (s : State strmap) (fields : List IgnoreField) (m' : strmap.Map)
          → ((a : ℕ) → (node_at s.nodes a).visited ≡ false)
          → (a : ℕ) → (node_at (made_state s fields m').nodes a).visited ≡ false
      unfolding fresh_node
      made_clear s fields m' c a =
          let added = s.nodes ++ fresh_node n ∷ [] in
          part-set (λ x. x.visited) added (length s.nodes) a (class_node n k fields)
            (omega (arith, length-append s.nodes (fresh_node n ∷ [])))
            (ap (λ (x : MemoryNode). x.visited) (sym (new_at s)))
          ∙ ground (arith, get_or-append s.nodes (fresh_node n) a (fresh_node 0), c a)

      -- A class other than java.lang.Class gets a node, and its tag is the address.
      pub other_step :
          (s : State strmap)
          → loaded.is_class_class k ≡ false
          → (s' : State strmap) × (tag_class strmap loaded fuel n k s ≡ some s')
            × Tags strmap loaded s (k ∷ []) s'
            × Made s s'
      unfolding ordinary addresses taken is_listed
      other_step s other =
          let (fields, (m', e, gone), located) =
            fill_class_ignore_list-AreLocated s.ignore_referenced_by in
          let size = length-append s.nodes (fresh_node n ∷ []) in
          let added = s.nodes ++ fresh_node n ∷ [] in
          let filled = class_node n k fields in
          (
            made_state s fields m',
            made_returns s fields m' other e,
            record {
              size = ground (arith, length-set added (length s.nodes) filled, size);
              same_nodes = λ a lt.
                  node_at-set_other added (length s.nodes) a filled (omega (arith, size))
                    (ground arith)
                  ∙ ground (arith, get_or-append s.nodes (fresh_node n) a (fresh_node 0));
              listed = rw other refl;
              same_tags = λ o out. ground arith;
              limits = λ name. rw other (
                  gone name
                  ∙ ap (λ b. if b then [] else limits_of strmap s.ignore_referenced_by name)
                      (sym (or_false (is_ready loaded k && str_eq (loaded.name k) name))));
              owns = made-Owns s fields m';
              clear = made_clear s fields m';
              in_range =
                  AreInRange-set_tag s.nodes (set added (length s.nodes) filled) s.tag k
                    (some (length s.nodes))
                    (omega (arith, length-set added (length s.nodes) filled, size))
                    (λ a e. ground (arith, length-set added (length s.nodes) filled, size));
            },
            record {
              fields = fields;
              node = node_at-set_self added (length s.nodes) filled (omega (arith, size));
              located = located;
              tag = ground arith;
            },
          )
