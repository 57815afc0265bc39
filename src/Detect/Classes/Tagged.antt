-- ===== src/Detect/Classes/Tagged.antt =====
-- What tagAllClasses leaves behind, class by class.
use jleaker.Common.{
  ℕ, zero, suc, ◌+◌, ◌<◌, ◌≡◌, refl, ◌∙◌, sym, ap, subst, true, false, not, ◌&&◌, ◌||◌, ==_refl,
  if◌then◌else◌, none, some, ◌>>=◌, bind_ext, bind_assoc, List, [], ◌∷◌, ◌++◌, length, Bytes,
  str_eq, Bool-cases, ◌⊎◌, inl, inr, arith,
}
use jleaker.Reference.Fields.Total.{IsRanked}
use jleaker.Node.Defs.{IgnoreField, node_at}
use jleaker.Configuration.{StrMap}
use jleaker.Detect.Classes.Defs.{
  Loaded, is_ready, State, limits_of, tag_class, tag_classes, tag_all_classes,
}
use jleaker.Detect.Classes.Loop.{
  ordinary, taken, is_listed, addresses, AreLocated, class_node, Tags, Tags-nil, Tags-cons,
  class_step,
}
use jleaker.Detect.Classes.Round.{other_step}

pub length-addresses : (a n : ℕ) → length (addresses a n) ≡ n
unfolding addresses
length-addresses a zero = refl
length-addresses a (suc n) = ap suc (length-addresses (a + 1) n)

module _ (strmap : StrMap) (loaded : Loaded) (rank : ℕ → ℕ) (ranked : IsRanked loaded.jvm rank)
    (found_last : (m : strmap.Map) (k k' : Bytes) (v : List IgnoreField)
      → strmap.get (strmap.put m k v) k' ≡ (if str_eq k k' then some v else strmap.get m k'))
    (fuel n : ℕ) where
  one_class :
      (k : ℕ) (s : State strmap)
      → rank k < fuel
      → (s' : State strmap) × (tag_class strmap loaded fuel n k s ≡ some s')
        × Tags strmap loaded s (k ∷ []) s'
  one_class k s enough = elim (Bool-cases (loaded.is_class_class k)) [
    | inl class ↦ let (e, tags) = class_step strmap loaded fuel n k s class in (_, e, tags)
    | inr other ↦
        let (s', e, tags, made) =
          other_step strmap loaded rank ranked fuel k enough n found_last s other in
        (s', e, tags)
  ]

  -- The rounds return.
  pub all_classes :
      (classes : List ℕ) (s : State strmap)
      → ((k : ℕ) → is_listed k classes ≡ true → rank k < fuel)
      → (last : State strmap) × (tag_classes strmap loaded fuel n classes s ≡ some last)
        × Tags strmap loaded s classes last
  unfolding tag_classes is_listed
  all_classes [] s enough = (s, refl, Tags-nil strmap loaded s)
  all_classes (k ∷ ks) s enough =
      let (s1, e1, one) = one_class k s (enough k (ground (arith, ==_refl k))) in
      let (last, e, more) = all_classes ks s1 (λ c listed. enough c (ground arith)) in
      (last, rw (e1, tag_classes) e, Tags-cons strmap loaded one more)

  tag_classes-append :
      (xs ys : List ℕ) (s : State strmap)
      → tag_classes strmap loaded fuel n (xs ++ ys) s
        ≡ (tag_classes strmap loaded fuel n xs s >>= tag_classes strmap loaded fuel n ys)
  unfolding tag_classes
  tag_classes-append [] ys s = refl
  tag_classes-append (x ∷ xs) ys s =
      bind_ext (tag_class strmap loaded fuel n x s) _ _ (λ s'. tag_classes-append xs ys s')
      ∙ sym (bind_assoc (tag_class strmap loaded fuel n x s) _ _)

  -- The class that follows `before` has the node that `before` leaves room for, from the address
  -- `start` on and with the limits in `m`.
  pub record HasNode (start : ℕ) (m : strmap.Map) (last : State strmap) (before : List ℕ) (k : ℕ)
      : Type 0 where
    pub fields : List IgnoreField
    pub tag : last.tag k ≡ some (start + ordinary loaded before)
    pub node : node_at last.nodes (start + ordinary loaded before) ≡ class_node n k fields
    pub located :
        AreLocated loaded.jvm fuel k
          (if is_ready loaded k && not (taken loaded (loaded.name k) before)
            then limits_of strmap m (loaded.name k)
            else [])
          fields

  -- java.lang.Class has no tag, and every other class has a node.
  abbrev pub IsTagged :
      (start : ℕ) (m : strmap.Map) (last : State strmap) (before : List ℕ) → ℕ → Type 0
  IsTagged start m last before k =
      ((loaded.is_class_class k ≡ true) × (last.tag k ≡ none))
      ⊎ ((loaded.is_class_class k ≡ false) × HasNode start m last before k)

  -- The rounds behind the first one.
  later_rounds :
      (after : List ℕ) (k : ℕ) (s1 s2 last : State strmap)
      → tag_class strmap loaded fuel n k s1 ≡ some s2
      → ((c : ℕ) → is_listed c after ≡ true → rank c < fuel)
      → tag_classes strmap loaded fuel n (k ∷ after) s1 ≡ some last
      → Tags strmap loaded s2 after last
  unfolding tag_classes
  later_rounds after k s1 s2 last step enough e =
      let (end, run, rest) = all_classes after s2 enough in
      let same : some end ≡ some last = sym (rw (step, tag_classes) run) ∙ e in
      let ends : end ≡ last = cc in subst (λ x. Tags strmap loaded s2 after x) ends rest

  this_class :
      (before after : List ℕ) (k : ℕ) (s s1 last : State strmap)
      → rank k < fuel
      → ((c : ℕ) → is_listed c after ≡ true → rank c < fuel)
      → is_listed k after ≡ false
      → Tags strmap loaded s before s1
      → tag_classes strmap loaded fuel n (k ∷ after) s1 ≡ some last
      → IsTagged (length s.nodes) s.ignore_referenced_by last before k
  unfolding ordinary
  this_class before after k s s1 last enough later once tags e =
      elim (Bool-cases (loaded.is_class_class k)) [
        | inl class ↦
            let (step, one) = class_step strmap loaded fuel n k s1 class in
            let rest = later_rounds after k s1 _ last step later e in
            inl (class, rest.same_tags k once ∙ ground (arith, ==_refl k))
        | inr other ↦
            let (s2, step, one, made) =
              other_step strmap loaded rank ranked fuel k enough n found_last s1 other in
            let rest = later_rounds after k s1 s2 last step later e in
            inr (
              other,
              record {
                fields = made.fields;
                tag = rest.same_tags k once ∙ made.tag ∙ ap some tags.size;
                node =
                    ap (node_at last.nodes) (sym tags.size)
                    ∙ rest.same_nodes (length s1.nodes) (ground (arith, one.size))
                    ∙ made.node;
                located =
                    subst (λ l. AreLocated loaded.jvm fuel k l made.fields)
                      (ground (arith, tags.limits (loaded.name k))) made.located;
              },
            )
      ]

  before_after :
      (before after : List ℕ) (k c : ℕ)
      → (is_listed c before || is_listed c (k ∷ after)) ≡ is_listed c (before ++ k ∷ after)
  unfolding is_listed
  before_after [] after k c = refl
  before_after (b ∷ before) after k c = ground (arith, before_after before after k c)

  -- Let the string map find what was put last, let the class hierarchy have no cycle, and let the fuel
  -- be above the rank of each class that is loaded. Then tagAllClasses returns. A class that is loaded
  -- once, and after those of `before`, has no tag if it is java.lang.Class. Otherwise its tag is the
  -- address of a new node for it, which stands behind those of the classes before. The node has the
  -- limits that were configured for the class's name, if the class is initialized and no initialized
  -- class of this name stands before it, and else none; each of these limits has the index of
  -- the field that it names, or -1 where the class has no such field.
  pub tag_all_classes-IsTagged :
      (before after : List ℕ) (k : ℕ) (s : State strmap)
      → is_listed k after ≡ false
      → ((c : ℕ) → is_listed c (before ++ k ∷ after) ≡ true → rank c < fuel)
      → (last : State strmap) × (tag_all_classes strmap loaded fuel n (before ++ k ∷ after) s
          ≡ some last)
        × IsTagged (length s.nodes) s.ignore_referenced_by last before k
  unfolding tag_all_classes is_listed
  tag_all_classes-IsTagged before after k s once enough =
      let s0 : State strmap = record s { class_nodes = [] } in
      let here = λ (c : ℕ). before_after before after k c in
      let (last, e, tags) = all_classes (before ++ k ∷ after) s0 enough in
      let (s1, e1, first) = all_classes before s0 (λ c listed. enough c (ground (arith, here c))) in
      let split =
        sym e
        ∙ tag_classes-append before (k ∷ after) s0
        ∙ ap (λ r. r >>= tag_classes strmap loaded fuel n (k ∷ after)) e1 in
      (
        last,
        e,
        this_class before after k s0 s1 last (enough k (ground (arith, here k, ==_refl k)))
            (λ c listed. enough c (ground (arith, here c))) once first (sym split),
      )
