-- ===== src/Detect/Search/Leaks.antt =====
-- searchObjectsForLeaks reports the objects above the threshold, in order, each with a node of its own.
use jleaker.Common.{
  ℕ, ◌+◌, ◌<◌, ◌≤◌, ◌≡◌, refl, ◌∙◌, sym, ap, subst, true, false, ◌||◌, ◌&&◌, ◌==◌, ==_refl, ltb,
  if◌then◌else◌, Option, none, some, List, [], ◌∷◌, ◌++◌, length, length-set, length-append,
  get_or-append, inl, inr, Bool-cases, arith,
}
use mathlib.Core.List.{append_assoc, append-nil}
use jleaker.Common.Int.{ℤ, ltb_ℤ}
use jleaker.Bitmask
use jleaker.Bitmask.Bounds.{new-IsValid}
use jleaker.Bitmask.Members.{contains-update}
use jleaker.Node.Defs.{MemoryNode, node_at, fresh_node, new_memory_node}
use jleaker.Node.Update.{node_at-set_self, node_at-set_other}
use jleaker.Detect.Search.Defs.{
  SearchConfig, LeakingNode, SearchState, tag_index, object_size, object_printer, add_leak,
  search_object, search_objects_for_leaks,
}

-- The objects above the threshold, with their sizes and printers.
unfoldable pub large_objects : SearchConfig → List (ℕ × ℤ) → List (ℕ × ℤ × Option ℕ)
large_objects cfg [] = []
large_objects cfg (o ∷ os) =
    let later = large_objects cfg os in
    let idx = tag_index (length cfg.print_fns) o.1 in
    let size = object_size cfg o.0 idx in
    if ltb_ℤ cfg.size_threshold size then (o.0, size, object_printer cfg idx) ∷ later else later

-- The tag that the last call of SetTag for the object sets, if there is one.
unfoldable pub last_tag : List (ℕ × Option ℕ) → ℕ → Option (Option ℕ)
last_tag [] object = none
last_tag (t ∷ ts) object =
    let earlier = last_tag ts object in if t.0 == object then some t.1 else earlier

-- The object is not among those that GetObjectsWithTags returned.
abbrev pub IsOutside : ℕ → List (ℕ × ℤ) → Type 0
IsOutside object [] = Unit {0}
IsOutside object (o ∷ os) = ((o.0 == object) ≡ false) × IsOutside object os

-- No object is returned twice.
abbrev pub AreDistinct : List (ℕ × ℤ) → Type 0
AreDistinct [] = Unit {0}
AreDistinct (o ∷ os) = IsOutside o.0 os × AreDistinct os

-- The objects that are not above the threshold have the tag 0 at the end.
abbrev pub AreCleared : SearchConfig → SearchState → List (ℕ × ℤ) → Type 0
AreCleared cfg s [] = Unit {0}
AreCleared cfg s (o ∷ os) =
    (ltb_ℤ cfg.size_threshold (object_size cfg o.0 (tag_index (length cfg.print_fns) o.1)) ≡ false
      → last_tag s.tags o.0 ≡ some none)
    × AreCleared cfg s os

-- The leak number `k` of an object: its node leads to this leak alone.
pub record IsLeakOf (s : SearchState) (k address : ℕ) (o : ℕ × ℤ × Option ℕ) (l : LeakingNode)
    : Type 0 where
  pub number : l.leak_number ≡ k
  pub at : l.node ≡ address
  pub size : l.leak_size ≡ o.1
  pub printer : l.print_fn ≡ o.2
  pub in_store : address < length s.nodes
  pub object : (node_at s.nodes address).obj ≡ some o.0
  pub node_size : (node_at s.nodes address).leak_size ≡ o.1
  pub leads : (m : ℕ) → Bitmask.contains (node_at s.nodes address).leaks_related m ≡ (k == m)
  pub tagged : last_tag s.tags o.0 ≡ some (some address)

-- One leak for each object, numbered from `k` and with nodes from `address` on.
abbrev pub AreLeaksOf :
    SearchState → (k address : ℕ) → List (ℕ × ℤ × Option ℕ) → List LeakingNode → Type 0
AreLeaksOf s k address [] [] = Unit {0}
AreLeaksOf s k address (o ∷ os) (l ∷ ls) =
    IsLeakOf s k address o l × AreLeaksOf s (k + 1) (address + 1) os ls
AreLeaksOf s k address _ _ = ⊥

-- Nodes are added behind the others, and calls of SetTag are made for the objects.
pub record Extends (s s' : SearchState) (os : List (ℕ × ℤ)) : Type 0 where
  pub longer : length s.nodes ≤ length s'.nodes
  pub same_nodes : (a : ℕ) → a < length s.nodes → node_at s'.nodes a ≡ node_at s.nodes a
  pub same_tags :
      (object : ℕ) → IsOutside object os → last_tag s'.tags object ≡ last_tag s.tags object

Extends-cons :
    (s s' s'' : SearchState) (o : ℕ × ℤ) (os : List (ℕ × ℤ))
    → Extends s s' (o ∷ [])
    → Extends s' s'' os
    → Extends s s'' (o ∷ os)
Extends-cons s s' s'' o os p q = record {
  longer = omega (arith, p.longer, q.longer);
  same_nodes = λ a h. q.same_nodes a (omega (arith, p.longer)) ∙ p.same_nodes a h;
  same_tags =
      λ object (apart, outside). q.same_tags object outside ∙ p.same_tags object (apart, tt);
}

add_leak-Extends :
    (object : ℕ) (tag size : ℤ) (fn : Option ℕ) (s : SearchState)
    → Extends s (add_leak object size fn s) ((object, tag) ∷ [])
unfolding add_leak new_memory_node last_tag
add_leak-Extends object tag size fn s =
    let fresh = fresh_node (s.number_of_leaks + 1) in
    let grown = length-append s.nodes (fresh ∷ []) in
    record {
      longer = omega (arith, grown, length-set (s.nodes ++ fresh ∷ []) (length s.nodes));
      same_nodes = λ a h.
          node_at-set_other (s.nodes ++ fresh ∷ []) (length s.nodes) a _ (omega (arith, grown))
            (ground arith)
          ∙ ground (arith, get_or-append s.nodes fresh a (fresh_node 0));
      same_tags = λ other (apart, _). rw apart refl;
    }

-- The set of a new node, once its leak is added.
fresh_leads :
    (k m : ℕ) → Bitmask.contains (Bitmask.add (fresh_node (k + 1)).leaks_related k) m ≡ (k == m)
unfolding fresh_node Bitmask.new
fresh_leads k m =
    let (none_there, one_more, _) =
      contains-update (Bitmask.new (k + 1)) k m (new-IsValid (k + 1)) in
    one_more ∙ rw (empty_lem k m) (within k m)
  where
    empty_lem : (k m : ℕ) → Bitmask.contains (Bitmask.new (k + 1)) m ≡ false
    empty_lem k m = (contains-update (Bitmask.new (k + 1)) k m (new-IsValid (k + 1))).0

    within : (k m : ℕ) → (false || (ltb k (Bitmask.new (k + 1)).size && (k == m))) ≡ (k == m)
    within k m = ground arith

add_leak_lem :
    (object : ℕ) (size : ℤ) (fn : Option ℕ) (s : SearchState)
    → (l : LeakingNode) × ((add_leak object size fn s).leaks ≡ s.leaks ++ l ∷ [])
      × IsLeakOf (add_leak object size fn s) s.number_of_leaks (length s.nodes) (object, size, fn) l
unfolding add_leak new_memory_node last_tag
add_leak_lem object size fn s =
    let fresh = fresh_node (s.number_of_leaks + 1) in
    let st = s.nodes ++ fresh ∷ [] in
    let within : length s.nodes < length st = omega (arith, length-append s.nodes (fresh ∷ [])) in
    let is_fresh : node_at st (length s.nodes) ≡ fresh =
      ground (arith, get_or-append s.nodes fresh (length s.nodes) (fresh_node 0)) in
    let read = node_at-set_self st (length s.nodes) _ within in
    (
      _,
      refl,
      record {
        number = refl;
        at = refl;
        size = refl;
        printer = refl;
        in_store = rw length-set within;
        object = ap (λ (n : MemoryNode). n.obj) read;
        node_size = ap (λ (n : MemoryNode). n.leak_size) read;
        leads = λ m.
            ap (λ (n : MemoryNode). Bitmask.contains n.leaks_related m) read
            ∙ ap
                (λ (n : MemoryNode).
                  Bitmask.contains (Bitmask.add n.leaks_related s.number_of_leaks) m)
                is_fresh
            ∙ fresh_leads s.number_of_leaks m;
        tagged = rw ==_refl refl;
      },
    )

IsLeakOf-Extends :
    (s s' : SearchState) (k address : ℕ) (o : ℕ × ℤ × Option ℕ) (l : LeakingNode)
    {os : List (ℕ × ℤ)}
    → Extends s s' os
    → IsOutside o.0 os
    → IsLeakOf s k address o l
    → IsLeakOf s' k address o l
IsLeakOf-Extends s s' k address o l e outside i =
    let same = e.same_nodes address i.in_store in
    record {
      number = i.number;
      at = i.at;
      size = i.size;
      printer = i.printer;
      in_store = omega (arith, e.longer, i.in_store);
      object = ap (λ (n : MemoryNode). n.obj) same ∙ i.object;
      node_size = ap (λ (n : MemoryNode). n.leak_size) same ∙ i.node_size;
      leads = λ m. ap (λ (n : MemoryNode). Bitmask.contains n.leaks_related m) same ∙ i.leads m;
      tagged = e.same_tags o.0 outside ∙ i.tagged;
    }

pub length-add_leak :
    (object : ℕ) (size : ℤ) (fn : Option ℕ) (s : SearchState)
    → length (add_leak object size fn s).nodes ≡ length s.nodes + 1
unfolding add_leak new_memory_node
length-add_leak object size fn s =
    length-set (s.nodes ++ fresh_node (s.number_of_leaks + 1) ∷ []) (length s.nodes) _
    ∙ length-append s.nodes (fresh_node (s.number_of_leaks + 1) ∷ [])

-- What a search of the objects from the state `s` reports in the state `s'`.
pub record Reports (cfg : SearchConfig) (s s' : SearchState) (os : List (ℕ × ℤ)) : Type 0 where
  pub reported : List LeakingNode
  pub listed : s'.leaks ≡ s.leaks ++ reported
  pub described : AreLeaksOf s' s.number_of_leaks (length s.nodes) (large_objects cfg os) reported
  pub counted : s'.number_of_leaks ≡ s.number_of_leaks + length reported
  pub extends : Extends s s' os
  pub cleared : AreCleared cfg s' os

module _ (cfg : SearchConfig) (o : ℕ × ℤ) (os : List (ℕ × ℤ)) (s s' : SearchState)
    (outside : IsOutside o.0 os) where
  -- One more object in front, which is a leak.
  Reports-add :
      (size : ℤ) (fn : Option ℕ)
      → ltb_ℤ cfg.size_threshold (object_size cfg o.0 (tag_index (length cfg.print_fns) o.1)) ≡ true
      → large_objects cfg (o ∷ os) ≡ (o.0, size, fn) ∷ large_objects cfg os
      → Reports cfg (add_leak o.0 size fn s) s' os
      → Reports cfg s s' (o ∷ os)
  unfolding add_leak
  Reports-add size fn above large r =
      let (l, at_end, is_leak) = add_leak_lem o.0 size fn s in
      record {
        reported = l ∷ r.reported;
        listed =
            r.listed
            ∙ ap (λ ls. ls ++ r.reported) at_end
            ∙ append_assoc s.leaks (l ∷ []) r.reported;
        described =
            subst (λ bs. AreLeaksOf s' s.number_of_leaks (length s.nodes) bs (l ∷ r.reported))
              (sym large)
              (
                IsLeakOf-Extends _ s' _ _ (o.0, size, fn) l r.extends outside is_leak,
                subst
                    (λ a. AreLeaksOf s' (s.number_of_leaks + 1) a (large_objects cfg os) r.reported)
                    (length-add_leak o.0 size fn s) r.described,
              );
        counted = omega (arith, r.counted);
        extends = Extends-cons s _ s' o os (add_leak-Extends o.0 o.1 size fn s) r.extends;
        cleared = (λ below. absurd (cc), r.cleared);
      }

  -- An object that is no leak.
  Reports-skip :
      large_objects cfg (o ∷ os) ≡ large_objects cfg os
      → Reports cfg (record s { tags = (o.0, none) ∷ s.tags }) s' os
      → Reports cfg s s' (o ∷ os)
  unfolding last_tag
  Reports-skip large r = record {
    reported = r.reported;
    listed = r.listed;
    described =
        subst (λ bs. AreLeaksOf s' s.number_of_leaks (length s.nodes) bs r.reported) (sym large)
          r.described;
    counted = r.counted;
    extends = record {
      longer = r.extends.longer;
      same_nodes = r.extends.same_nodes;
      same_tags = λ object (apart, out). r.extends.same_tags object out ∙ rw apart refl;
    };
    cleared = (λ below. r.extends.same_tags o.0 outside ∙ rw ==_refl refl, r.cleared);
  }

-- searchObjectsForLeaks, for objects of which none is returned twice by GetObjectsWithTags, appends to the
-- list of leaks one for each object whose size method answers more than the threshold, in the
-- order of the objects, and no other. They are numbered on from the number of leaks, which grows by as
-- many. Each has a new node that holds the object and its size and leads to this leak alone, and no node
-- that was there changes. Behind the search each of these objects has its node's address for its tag and the
-- others have the tag 0; no other object's tag is set.
pub search_objects_for_leaks-Reports :
    (cfg : SearchConfig) (os : List (ℕ × ℤ)) (s : SearchState)
    → AreDistinct os
    → Reports cfg s (search_objects_for_leaks cfg os s) os
unfolding search_objects_for_leaks search_object large_objects
search_objects_for_leaks-Reports cfg [] s distinct = record {
  reported = [];
  listed = sym (append-nil s.leaks);
  described = tt;
  counted = omega arith;
  extends = record { longer = omega arith; same_nodes = λ a h. refl; same_tags = λ object h. refl };
  cleared = tt;
}
search_objects_for_leaks-Reports cfg (o ∷ os) s (outside, distinct) =
    let idx = tag_index (length cfg.print_fns) o.1 in
    let size = object_size cfg o.0 idx in
    elim (Bool-cases (ltb_ℤ cfg.size_threshold size)) [
      | inl above ↦
          let s1 = add_leak o.0 size (object_printer cfg idx) s in
          subst (λ x. Reports cfg s (search_objects_for_leaks cfg os x) (o ∷ os))
            (sym (rw above refl))
            (Reports-add cfg o os s (search_objects_for_leaks cfg os s1) outside size
              (object_printer cfg idx) above (rw above refl)
              (search_objects_for_leaks-Reports cfg os s1 distinct))
      | inr below ↦
          let s1 : SearchState = record s { tags = (o.0, none) ∷ s.tags } in
          subst (λ x. Reports cfg s (search_objects_for_leaks cfg os x) (o ∷ os))
            (sym (rw below refl))
            (Reports-skip cfg o os s (search_objects_for_leaks cfg os s1) outside (rw below refl)
              (search_objects_for_leaks-Reports cfg os s1 distinct))
    ]
